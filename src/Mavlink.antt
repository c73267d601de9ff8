-- ===== src/Mavlink.antt =====
-- mavlink and context.rs: the subcommands, the discovery of systems and the outgoing queue.
pub mod Frames
pub mod Reporter
pub mod Subcommands
pub mod Systems
pub mod Outgoing
pub mod Sniffer
pub mod Heartbeat
