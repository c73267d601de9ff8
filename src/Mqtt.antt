-- ===== src/Mqtt.antt =====
-- services/mqtt: the topics, the commands and their duplicates.
pub mod Dedup
pub mod Topics
pub mod Processor
pub mod Loop
pub mod Publishers
pub mod Tls
pub mod Transport
pub mod Commands
