-- ===== src/Sensors/Lte.antt =====
-- sensors/lte.rs: the LTE sensor.
pub mod Parse
pub mod Fake
pub mod Neighbors
pub mod Poll
pub mod Polled
mod Tests
