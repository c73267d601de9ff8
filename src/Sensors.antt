-- ===== src/Sensors.antt =====
-- sensors: the manager and the sensors' computations.
pub mod Lte
pub mod Manager
pub mod Ping
pub mod System
