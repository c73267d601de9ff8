-- ===== src/Modem.antt =====
-- services/modem_access: the modem behind the LTE sensor and the AT command handler.
pub mod Types
pub mod Access
pub mod Registration
pub mod Discovery
pub mod Fake
pub mod Service
mod Tests
