-- ===== src/Handlers.antt =====
-- services/mqtt/handlers: one function for each `CommandHandler::handle`.
pub mod Defs
pub mod Modem
