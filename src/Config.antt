-- ===== src/Config.antt =====
-- config.rs: the configuration and `Config::validate`. Integers of every width are numbers; a
-- `Config` that was read from TOML has each within its width.
mod Defs
mod Checks
pub mod Valid
pub mod Accepts
pub mod Sample
pub mod Defaults
mod Tests
unfoldable pub use Defs.*
unfoldable pub use Checks.*
