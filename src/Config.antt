-- ===== src/Config.antt =====
-- config.go: the settings, their sanitizers and their file; address_history.go's list.
mod Defs
mod Sanitize
mod History
mod Save
pub mod Normal
unfoldable pub use Defs.*
unfoldable pub use Sanitize.*
unfoldable pub use History.*
unfoldable pub use Save.*
