-- ===== src/Address.antt =====
-- What is typed into the address bar: an address, or words to search for.
mod Defs
pub mod Resolved
pub mod Hosted
unfoldable pub use Defs.*
