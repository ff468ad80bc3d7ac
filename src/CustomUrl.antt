-- ===== src/CustomUrl.antt =====
-- custom_url.go: `ssh://`, `vnc://` and `rdp://` addresses; browser_url.go: addresses of web pages.
mod Defs
pub mod Valid
unfoldable pub use Defs.*
