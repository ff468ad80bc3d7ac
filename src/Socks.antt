-- ===== src/Socks.antt =====
-- socks.go: the SOCKS5 proxy that the web views are pointed at, up to the relay of bytes.
mod Defs
pub mod Dials
unfoldable pub use Defs.*
