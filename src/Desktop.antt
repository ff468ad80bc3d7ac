-- ===== src/Desktop.antt =====
-- Remote desktops: what rdp.go and vnc.go accept before another library takes over.
mod Defs
pub mod Accepted
unfoldable pub use Defs.*
