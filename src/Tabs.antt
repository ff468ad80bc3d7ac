-- ===== src/Tabs.antt =====
-- The tabs of cmd/womprat/main.go: opened, registered by the shell, switched, moved, closed,
-- restored and saved.
mod Defs
mod Change
mod Open
pub mod Valid
unfoldable pub use Defs.*
unfoldable pub use Change.*
unfoldable pub use Open.*
