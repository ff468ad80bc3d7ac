-- ===== src/Navigation.antt =====
-- What the shell tells of a navigation: browser_nav.go and navigation_diagnostic.go.
mod Defs
pub mod Named
unfoldable pub use Defs.*
