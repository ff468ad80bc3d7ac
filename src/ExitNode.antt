-- ===== src/ExitNode.antt =====
-- exit_node_preferences.go: the choice of an exit node, and its application with a rollback.
mod Choice
mod Apply
pub mod Selected
pub mod Rollback
unfoldable pub use Choice.*
unfoldable pub use Apply.*
