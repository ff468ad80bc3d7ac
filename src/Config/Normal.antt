-- ===== src/Config/Normal.antt =====
-- What the sanitizers of config.go establish.
pub mod Recent
pub mod Fields
pub mod Tabs
pub mod Stable
