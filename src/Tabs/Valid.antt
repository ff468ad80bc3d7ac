-- ===== src/Tabs/Valid.antt =====
-- Tabs have different ids, and the active tab is one of them.
mod Lists
pub mod Kept
mod Opened
pub mod Order
pub mod Steps
