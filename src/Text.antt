-- ===== src/Text.antt =====
-- Go's `strings`, `unicode/utf8` and the host part of `net/url`, as far as the program calls them.
pub mod Search
pub mod Space
pub mod Utf8
pub mod Decimal
pub mod Host
pub mod Path
