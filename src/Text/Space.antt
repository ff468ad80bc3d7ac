-- ===== src/Text/Space.antt =====
-- strings.TrimSpace: white space is that of Unicode, read from the bytes of UTF-8.
mod Defs
mod Laws
unfoldable pub use Defs.{trim_space}
pub use Laws.{trim_space_idem}
