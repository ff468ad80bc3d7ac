-- ===== src/Text/Utf8.antt =====
-- unicode/utf8 and strings.ToValidUTF8, with `truncateUTF8Bytes` of download.go.
mod Defs
mod Laws
mod Valid
mod Cut
unfoldable pub use Defs.{rune_width, last_rune_width, to_valid_utf8, truncate_utf8_bytes}
pub use Laws.{All-to_valid_utf8, All-truncate, length-to_valid_utf8, length-truncate}
pub use Valid.{
  ascii_width, ascii-IsValid, IsValid, to_valid_utf8-IsValid, IsValid-tail, IsValid-width,
  map-IsValid, width-cut,
}
pub use Cut.{truncate-head}
