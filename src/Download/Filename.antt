-- ===== src/Download/Filename.antt =====
-- download.go: the name of a downloaded file, and a path for it that is free.
mod Defs
mod Trimmed
mod First
pub mod Safe
unfoldable pub use Defs.{sanitize_download_filename, unique_download_path, is_safe}
pub use Defs.{clean_name, avoid_reserved, numbered_path, filename_from_url}
