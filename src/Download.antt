-- ===== src/Download.antt =====
-- download.go, download_cookie.go and download_origin.go: managed downloads.
pub mod Cookie
pub mod Filename
pub mod Ticket
pub mod Transfer
