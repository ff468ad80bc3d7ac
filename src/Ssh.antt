-- ===== src/Ssh.antt =====
-- Secure shells: the host keys that are trusted, the handlers that connect and that ask for a
-- password, and the sizes of terminals.
pub mod Size
mod Keys
mod Connect
pub mod Pinned
pub mod Trusted
pub mod Stored
unfoldable pub use Size.*
unfoldable pub use Keys.*
unfoldable pub use Connect.*
