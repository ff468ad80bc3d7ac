-- ===== src/Api.antt =====
-- The routes of the local HTTP server behind its guards, over the handlers of the server, of the
-- secure shells and of the address bar.
mod Routes
pub mod Guarded
pub mod Admitted
unfoldable pub use Routes.*
