-- ===== src/Server.antt =====
-- The local HTTP server of cmd/womprat: who may call it, the settings handlers, the credentials,
-- and the embedded node that they start and stop.
mod Defs
mod Http
mod Credential
mod Node
mod Commit
mod Unlock
mod Settings
mod Exit
mod Hosts
mod Keys
mod Frame
pub mod Outcome
pub mod Settled
pub mod Granted
pub mod Stored
pub mod Recovery
pub mod Password
unfoldable pub use Defs.*
unfoldable pub use Http.*
unfoldable pub use Credential.*
unfoldable pub use Node.*
unfoldable pub use Commit.*
unfoldable pub use Unlock.*
unfoldable pub use Settings.*
unfoldable pub use Exit.*
unfoldable pub use Hosts.*
unfoldable pub use Keys.*
pub use Outcome.{posted-both}
