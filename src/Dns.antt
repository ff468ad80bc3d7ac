-- ===== src/Dns.antt =====
-- Names of the tailnet: which are answered at once, and which resolver is told of.
mod Defs
pub mod Answered
pub mod Longest
unfoldable pub use Defs.*
