-- ===== src/Tailnet.antt =====
-- tailnet_dns.go, tailnet_dns_transport.go, tailnet_dns_client.go and the dialer of socks.go: names
-- are resolved and connections are opened through the embedded Tailscale node only.
mod Defs
mod Query
mod Dial
pub mod Fenced
pub mod Dialed
unfoldable pub use Defs.*
unfoldable pub use Query.*
unfoldable pub use Dial.*
