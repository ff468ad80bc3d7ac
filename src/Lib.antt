-- ===== src/Lib.antt =====
-- Womprat: a client for a tailnet with tabs for pages, terminals and remote desktops, written in
-- Go (cmd/womprat). This library models the parts that decide: what is accepted, kept, let
-- through, dialled. Paths are from the repository's root.
--
-- Go strings are lists of bytes (`Bytes`), Go's int is ℤ or, where it cannot be negative, ℕ; the
-- counters that are modelled are bounded far below 2 ^ 63. What Go's libraries and other packages
-- do is a field of `Platform` (Platform.antt) or of `World` (Tailnet/Defs.antt), so that a theorem
-- holds whatever they answer; a property of them is a named hypothesis.
--
-- - Base.antt, Text.antt: tests, lists, maps and results; the functions of package strings, utf8,
--   strconv and path that the code uses, by clauses.
-- - CustomUrl.antt: cmd/womprat/custom_url.go and browser_url.go, `parseCustomURL` and
--   `normalizeBrowserURL` with their checks as small functions.
-- - Config.antt: cmd/womprat/config.go, browser_meta.go and address_history.go. `normalizeConfig`
--   and the sanitizers it calls, and the checks of `SaveConfig` before the file is written.
-- - Certificate.antt: cmd/womprat/certificate.go, each method of `certificateDecision` as a
--   function from a decision to the next; Certificate/Consent.antt runs them over a history.
-- - Download.antt: cmd/womprat/download_cookie.go (tickets, with the timer as an event) and
--   download.go (cookies of a target, names and free paths).
-- - Tailnet.antt: cmd/womprat/tailnet_dns.go, tailnet_dns_transport.go, tailnet_dns_client.go and
--   `dialTSNetPreferIPv4` of socks.go. An `Action` reads the trace of earlier calls and puts its
--   own in front, so that the answers of the network may depend on all that was done before.
-- - Tabs.antt: the tab operations of cmd/womprat/main.go. `Session` holds the fields of `App` that
--   they use, the settings file and a log of the calls to the shell and to the native views, which
--   `Env` answers; Tabs/Valid runs them in any order.
-- - ExitNode.antt: cmd/womprat/exit_node_preferences.go. The client of the node is a `Client` that
--   answers by the calls made so far; the number of timers before the context ends is an argument.
-- - Socks.antt: cmd/womprat/socks.go up to the relay: `handleSOCKS5WithDial` as a function from the
--   bytes that a client sends to the acts on its connection. The dialer is a field of `Proxy`.
-- - Server.antt: the local HTTP server and `App` behind it. Server/Http guards and paths
--   (cmd/womprat/http_method.go and main.go), Server/Credential and Server/Unlock the lock and the
--   keys (auth.go, config.go, settings_api.go), Server/Commit, Server/Settings, Server/Exit,
--   Server/Hosts and Server/Keys the handlers of settings_api.go, search_settings.go,
--   address_history.go, logging.go and browser_settings.go, Server/Node the embedded node (main.go,
--   exit_node_recovery.go). A handler is a function from a request and a `Server`, which holds the
--   `Session` of the tabs, to a response and the next `Server`; a `Backend` answers for files,
--   cryptography and the node.
-- - Ssh.antt: `hostKeyCallback`, `handleSSHConnect` and `handleSSHAuthPassword` of cmd/womprat/main.go
--   and ws_terminal.go. They act on a `Server`; the remote side is a `Remote`.
-- - Api.antt: the routes of registerRoutes (cmd/womprat/main.go), registerSettingsRoutes
--   (settings_api.go) and registerBrowserRoutes (browser_settings.go) to the handlers of Server, Ssh and
--   Handlers that act on the settings, the lock, the node or a shell, behind the two guards. Not among
--   its routes: those that only report, the downloads, which keep their own state in Download/Transfer,
--   the web sockets of shells and desktops, and the data of the web views.
-- - Desktop.antt: cmd/womprat/rdp.go and vnc.go up to the sessions of go-rdp.
-- - Address.antt: cmd/womprat/address_search.go, on top of CustomUrl.antt.
-- - Dns.antt: cmd/womprat/dns_local.go and dns_policy.go.
-- - Download/Transfer.antt: the rest of cmd/womprat/download.go and download_origin.go; the sections
--   of `handleDownload` under the lock are functions, which Download/Transfer/Single interleaves, and
--   `downloadToFile` is a function from an answer and the files to the files.
-- - Navigation.antt, Logs.antt: cmd/womprat/navigation_diagnostic.go and browser_nav.go, and the end
--   of the log of logging.go.
-- - Handlers.antt: the handlers of cmd/womprat/main.go, search_settings.go and download.go that only
--   report, and `handleResolveAddress`.
-- - Examples.antt: a small platform and a small tailnet, and each theorem with hypotheses applied.
--
-- All loops are structural recursion on a list or on a count that the source has itself (the 9999
-- candidates of `uniqueDownloadPath`, the 100 entries of the history), except that the waits of
-- `applyAndVerifyExitNode` are counted by an argument: the context ends after so many timers.
--
-- The rounds of the recovery of an exit node and the reads of a body are lists and finite trees, so that
-- their loops end with them.
--
-- Not modelled: the windows and web views, the decoding of JSON, encryption and the file system, the
-- streams of SSH, VNC and RDP sessions, the clearing of the data of the web views, the diagnostics
-- that run queries (third_party/go-rdp and internal/go-webview2 are other projects' libraries), timers
-- beyond the ticket's, and the locks, which make each call or section atomic.
pub mod Base
pub mod Platform
pub mod Text
pub mod Address
pub mod Api
pub mod Certificate
pub mod Config
pub mod CustomUrl
pub mod Desktop
pub mod Dns
pub mod Download
pub mod ExitNode
pub mod Handlers
pub mod Logs
pub mod Navigation
pub mod Server
pub mod Socks
pub mod Ssh
pub mod Tabs
pub mod Tailnet
pub mod Examples
