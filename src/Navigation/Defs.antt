-- ===== src/Navigation/Defs.antt =====
-- The target that is shown for a navigation, and the messages of one that failed. The dash of three
-- of the texts is the sequence of its bytes.
use womprat.Base.{
  Bytes, codes, ℕ, Bool, not, ◌&&◌, ◌||◌, none, some, List, [], ◌∷◌, ◌++◌, ◌==◌, ◌!=◌, bytes_eq,
  nat_eq, all, any, leb, ltb, length, if◌then◌else◌,
}
use womprat.Platform.{Platform}
use womprat.Text.Space.{trim_space}
use womprat.Text.Search.{has_prefix, trim_prefix}
use womprat.Text.Host.{hostname}
use womprat.Text.Decimal.{decimal}

unfoldable pub navigation_target : Platform → Bytes → Bytes
navigation_target p raw = elim (p.parse_url raw) [
  | none ↦ []
  | some u ↦
      if hostname u.host == [] || u.scheme != codes "https" && u.scheme != codes "http"
      then []
      else p.url_string
          (record u { fragment = []; path = if u.path == [] then codes "/" else u.path })
]

-- A byte of a symbol of Chromium.
abbrev pub is_symbol_byte : ℕ → Bool
is_symbol_byte c = c == b'_' || leb b'A' c && leb c b'Z' || leb b'0' c && leb c b'9'

abbrev pub explained : List (List Bytes × Bytes)
explained =
    (
      codes "ERR_SSL_PROTOCOL_ERROR" ∷ [],
      codes
          "TLS handshake failed. The HTTPS service may be using an incompatible protocol or serving plain HTTP on this port.",
    )
    ∷ (
      codes "ERR_SSL_VERSION_OR_CIPHER_MISMATCH" ∷ [],
      codes "The server and browser could not agree on a TLS version or cipher.",
    )
    ∷ (
      codes "ERR_SSL_CLIENT_AUTH_CERT_NEEDED" ∷ codes "ERR_BAD_SSL_CLIENT_AUTH_CERT" ∷ [],
      codes "The server requires a usable client certificate.",
    )
    ∷ (codes "ERR_CERT_AUTHORITY_INVALID" ∷ [], codes "The certificate issuer is not trusted.")
    ∷ (
      codes "ERR_CERT_COMMON_NAME_INVALID" ∷ [],
      codes "The certificate does not match this hostname.",
    )
    ∷ (codes "ERR_CERT_DATE_INVALID" ∷ [], codes "The certificate is expired or not yet valid.")
    ∷ (codes "ERR_CERT_REVOKED" ∷ [], codes "The server certificate has been revoked.")
    ∷ (
      codes "ERR_CONNECTION_CLOSED" ∷ [],
      codes "The server closed the connection before the page loaded.",
    )
    ∷ (codes "ERR_CONNECTION_RESET" ∷ [], codes "The connection was reset before the page loaded.")
    ∷ (codes "ERR_INVALID_RESPONSE" ∷ [], codes "The server did not send a valid HTTP response.")
    ∷ (
      codes "ERR_SOCKS_CONNECTION_FAILED" ∷ codes "ERR_PROXY_CONNECTION_FAILED" ∷ [],
      codes "The browser proxy could not establish the connection.",
    )
    ∷ (
      codes "ERR_TUNNEL_CONNECTION_FAILED" ∷ [],
      codes "The proxy tunnel could not be established.",
    )
    ∷ (codes "ERR_BLOCKED_BY_RESPONSE" ∷ [], codes "The browser blocked the server response.")
    ∷ []

-- the `switch` over the symbols
unfoldable pub explanation : List (List Bytes × Bytes) → Bytes → Bytes
explanation [] code = codes "Chromium could not complete the navigation."
explanation ((names, text) ∷ rows) code =
    let rest = explanation rows code in if any (λ name. name == code) names then text else rest

abbrev pub symbol_of : Bytes → Bytes
symbol_of raw = trim_prefix (trim_space raw) (codes "net::")

abbrev pub is_symbol : Bytes → Bool
is_symbol code =
    has_prefix code (codes "ERR_") && not (ltb 96 (length code)) && all is_symbol_byte code

unfoldable pub chromium_navigation_message : Bytes → Bytes
chromium_navigation_message raw =
    let code = symbol_of raw in
    if is_symbol code then explanation explained code ++ codes " (" ++ code ++ codes ")" else []

abbrev by_connection : Bool → Bytes → Bytes → Bytes
by_connection connected without with_it = if not connected then without else with_it

abbrev dash : Bytes
dash = 0xe2 ∷ 0x80 ∷ 0x94 ∷ []

-- The status is a constant of WebView2, 0 to 18; every other one reads as unknown.
unfoldable pub web_error_status_message : ℕ → Bool → Bytes
web_error_status_message status connected =
    if status == 13
    then by_connection connected
        (codes "Couldn't resolve host. Tailscale is not connected "
          ++ dash
          ++ codes " open Settings to connect.")
        (codes "Couldn't resolve host name. Check the address or MagicDNS/exit-node routing.")
    else if status == 6 || status == 12
    then by_connection connected
        (codes "Host unreachable. Tailscale is not connected "
          ++ dash
          ++ codes " open Settings to connect.")
        (codes
          "Host unreachable. It may be offline, or an exit node is required for non-tailnet sites.")
    else if status == 10 || status == 9 || status == 11
    then codes "Connection dropped before the page finished loading. Try reloading."
    else if status == 7
    then by_connection connected
        (codes "Connection timed out. Tailscale is not connected "
          ++ dash
          ++ codes " open Settings to connect.")
        (codes "Connection timed out. The host may be slow or unreachable over the tailnet.")
    else if status == 1 || status == 2 || status == 4 || status == 5 || status == 3
    then codes "The site's TLS certificate could not be validated."
    else if status == 8 || status == 15
    then codes "The server sent an invalid or broken response."
    else if status == 17
    then codes "Authentication is required to view this page."
    else if status == 18
    then codes "Proxy authentication is required."
    else if status == 14
    then codes "Navigation was canceled."
    else by_connection connected
        (codes "Page failed to load. Tailscale is not connected "
          ++ dash
          ++ codes " open Settings to connect.")
        (codes "Page failed to load.")

abbrev note_of : Bytes → Bytes → Bytes
note_of label e = if e != [] then label ++ e ++ codes "." else []

unfoldable pub navigation_failure_message : ℕ → Bool → Bytes → Bytes → Bytes → Bytes → Bytes
navigation_failure_message status connected getter_error chromium_error certificate_error
      diagnostic_error =
    let named = chromium_navigation_message chromium_error in
    let message =
      if named == []
      then web_error_status_message status connected
        ++ codes " (WebView2 error "
        ++ decimal status
        ++ codes ")"
      else named in
    message
    ++ note_of (codes " Native error details unavailable: ") getter_error
    ++ note_of (codes " Certificate exception unavailable: ") certificate_error
    ++ (if named == []
        then note_of (codes " Chromium diagnostics unavailable: ") diagnostic_error
        else [])
