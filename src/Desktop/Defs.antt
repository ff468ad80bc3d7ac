-- ===== src/Desktop/Defs.antt =====
-- The targets, credentials and options of rdp.go and vnc.go, and the messages of a desktop.
use womprat.Base.{
  Bytes, codes, ℕ, suc, ℤ, pos, negsuc, Bool, true, false, not, ◌&&◌, ◌||◌, Option, none, some,
  List, [], ◌∷◌, ◌++◌, ◌==◌, ◌!=◌, bytes_eq, int_eq, any, ltb, leb_ℤ, ltb_ℤ, length, if◌then◌else◌,
  Result, ok, err,
}
use womprat.Platform.{Platform}
use womprat.Text.Space.{trim_space}
use womprat.Text.Search.{contains}
use womprat.Text.Decimal.{atoi, decimal}
use womprat.CustomUrl.{CustomUrlTarget, parse_custom_url}

-- an address without a scheme gets one
abbrev with_scheme : Bytes → Bytes → Bytes
with_scheme scheme text =
    if text != [] && not (contains text (codes "://")) then scheme ++ codes "://" ++ text else text

module _ (p : Platform) where
  unfoldable pub parse_desktop_url : Bytes → Bytes → Option CustomUrlTarget
  parse_desktop_url scheme raw = elim (parse_custom_url p (with_scheme scheme (trim_space raw))) [
    | err _ ↦ none
    | ok target ↦ if target.scheme != scheme then none else some target
  ]

  unfoldable pub parse_rdp_url : Bytes → Option CustomUrlTarget
  unfolding parse_desktop_url
  parse_rdp_url raw = parse_desktop_url (codes "rdp") raw

  pub parse_vnc_url : Bytes → Option CustomUrlTarget
  unfolding parse_desktop_url
  parse_vnc_url raw = parse_desktop_url (codes "vnc") raw

  unfoldable pub rdp_credential_host_matches : Bytes → CustomUrlTarget → Bool
  rdp_credential_host_matches raw target =
      let text = trim_space raw in
      let full = if not (contains text (codes "://")) then codes "rdp://" ++ text else text in
      if text == [] then true else elim (parse_rdp_url full) [
        | none ↦ false
        | some parsed ↦ p.equal_fold parsed.host target.host && parsed.port == target.port
      ]

  abbrev pub is_one_of : Bytes → List Bytes → Bool
  is_one_of raw names = any (λ name. p.to_lower (trim_space raw) == name) names

  pub rdp_query_enabled : Bytes → Bool
  rdp_query_enabled raw =
      is_one_of raw (codes "1" ∷ codes "true" ∷ codes "yes" ∷ codes "on" ∷ codes "force" ∷ [])

  pub rdp_query_disabled : Bytes → Bool
  rdp_query_disabled raw = is_one_of raw (
      codes "0"
      ∷ codes "false"
      ∷ codes "no"
      ∷ codes "off"
      ∷ codes "disable"
      ∷ codes "disabled"
      ∷ [])

unfoldable pub clamp_rdp_dim : Bytes → ℤ → ℤ
clamp_rdp_dim raw fallback = elim (atoi raw) [
  | none ↦ fallback
  | some v ↦ if leb_ℤ v (pos 0) || ltb_ℤ (pos 8192) v then fallback else v
]

abbrev pub color_depths : List ℤ
color_depths = pos 8 ∷ pos 15 ∷ pos 16 ∷ pos 24 ∷ pos 32 ∷ []

unfoldable pub parse_rdp_color_depth : Bytes → ℤ → ℤ
parse_rdp_color_depth raw fallback = elim (atoi raw) [
  | none ↦ fallback
  | some depth ↦ if any (λ d. depth == d) color_depths then depth else fallback
]

pub record RdpCredentials : Type 0 where
  pub kind : Bytes
  pub host : Bytes
  pub user : Bytes
  pub password : Bytes

-- the query of a request for a desktop
pub record RdpQuery : Type 0 where
  pub target : Bytes
  pub width : Bytes
  pub height : Bytes
  pub color_depth : Bytes
  pub audio : Bytes
  pub disable_nla : Bytes
  pub rfx : Bytes
  pub compat : Bytes
  pub display_control : Bytes

-- what the client of go-rdp is made with
pub record RdpOptions : Type 0 where
  pub host : Bytes
  pub port : ℤ
  pub user : Bytes
  pub password : Bytes
  pub width : ℤ
  pub height : ℤ
  pub color_depth : ℤ
  pub audio : Bool
  pub nla : Bool
  pub rfx : Bool
  pub display_control : Bool

pub data RdpRefusal : Type 0 where
  invalid_target not_connected too_large expected_credentials foreign_host invalid_credentials :
      RdpRefusal

module _ (p : Platform) where
  -- `handleRDPWebSocket` up to the web socket, and `handleVNCWebSocket`
  unfoldable pub desktop_target :
      (Bytes → Option CustomUrlTarget) → Bool → Bytes → Result RdpRefusal CustomUrlTarget
  desktop_target parse reachable raw = elim (parse raw) [
    | none ↦ err invalid_target
    | some target ↦ if not reachable then err not_connected else ok target
  ]

  unfoldable pub rdp_options : RdpQuery → CustomUrlTarget → Bytes → Bytes → RdpOptions
  rdp_options query target user password = record {
    host = target.host;
    port = target.port;
    user = user;
    password = password;
    width = clamp_rdp_dim query.width (pos 1280);
    height = clamp_rdp_dim query.height (pos 720);
    color_depth = parse_rdp_color_depth query.color_depth (pos 16);
    audio = query.audio == codes "force";
    nla = query.disable_nla != codes "true";
    rfx = not (rdp_query_disabled p query.rfx) && not (rdp_query_enabled p query.compat);
    display_control = rdp_query_enabled p query.display_control;
  }

  -- the first message, of so many bytes, which `json.Unmarshal` reads
  unfoldable pub rdp_credentials :
      RdpQuery → CustomUrlTarget → ℕ → Option RdpCredentials → Result RdpRefusal RdpOptions
  rdp_credentials query target size none =
      err (if ltb 1048576 size then too_large else expected_credentials)
  rdp_credentials query target size (some creds) =
      let user = trim_space (if creds.user == [] then target.user else creds.user) in
      if ltb 1048576 size
      then err too_large
      else if creds.kind != codes "credentials"
      then err expected_credentials
      else if not (rdp_credential_host_matches p creds.host target)
      then err foreign_host
      else if user == [] || ltb 256 (length user) || ltb 1024 (length creds.password)
      then err invalid_credentials
      else ok (rdp_options query target user creds.password)

  -- `handleRDPWebSocket`, up to the client of go-rdp
  unfoldable pub handle_rdp_web_socket :
      RdpQuery → Bool → ℕ → Option RdpCredentials → Result RdpRefusal RdpOptions
  handle_rdp_web_socket query reachable size creds =
      elim (desktop_target (parse_rdp_url p) reachable query.target) [
        | err e ↦ err e
        | ok target ↦ rdp_credentials query target size creds
      ]

-- strconv.Itoa
abbrev itoa : ℤ → Bytes
itoa (pos m) = decimal m
itoa (negsuc m) = b'-' ∷ decimal (suc m)

pub data DesktopAct : Type 0 where
  request_resize : ℤ → ℤ → DesktopAct
  send_input : Bytes → DesktopAct
  ignore_message : DesktopAct

-- A message of `rdpWsToClient`: a text with its kind, width and height, if it reads so, or input.
pub rdp_message : Bool → Bool → Option (Bytes × (ℤ × ℤ)) → Bytes → DesktopAct
rdp_message ready false request bytes = send_input bytes
rdp_message ready true none bytes = ignore_message
rdp_message ready true (some (kind, (raw_width, raw_height))) bytes =
    let width = clamp_rdp_dim (itoa raw_width) (pos 0) in
    let height = clamp_rdp_dim (itoa raw_height) (pos 0) in
    if kind != codes "resize"
    then ignore_message
    else if ready && ltb_ℤ (pos 0) width && ltb_ℤ (pos 0) height
    then request_resize width height
    else ignore_message
