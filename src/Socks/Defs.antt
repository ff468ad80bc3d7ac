-- ===== src/Socks/Defs.antt =====
-- `handleSOCKS5WithDial` and the functions that it calls. Of a connection the bytes that it will
-- deliver are given, and what is done with it is a list of acts (newest first).
use womprat.Base.{
  Bytes, codes, ℕ, ◌+◌, ◌*◌, Bool, not, ◌||◌, Option, none, some, List, [], ◌∷◌, ◌==◌, ◌!=◌, nat_eq,
  bytes_eq, any, take, drop, length, ltb, if◌then◌else◌,
}
use womprat.Platform.{Platform}
use womprat.Text.Search.{contains, contains_any}
use womprat.Text.Space.{trim_space}
use womprat.Text.Decimal.{decimal}
use womprat.Tailnet.{join_host_port}

pub data Act : Type 0 where
  wrote dialed : Bytes → Act
  relayed : Act

-- What is around a connection: whether a write succeeds, whether there is a node to dial with (the
-- test bypass is off), the error text of a dial, and `net.IP.String`.
pub record Proxy : Type 0 where
  pub writes : List Act → Bytes → Bool
  pub has_node : Bool
  pub dial : List Act → Bytes → Option Bytes
  pub ip_string : Bytes → Bytes

pub socks_methods_contain : Bytes → ℕ → Bool
socks_methods_contain methods method = any (λ m. m == method) methods

abbrev has_any : Bytes → List Bytes → Bool
has_any text words = any (λ word. contains text word) words

-- `socksReplyForDialError`, from the lower-cased text of the error
pub socks_reply_for_dial_error : Bytes → ℕ
socks_reply_for_dial_error msg =
    if contains msg (codes "no such host")
      || contains msg (codes "name resolution")
      || contains msg (codes "server misbehaving")
      || contains msg (codes "no address")
    then 4
    else if contains msg (codes "connection refused")
    then 5
    else if contains msg (codes "network is unreachable") || contains msg (codes "no route to host")
    then 3
    else if contains msg (codes "timeout")
        || contains msg (codes "deadline exceeded")
        || contains msg (codes "i/o timeout")
    then 4
    else 1

abbrev pub reply : ℕ → Bytes
reply rep = 5 ∷ rep ∷ 0 ∷ 1 ∷ 0 ∷ 0 ∷ 0 ∷ 0 ∷ 0 ∷ 0 ∷ []

-- io.ReadFull: the bytes read and those left
pub read_full : ℕ → Bytes → Option (Bytes × Bytes)
read_full n input = if ltb (length input) n then none else some (take n input, drop n input)

-- binary.BigEndian.Uint16
abbrev pub uint_16 : Bytes → ℕ
uint_16 (hi ∷ lo ∷ _) = 256 * hi + lo
uint_16 _ = 0

module _ (p : Platform) (proxy : Proxy) where
  unfoldable pub validate_socks_target : Bytes → ℕ → Option (Bytes × ℕ)
  validate_socks_target raw port =
      let host = trim_space raw in
      if host == [] || port == 0 then none else elim (p.parse_ip host) [
        | some text ↦ some (text, port)
        | none ↦
            if ltb 253 (length host) || contains_any host (codes " /?#\\@%")
            then none
            else some (host, port)
      ]

  -- an address of `n` bytes, and the port behind it
  unfoldable pub read_ip : ℕ → Bytes → Option (Bytes × ℕ)
  read_ip n input = elim (read_full (n + 2) input) [
    | none ↦ none
    | some r ↦ validate_socks_target (proxy.ip_string (take n r.0)) (uint_16 (drop n r.0))
  ]

  unfoldable pub read_domain : Bytes → Option (Bytes × ℕ)
  read_domain [] = none
  read_domain (l ∷ input) = if l == 0 then none else elim (read_full (l + 2) input) [
    | none ↦ none
    | some r ↦ validate_socks_target (take l r.0) (uint_16 (drop l r.0))
  ]

  unfoldable pub read_socks_addr : ℕ → Bytes → Option (Bytes × ℕ)
  read_socks_addr atyp input =
      if atyp == 1
      then read_ip 4 input
      else if atyp == 3
      then read_domain input
      else if atyp == 4
      then read_ip 16 input
      else none

  -- the dial, its reply, and the relay
  unfoldable pub connect : Bytes → List Act → List Act
  connect addr h = elim (proxy.dial h addr) [
    | some message ↦
        wrote (reply (socks_reply_for_dial_error (p.to_lower message))) ∷ dialed addr ∷ h
    | none ↦
        if proxy.writes (dialed addr ∷ h) (reply 0)
        then relayed ∷ wrote (reply 0) ∷ dialed addr ∷ h
        else wrote (reply 0) ∷ dialed addr ∷ h
  ]

  unfoldable pub request_target : Option (Bytes × ℕ) → List Act → List Act
  request_target none h = wrote (reply 8) ∷ h
  request_target (some (host, port)) h =
      if not proxy.has_node
      then wrote (reply 3) ∷ h
      else connect (join_host_port host (decimal port)) h

  unfoldable pub request : Bytes → List Act → List Act
  request (ver ∷ cmd ∷ rsv ∷ atyp ∷ input) h =
      if ver != 5
      then h
      else if cmd != 1
      then wrote (reply 7) ∷ h
      else request_target (read_socks_addr atyp input) h
  request _ h = h

  unfoldable pub greeting : Bytes → Bytes → List Act
  greeting methods input =
      if not (socks_methods_contain methods 0)
      then wrote (5 ∷ 255 ∷ []) ∷ []
      else if proxy.writes [] (5 ∷ 0 ∷ [])
      then request input (wrote (5 ∷ 0 ∷ []) ∷ [])
      else wrote (5 ∷ 0 ∷ []) ∷ []

  -- `handleSOCKS5WithDial`, by what the client sends
  unfoldable pub handle_socks_5 : Bytes → List Act
  handle_socks_5 (ver ∷ count ∷ input) =
      if ver != 5
      then []
      else elim (read_full count input) [ none ↦ [] | some r ↦ greeting r.0 r.1 ]
  handle_socks_5 _ = []
