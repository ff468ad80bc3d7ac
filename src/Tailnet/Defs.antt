-- ===== src/Tailnet/Defs.antt =====
-- The calls that reach the network, as a trace (newest first), and the world that answers them.
use womprat.Base.{
  Bytes, codes, ℕ, Bool, ◌||◌, Option, none, some, List, [], ◌∷◌, ◌++◌, ◌==◌, nat_eq, bytes_eq, leb,
  true, false, not, if◌then◌else◌, Result, ok, err,
}
use womprat.Platform.{Addr, Url}
use womprat.Text.Search.{contains}
use womprat.Text.Decimal.{decimal, digits_value}

pub data Network : Type 0 where
  tcp tcp4 tcp6 : Network

-- A record type of DNS.
pub data RecordType : Type 0 where
  type_a type_aaaa : RecordType

-- One call: a route check and whether it passed, or a connection opened by the embedded stack.
pub data Event : Type 0 where
  routed : Addr → Bool → Event
  opened : Network → Bytes → Event

abbrev pub Trace : Type 0
Trace = List Event

-- netip.AddrPort
pub record AddrPort : Type 0 where
  pub addr : Addr
  pub port : ℕ

-- dnstype.Resolver: its address, and what its method `IPPort` makes of it
pub record Resolver : Type 0 where
  pub addr : Bytes
  pub ip_port : Option AddrPort

pub record HttpReply : Type 0 where
  pub status : ℕ
  pub content_type : Bytes
  pub body : Bytes

pub record Question : Type 0 where
  pub name : Bytes
  pub kind : RecordType

-- dnsmessage.Message, as far as a reply is compared with its query
pub record DnsMessage : Type 0 where
  pub response : Bool
  pub id : ℕ
  pub questions : List Question

-- the string that names a record type
unfoldable pub record_type : Bytes → Option RecordType
record_type record_name =
    if record_name == codes "A"
    then some type_a
    else if record_name == codes "AAAA"
    then some type_aaaa
    else none

abbrev pub same_type : RecordType → RecordType → Bool
same_type type_a type_a = true
same_type type_aaaa type_aaaa = true
same_type _ _ = false

-- The answers that `Parser.Answer` gives one by one.
pub data Answers : Type 0 where
  done : Answers
  broken : ℕ → Answers
  a_record : Addr → Answers → Answers
  aaaa_record : Addr → Answers → Answers
  other_record : Answers → Answers

-- the state of `Parser` after `Start`: the header, whether the questions can be skipped, the answers
pub record Parsed : Type 0 where
  pub response : Bool
  pub success : Bool
  pub skips : Result ℕ (Unit {0})
  pub answers : Answers

-- What is outside the program. An answer may depend on all that was called before; errors of
-- these calls are numbers.
pub record World : Type 0 where
  -- ctx.Err() != nil
  pub cancelled : Trace → Bool
  -- the netmap's answer: an error, no such name, or a packet
  pub local_answer : Trace → Bytes → Bytes → Result ℕ (Option Bytes)
  -- the suffix routes of the embedded DNS manager
  pub upstreams : Trace → Bytes → Result ℕ (List (Option Resolver))
  -- the node's own addresses (`none` for an invalid one), and `UseNetstackForIP`
  pub self_4 : Trace → Option Addr
  pub self_6 : Trace → Option Addr
  pub uses_netstack : Trace → Addr → Bool
  -- DialContextTCPWithBind of the embedded stack: source and target
  pub stack_dial : Trace → Addr → AddrPort → Result ℕ ℕ
  -- dnsmessage: whether `NewName` takes the text, a question as bytes, a reply, a parser
  pub new_name : Bytes → Bool
  pub build_question : Bytes → RecordType → Result ℕ Bytes
  pub unpack : Bytes → Result ℕ DnsMessage
  pub parse_answers : Bytes → Result ℕ Parsed
  -- http.NewRequest, and the exchange of one query over an open connection, by TCP or HTTP
  pub new_request : Url → Bool
  pub exchange_tcp : Trace → Bytes → Result ℕ Bytes
  pub exchange_http : Trace → Bytes → Result ℕ HttpReply
  -- netip.ParseAddrPort, net.SplitHostPort
  pub parse_addr_port : Bytes → Option AddrPort
  pub split_host_port : Bytes → Option (Bytes × Bytes)

-- The errors of the three files, with the number of the call's own error where they wrap one.
pub data NetError : Type 0 where
  invalid_name unsupported_type bad_request no_upstream nil_resolver no_transport bad_doh_host
        bad_doh_port :
      NetError
  no_route no_source : NetError
  build_failed dial_failed exchange_failed unpack_failed http_status : ℕ → NetError
  content_type mismatch : NetError
  local_failed upstreams_failed : ℕ → NetError
  bad_address not_resolved empty_host invalid_port cancelled_by_context no_address : NetError
  bad_response bad_answers : NetError
  not_connected : NetError
  joined : NetError → NetError → NetError

-- An action: it reads the trace, and returns it with its own calls in front.
abbrev pub Action : Type 0 → Type 0
Action A = Trace → Result NetError A × Trace

-- net.JoinHostPort
unfoldable pub join_host_port : Bytes → Bytes → Bytes
join_host_port host port =
    if contains host (codes ":") then b'[' ∷ host ++ b']' ∷ b':' ∷ port else host ++ b':' ∷ port

-- (netip.AddrPort).String
unfoldable pub addr_port_string : AddrPort → Bytes
unfolding join_host_port
addr_port_string t = join_host_port t.addr.text (decimal t.port)

-- strconv.ParseUint(text, 10, 16)
unfoldable pub parse_uint_16 : Bytes → Option ℕ
unfolding digits_value
parse_uint_16 [] = none
parse_uint_16 (c ∷ s) = elim (digits_value 0 (c ∷ s)) [
  | none ↦ none
  | some n ↦ if leb n 65535 then some n else none
]

-- `==` of addresses, where one may be invalid
abbrev is_self : Option Addr → Addr → Bool
is_self none ip = false
is_self (some self) ip = ip.text == self.text

-- A remote Tailscale route: not the node itself, and the embedded stack takes the address.
unfoldable pub is_routable : World → Trace → Addr → Bool
is_routable w h ip =
    not (is_self (w.self_4 h) ip || is_self (w.self_6 h) ip || not (w.uses_netstack h ip))

-- the closure `route` of `resolverForTSNet`
unfoldable pub check_route : World → Addr → Action (Unit {0})
check_route w ip h =
    if is_routable w h ip then (ok tt, routed ip true ∷ h) else (err no_route, routed ip false ∷ h)

abbrev wrap_dial : Result ℕ ℕ → Result NetError ℕ
wrap_dial (ok conn) = ok conn
wrap_dial (err e) = err (dial_failed e)

-- the source address of a connection
abbrev pub source_for : World → Trace → Addr → Option Addr
source_for w h ip = if ip.is_6 then w.self_6 h else w.self_4 h

unfoldable pub stack_connect : World → Network → Bytes → AddrPort → Action ℕ
stack_connect w network address target h =
    if not (is_routable w h target.addr)
    then (err no_route, h)
    else elim (source_for w h target.addr) [
      | none ↦ (err no_source, h)
      | some source ↦ (wrap_dial (w.stack_dial h source target), opened network address ∷ h)
    ]

-- the closure `dial` of `resolverForTSNet`
unfoldable pub open_connection : World → Network → Bytes → Action ℕ
unfolding stack_connect
open_connection w network address h = elim (w.parse_addr_port address) [
  | none ↦ (err bad_address, h)
  | some target ↦ stack_connect w network address target h
]

infixl 5 ◌>>=◌ ◌>>◌
abbrev pub continue : {A B : Type 0} → Result NetError A → (A → Action B) → Action B
continue (ok a) f h = f a h
continue (err e) f h = (err e, h)

unfoldable pub ◌>>=◌ : {A B : Type 0} → Action A → (A → Action B) → Action B
◌>>=◌ m f h = let (r, h') = m h in continue r f h'

abbrev pub ◌>>◌ : {A B : Type 0} → Action A → Action B → Action B
m >> k = m >>= λ _. k

unfoldable pub lift : {A : Type 0} → Result NetError A → Action A
lift r h = (r, h)

-- The same, with the error of a call wrapped.
abbrev pub wrap : {A : Type 0} → (ℕ → NetError) → Result ℕ A → Result NetError A
wrap f (ok a) = ok a
wrap f (err e) = err (f e)
