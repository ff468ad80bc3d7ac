-- ===== src/Download/Ticket.antt =====
-- download_cookie.go: one-time tickets that carry a tab's cookies to a managed download.
pub mod Use
use womprat.Base.{
  Bytes, ℕ, ◌+◌, ◌/◌, ◌%◌, Bool, not, Option, none, some, List, [], ◌∷◌, Result, ok, err, ltb, leb,
  length, ◌==◌, ◌!=◌, bytes_eq, nat_eq, if◌then◌else◌, lookup, insert, delete, prune,
}
use womprat.Download.Cookie.{Cookie, clone_cookies}

-- 30 * time.Second
abbrev pub download_ticket_lifetime : ℕ
download_ticket_lifetime = 30_000_000_000

abbrev pub max_download_tickets : ℕ
max_download_tickets = 64

pub record DownloadTicket : Type 0 where
  pub url : Bytes
  pub cookies : List (Option Cookie)
  pub expires : ℕ

-- the field `downloadTickets` of `App`; a nil map reads as the empty one
abbrev pub Tickets : Type 0
Tickets = List (Bytes × DownloadTicket)

pub data TicketError : Type 0 where
  no_random too_many expired_or_invalid url_mismatch : TicketError

hex_digit : ℕ → ℕ
hex_digit d = if ltb d 10 then d + b'0' else d + 87

-- hex.EncodeToString
unfoldable pub hex_encode : Bytes → Bytes
unfolding hex_digit
hex_encode [] = []
hex_encode (c ∷ cs) = hex_digit (c / 16) ∷ hex_digit (c % 16) ∷ hex_encode cs

abbrev pub issue_of : ℕ → Bytes → List (Option Cookie) → DownloadTicket
issue_of now target cookies = record {
  url = target;
  cookies = clone_cookies cookies;
  expires = now + download_ticket_lifetime;
}

-- `random` is what `rand.Read` filled in, `none` if it failed. The timer that the call starts is
-- an `expire_ticket` of the same ticket and time, later on.
unfoldable pub create_download_ticket :
    Option Bytes → ℕ → Bytes → List (Option Cookie) → Tickets → Result TicketError Bytes × Tickets
create_download_ticket none now target cookies tickets = (err no_random, tickets)
create_download_ticket (some raw) now target cookies tickets =
    let ticket = hex_encode raw in
    let live = prune (λ t. not (ltb now t.expires)) tickets in
    if leb max_download_tickets (length live)
    then (err too_many, live)
    else (ok ticket, insert ticket (issue_of now target cookies) live)

-- the callback of `time.AfterFunc`
pub expire_ticket : Bytes → ℕ → Tickets → Tickets
expire_ticket ticket expires tickets = elim (lookup ticket tickets) [
  | none ↦ tickets
  | some t ↦ if t.expires == expires then delete ticket tickets else tickets
]

redeem : Option DownloadTicket → Bytes → ℕ → Result TicketError (List (Option Cookie))
redeem none target now = err expired_or_invalid
redeem (some t) target now =
    if not (ltb now t.expires)
    then err expired_or_invalid
    else if t.url != target
    then err url_mismatch
    else ok (clone_cookies t.cookies)

unfoldable pub consume_download_ticket :
    Bytes → Bytes → ℕ → Tickets → Result TicketError (List (Option Cookie)) × Tickets
unfolding redeem
consume_download_ticket ticket target now tickets =
    if ticket == []
    then (ok [], tickets)
    else (redeem (lookup ticket tickets) target now, delete ticket tickets)
