-- ===== src/Download/Ticket/Use.antt =====
-- What a redeemed ticket was issued for, against the history of the tickets (newest event first).
use womprat.Base.{
  Bytes, ℕ, ◌+◌, ◌≤◌, ◌<◌, not, Option, none, some, List, [], ◌∷◌, ok, err, ltb, length, lookup,
  insert, delete, prune, ◌≡◌, ◌≢◌, refl, arith, eqb_refl, eqb_iff, All, All-delete, All-prune,
  All-insert, All-imp, All-lookup, lookup-delete, lookup-insert, length-delete, length-prune,
  length-insert, nat_eq, ◌⊎◌, inl, inr, sym, ◌∙◌, ap, subst,
}
use womprat.Download.Cookie.{Cookie, clone_cookies, clone_cookies_idem}
use womprat.Download.Ticket.{
  DownloadTicket, Tickets, issue_of, too_many, expired_or_invalid, hex_encode,
  create_download_ticket, expire_ticket, consume_download_ticket, redeem, download_ticket_lifetime,
  max_download_tickets,
}

-- One call on the tickets, or one timer that fires.
pub data Event : Type 0 where
  create : Option Bytes → ℕ → Bytes → List (Option Cookie) → Event
  expire : Bytes → ℕ → Event
  consume : Bytes → Bytes → ℕ → Event

unfoldable pub step : Tickets → Event → Tickets
step ts (create random now target cookies) = (create_download_ticket random now target cookies ts).1
step ts (expire ticket expires) = expire_ticket ticket expires ts
step ts (consume ticket target now) = (consume_download_ticket ticket target now ts).1

-- The tickets after a history.
unfoldable pub after : List Event → Tickets
after [] = []
after (e ∷ h) = step (after h) e

-- The event presents no ticket (an empty one counts as none), or another one.
abbrev pub NotConsumed : Bytes → Event → Type 0
NotConsumed ticket (consume t target now) = (t ≡ []) ⊎ (t ≢ ticket)
NotConsumed ticket _ = Unit

-- The ticket was issued for `target` and `cookies`, and nobody has presented it since.
pub data Issued (ticket target : Bytes) (cookies : List (Option Cookie)) (expires : ℕ)
    : List Event → Type 0 where
  issue :
      {raw : Bytes} {now : ℕ} {h : List Event}
      → hex_encode raw ≡ ticket
      → expires ≡ now + download_ticket_lifetime
      → Issued ticket target cookies expires (create (some raw) now target cookies ∷ h)
  wait :
      {e : Event} {h : List Event}
      → NotConsumed ticket e
      → Issued ticket target cookies expires h
      → Issued ticket target cookies expires (e ∷ h)

-- An entry is known: it was issued with these cookies.
abbrev Known : List Event → Bytes × DownloadTicket → Type 0
Known h (k, t) =
    (cookies : List (Option Cookie)) × (clone_cookies cookies ≡ t.cookies)
    × Issued k t.url cookies t.expires h

Known-wait :
    (h : List Event) (e : Event) (entry : Bytes × DownloadTicket)
    → NotConsumed entry.0 e
    → Known h entry
    → Known (e ∷ h) entry
Known-wait h e (k, t) w (cookies, same, i) = (cookies, same, wait w i)

All-Known_wait :
    (h : List Event) (e : Event) (ts : Tickets)
    → ((k : Bytes) → NotConsumed k e)
    → All (Known h) ts
    → All (Known (e ∷ h)) ts
All-Known_wait h e ts w = All-imp (Known h) _ ts (λ entry. Known-wait h e entry (w entry.0))

-- Each operation's new tickets, case by case.
create-cases :
    (raw : Bytes) (now : ℕ) (target : Bytes) (cookies : List (Option Cookie)) (ts : Tickets)
    → let live : Tickets = prune (λ t. not (ltb now t.expires)) ts in
      let made = create_download_ticket (some raw) now target cookies ts in
      ((made.1 ≡ live) × (made.0 ≡ err too_many))
      ⊎ ((made.1 ≡ insert (hex_encode raw) (issue_of now target cookies) live)
          × (made.0 ≡ ok (hex_encode raw)))
unfolding create_download_ticket
create-cases raw now target cookies ts = ground arith

expire-cases :
    (ticket : Bytes) (expires : ℕ) (ts : Tickets)
    → (expire_ticket ticket expires ts ≡ ts) ⊎ (expire_ticket ticket expires ts ≡ delete ticket ts)
unfolding expire_ticket
expire-cases ticket expires ts = ground arith

consume-cases :
    (ticket target : Bytes) (now : ℕ) (ts : Tickets)
    → let used = consume_download_ticket ticket target now ts in
      ((ticket ≡ []) × (used.1 ≡ ts))
      ⊎ ((used.1 ≡ delete ticket ts) × (used.0 ≡ redeem (lookup ticket ts) target now))
unfolding consume_download_ticket
consume-cases ticket target now ts = ground (arith, eqb_iff ticket [])

step-Known :
    (h : List Event) (ts : Tickets) (e : Event) → All (Known h) ts → All (Known (e ∷ h)) (step ts e)
unfolding step
step-Known h ts (create none now target cookies) k =
    unfold create_download_ticket in
    All-Known_wait h (create none now target cookies) ts (λ _. tt) k
step-Known h ts (create (some raw) now target cookies) k =
    let e = create (some raw) now target cookies in
    let live : Tickets = prune (λ t. not (ltb now t.expires)) ts in
    let kept : All (Known (e ∷ h)) live =
      All-Known_wait h e live (λ _. tt) (All-prune (Known h) _ ts k) in
    elim (create-cases raw now target cookies ts) [
      | inl (same, _) ↦ subst (All (Known (e ∷ h))) (sym same) kept
      | inr (more, _) ↦
          subst (All (Known (e ∷ h))) (sym more)
            (All-insert (Known (e ∷ h)) _ _ live (cookies, refl, issue refl refl) kept)
    ]
step-Known h ts (expire ticket expires) k =
    let e = expire ticket expires in
    elim (expire-cases ticket expires ts) [
      | inl same ↦ subst (All (Known (e ∷ h))) (sym same) (All-Known_wait h e ts (λ _. tt) k)
      | inr gone ↦ subst (All (Known (e ∷ h))) (sym gone) (
          All-Known_wait h e (delete ticket ts) (λ _. tt)
            (All-imp _ (Known h) (delete ticket ts) (λ _ known. known.0)
              (All-delete (Known h) ticket ts k)))
    ]
step-Known h ts (consume ticket target now) k =
    let e = consume ticket target now in
    elim (consume-cases ticket target now ts) [
      | inl (empty, same) ↦
          subst (All (Known (e ∷ h))) (sym same) (All-Known_wait h e ts (λ _. inl empty) k)
      | inr (gone, _) ↦ subst (All (Known (e ∷ h))) (sym gone) (
          All-imp _ (Known (e ∷ h)) (delete ticket ts)
            (λ entry known. Known-wait h e entry (inr known.1) known.0)
            (All-delete (Known h) ticket ts k))
    ]

after-Known : (h : List Event) → All (Known h) (after h)
unfolding after
after-Known [] = tt
after-Known (e ∷ h) = step-Known h (after h) e (after-Known h)

-- What the cookies of a redeemed ticket come from.
pub record Redeems (h : List Event) (ticket target : Bytes) (now : ℕ) (out : List (Option Cookie))
    : Type 0 where
  pub cookies : List (Option Cookie)
  pub expires : ℕ
  pub issued : Issued ticket target cookies expires h
  pub in_time : now < expires
  pub copied : out ≡ clone_cookies cookies

redeem-eq-ok :
    (found : Option DownloadTicket) (target : Bytes) (now : ℕ) (out : List (Option Cookie))
    → redeem found target now ≡ ok out
    → (t : DownloadTicket) × (found ≡ some t)
      × (t.url ≡ target)
      × (now < t.expires)
      × (out ≡ clone_cookies t.cookies)
unfolding redeem
redeem-eq-ok none target now out h = cc
redeem-eq-ok (some t) target now out h =
    (t, refl, ground (arith, eqb_iff t.url target), ground arith, ground arith)

-- Whatever the history, a non-empty ticket is redeemed only for the URL and with the cookies that
-- it was issued with, before it expires, and only if nobody has presented it since it was issued.
pub consume-Redeems :
    (h : List Event) (ticket target : Bytes) (now : ℕ) (out : List (Option Cookie))
    → ticket ≢ []
    → (consume_download_ticket ticket target now (after h)).0 ≡ ok out
    → Redeems h ticket target now out
unfolding consume_download_ticket
consume-Redeems h ticket target now out ne e =
    let redeemed : redeem (lookup ticket (after h)) target now ≡ ok out =
      ground (arith, eqb_iff ticket []) in
    let (t, found, same, in_time, copied) =
      redeem-eq-ok (lookup ticket (after h)) target now out redeemed in
    let (cookies, cloned, issued) = All-lookup (Known h) ticket (after h) (after-Known h) found in
    record {
      cookies = cookies;
      expires = t.expires;
      issued = rw same at issued;
      in_time = in_time;
      copied = copied ∙ ap clone_cookies (sym cloned) ∙ clone_cookies_idem cookies;
    }

-- Never more than 64 tickets are pending.
step-le :
    (ts : Tickets) (e : Event)
    → length ts ≤ max_download_tickets
    → length (step ts e) ≤ max_download_tickets
unfolding step create_download_ticket expire_ticket consume_download_ticket
step-le ts (create none now target cookies) h = h
step-le ts (create (some raw) now target cookies) h =
    let live : Tickets = prune (λ t. not (ltb now t.expires)) ts in
    ground (
      arith,
      length-prune (λ t. not (ltb now t.expires)) ts,
      length-insert (hex_encode raw)
          (record {
            url = target;
            cookies = clone_cookies cookies;
            expires = now + download_ticket_lifetime;
          })
          live,
    )
step-le ts (expire ticket expires) h = ground (arith, length-delete ticket ts)
step-le ts (consume ticket target now) h = ground (arith, length-delete ticket ts)

-- After any history of calls and timers, at most 64 tickets are pending.
pub after-le_max : (h : List Event) → length (after h) ≤ max_download_tickets
unfolding after
after-le_max [] = omega arith
after-le_max (e ∷ h) = step-le (after h) e (after-le_max h)

redeem_fresh :
    (ticket target : Bytes) (cookies : List (Option Cookie)) (now later : ℕ) (ts : Tickets)
    → ticket ≢ []
    → lookup ticket ts ≡ some (issue_of now target cookies)
    → later < now + download_ticket_lifetime
    → (consume_download_ticket ticket target later ts).0 ≡ ok (clone_cookies cookies)
unfolding consume_download_ticket redeem
redeem_fresh ticket target cookies now later ts ne found early =
    ground (arith, eqb_iff ticket [], eqb_iff target target, clone_cookies_idem cookies)

-- A ticket that was presented is unknown.
consume_twice :
    (ticket target : Bytes) (later : ℕ) (ts : Tickets)
    → ticket ≢ []
    → let used = consume_download_ticket ticket target later ts in
      (consume_download_ticket ticket target later used.1).0 ≡ err expired_or_invalid
unfolding consume_download_ticket redeem
consume_twice ticket target later ts ne =
    ground (arith, eqb_iff ticket [], eqb_iff ticket ticket, lookup-delete ticket ticket ts)

-- A new ticket, presented for its URL within 30 seconds, gives the cookies that it was made with,
-- without the nil ones; and presented once more it is refused.
pub consume-create :
    (raw target : Bytes) (cookies : List (Option Cookie)) (now later : ℕ) (ts : Tickets)
    {ticket : Bytes}
    → ticket ≢ []
    → (create_download_ticket (some raw) now target cookies ts).0 ≡ ok ticket
    → later < now + download_ticket_lifetime
    → let made = (create_download_ticket (some raw) now target cookies ts).1 in
      let used = consume_download_ticket ticket target later made in
      (used.0 ≡ ok (clone_cookies cookies))
      × ((consume_download_ticket ticket target later used.1).0 ≡ err expired_or_invalid)
consume-create raw target cookies now later ts {ticket} ne made early =
    let stored = (create_download_ticket (some raw) now target cookies ts).1 in
    let found : lookup ticket stored ≡ some (issue_of now target cookies) =
      elim (create-cases raw now target cookies ts) [
        | inl (_, full) ↦ cc
        | inr (more, same) ↦
            let name : ticket ≡ hex_encode raw = cc in
            rw (more, name) (rw lookup-insert (rw eqb_refl))
      ] in
    (
      redeem_fresh ticket target cookies now later stored ne found early,
      consume_twice ticket target later stored ne,
    )
