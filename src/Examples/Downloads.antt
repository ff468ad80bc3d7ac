-- ===== src/Examples/Downloads.antt =====
-- Tickets and file names on concrete inputs.
use womprat.Base.{
  codes, some, [], ◌∷◌, List, refl, ok, err, ◌≡◌, ◌≤◌, length, eqb, prune, lookup, insert, delete,
  arith,
}
use womprat.Download.Cookie.{clone_cookies}
use womprat.Download.Ticket.{
  create_download_ticket, consume_download_ticket, hex_encode, expired_or_invalid,
  max_download_tickets,
}
use womprat.Download.Ticket.Use.{
  step, Event, create, after, consume-Redeems, Redeems, consume-create, after-le_max,
}

abbrev history : List Event
history = create (some (codes "ab")) 100 (codes "https://a/f") [] ∷ []

consume-Redeems_example : Redeems history (codes "6162") (codes "https://a/f") 105 []
consume-Redeems_example =
    consume-Redeems history (codes "6162") (codes "https://a/f") 105 [] (λ e. ground arith)
      (unfold consume_download_ticket create_download_ticket hex_encode after step clone_cookies eqb
          prune lookup insert delete in
        refl)

consume-create_example :
    let made = (create_download_ticket (some (codes "ab")) 100 (codes "https://a/f") [] []).1 in
    let used = consume_download_ticket (codes "6162") (codes "https://a/f") 105 made in
    (used.0 ≡ ok [])
    × ((consume_download_ticket (codes "6162") (codes "https://a/f") 105 used.1).0
        ≡ err expired_or_invalid)
consume-create_example =
    unfold clone_cookies in
    consume-create (codes "ab") (codes "https://a/f") [] 100 105 [] {ticket = codes "6162"}
      (λ e. ground arith)
      (unfold create_download_ticket hex_encode clone_cookies prune lookup insert eqb in refl)
      (omega arith)

after-le_max_example : length (after history) ≤ max_download_tickets
after-le_max_example = after-le_max history
