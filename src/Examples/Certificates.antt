-- ===== src/Examples/Certificates.antt =====
-- An approved certificate error, step by step.
use womprat.Base.{Bytes, codes, pos, true, false, List, [], ◌∷◌, refl, ◌≡◌, ◌≢◌, eqb}
use womprat.Examples.Toy.{toy, page}
use womprat.Text.Host.{hostname, cut_last}
use womprat.Certificate.{
  certificate_url, canonical, starting, detected, decide_tracked, proceed, cleared, eligible,
}
use womprat.Certificate.Consent.{
  Event, start, detect, approve, step, after, Approved, allows-Approved, allows_once,
}

abbrev pem : Bytes
pem = codes "pem"

-- A page is opened, its expired certificate is reported, and the user answers the prompt.
abbrev history : List Event
history = approve (codes "t") ∷ detect page pem (pos 2) (codes "t") ∷ start page ∷ []

reported_once : (detected toy (after toy history) page pem (pos 2) []).1 ≡ true
reported_once =
    unfold after step starting detected decide_tracked proceed cleared certificate_url canonical
      hostname cut_last eqb in
    refl

allows-Approved_example :
    Approved toy (certificate_url toy page) pem history × (eligible (pos 2) ≡ true) × (pem ≢ [])
allows-Approved_example = allows-Approved toy history page pem (pos 2) [] reported_once

allows_once_example :
    (detected toy (after toy (detect page pem (pos 2) [] ∷ history)) page pem (pos 2) []).1 ≡ false
allows_once_example = allows_once toy history page pem (pos 2) [] page pem (pos 2) [] reported_once
