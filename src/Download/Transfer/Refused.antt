-- ===== src/Download/Transfer/Refused.antt =====
-- About the refusals of `handleDownload` in download.go.
use womprat.Base.{
  Bytes, Bool, true, false, ◌||◌, none, some, err, Bool-cases, Option-cases, Result-cases, ◌≡◌,
  refl, sym, ap, ◌∙◌, inl, inr, arith,
}
use womprat.Platform.{Platform}
use womprat.Download.Ticket.{Tickets}
use womprat.Download.Transfer.{
  Downloads, Refusal, Place, is_downloading, reserve, release, parse_target, prepare,
  handle_download,
}

held-inj : (x y : Downloads) → some x ≡ some y → x ≡ y
held-inj x y e = cc

-- What was reserved is given back.
release-reserve : (d held : Downloads) → reserve d ≡ some held → release held ≡ d
unfolding reserve release
release-reserve d held e = elim (Bool-cases (d.starting || is_downloading d.current)) [
  | inl q ↦ let bad : none ≡ some held = rw (reserve, q) at e in cc
  | inr q ↦
      let same : some (record d { starting = true }) ≡ some held = rw (reserve, q) at e in
      let free : d.starting ≡ false = ground (arith, q) in
      ap (λ (x : Downloads). record x { starting = false })
        (held-inj held (record d { starting = true }) (sym same))
      ∙ ap (λ (x : Bool). record d { starting = x }) (sym free)
]

-- Whatever a request for a download is refused for, a running download and the place for the next one
-- are as they were before it.
pub handle_download-Refused :
    (p : Platform) (place : Place) (target ticket : Bytes) (tickets : Tickets) (d : Downloads)
    (e : Refusal)
    → (handle_download p place target ticket tickets d).0 ≡ err e
    → (handle_download p place target ticket tickets d).1.1 ≡ d
unfolding handle_download
handle_download-Refused p place target ticket tickets d e refused =
    elim (Option-cases (parse_target p target)) [
      | inl q ↦ rw (handle_download, q) refl
      | inr (parsed, q) ↦ elim (Option-cases (reserve d)) [
        | inl r ↦ rw (handle_download, q, r) refl
        | inr (held, r) ↦ elim (Result-cases (prepare p place ticket parsed tickets).0) [
          | inl (x, t) ↦ rw (handle_download, q, r, t) (release-reserve d held r)
          | inr ((st, cookies), t) ↦ let bad = rw (handle_download, q, r, t) at refused in cc
        ]
      ]
    ]
