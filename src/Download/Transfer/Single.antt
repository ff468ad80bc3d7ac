-- ===== src/Download/Transfer/Single.antt =====
-- About the sections of `handleDownload` in download.go under the lock, in any order.
use womprat.Base.{
  ℕ, suc, ◌+◌, ◌≤◌, Bool, true, false, none, some, ◌≡◌, refl, ap, ◌∙◌, ◌⊎◌, inl, inr, arith,
}
use womprat.Download.Transfer.{
  DownloadState, Downloads, downloading, complete, failed, is_downloading, reserve, release, begin,
}

-- The downloads behind any sequence of steps, with the number of requests that hold a place, and of
-- transfers that have neither failed nor completed.
pub data Reached : ℕ → ℕ → Downloads → Type 0 where
  fresh : Reached 0 0 (record { current = none; starting = false })
  reserves :
      {h t : ℕ} {d d' : Downloads} → Reached h t d → reserve d ≡ some d' → Reached (suc h) t d'
  releases : {h t : ℕ} {d : Downloads} → Reached (suc h) t d → Reached h t (release d)
  begins :
      {h t : ℕ} {d : Downloads} (st : DownloadState)
      → st.status ≡ downloading
      → Reached (suc h) t d
      → Reached h (suc t) (begin st d)
  advances :
      {h t : ℕ} {d : Downloads} (st st' : DownloadState)
      → d.current ≡ some st
      → st'.status ≡ st.status
      → Reached h t d
      → Reached h t (record d { current = some st' })
  ends :
      {h t : ℕ} {d : Downloads} (st st' : DownloadState)
      → d.current ≡ some st
      → ((st'.status ≡ complete) ⊎ (st'.status ≡ failed))
      → Reached h (suc t) d
      → Reached h t (record d { current = some st' })

abbrev count : Bool → ℕ
count true = 1
count false = 0

-- The counts are those that the state shows.
abbrev pub Single : ℕ → ℕ → Downloads → Type 0
Single h t d = (h ≡ count d.starting) × (t ≡ count (is_downloading d.current)) × (h + t ≤ 1)

downloading-true : (st : DownloadState) → st.status ≡ downloading → is_downloading (some st) ≡ true
downloading-true st e = rw e refl

over-false :
    (st : DownloadState)
    → (st.status ≡ complete) ⊎ (st.status ≡ failed)
    → is_downloading (some st) ≡ false
over-false st (inl e) = rw e refl
over-false st (inr e) = rw e refl

same-downloading :
    (st st' : DownloadState)
    → st'.status ≡ st.status
    → is_downloading (some st) ≡ is_downloading (some st')
same-downloading st st' e = rw e refl

-- Whatever order the requests for downloads and the transfers take, at most one of them all holds a
-- place or transfers at any time; and the state tells which.
pub Reached-Single : {h t : ℕ} {d : Downloads} → Reached h t d → Single h t d
unfolding reserve release begin
Reached-Single fresh = (refl, refl, omega arith)
Reached-Single (reserves {h} {t} {d} {d'} r e) =
    let ih = Reached-Single r in ground (arith, ih.0, ih.1, ih.2, e)
Reached-Single (releases {h} {t} {d} r) =
    let ih = Reached-Single r in ground (arith, ih.0, ih.1, ih.2)
Reached-Single (begins {h} {t} {d} st e r) =
    let ih = Reached-Single r in ground (arith, ih.0, ih.1, ih.2, downloading-true st e)
Reached-Single (advances {h} {t} {d} st st' c e r) =
    let ih = Reached-Single r in
    (ih.0, ih.1 ∙ ap (λ x. count (is_downloading x)) c ∙ ap count (same-downloading st st' e), ih.2)
Reached-Single (ends {h} {t} {d} st st' c over r) =
    let ih = Reached-Single r in ground (arith, ih.0, ih.1, ih.2, c, over-false st' over)
