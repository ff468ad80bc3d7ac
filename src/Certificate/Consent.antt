-- ===== src/Certificate/Consent.antt =====
-- What the decision allows, against the history of the browser's events (newest first).
use womprat.Base.{
  Bytes, ℤ, true, false, List, [], ◌∷◌, ◌≡◌, ◌≢◌, ◌⊎◌, inl, inr, refl, arith, eqb, eqb_iff,
  Bool-cases, ◌∙◌, sym,
}
use womprat.Platform.{Platform}
use womprat.Certificate.{
  CertificateDecision, cleared, certificate_url, no_prompt, starting, detected, proceed, eligible,
  decide_tracked,
}

-- One call of the methods of `certificateDecision`.
pub data Event : Type 0 where
  start : Bytes → Event
  clear : Event
  detect : Bytes → Bytes → ℤ → Bytes → Event
  approve : Bytes → Event

module _ (p : Platform) where
  unfoldable pub step : CertificateDecision → Event → CertificateDecision
  step d (start raw) = starting p d raw
  step d clear = cleared
  step d (detect raw pem status token) = (detected p d raw pem status token).0
  step d (approve token) = (proceed d token).0

  -- The decision after a history.
  unfoldable pub after : List Event → CertificateDecision
  after [] = cleared
  after (e ∷ h) = step (after h) e

  -- A prompt for `uri` stays open: no navigation, no other report about it, no other answer to it.
  abbrev pub KeepsOffer : Bytes → Bytes → Event → Type 0
  KeepsOffer uri token (start raw) = ⊥
  KeepsOffer uri token clear = ⊥
  KeepsOffer uri token (detect raw pem status t) = certificate_url p raw ≢ uri
  KeepsOffer uri token (approve t) = t ≢ token

  -- The last prompt shown was for this address, certificate and token, and is unanswered.
  pub data Offered (uri pem token : Bytes) : List Event → Type 0 where
    offer :
        {raw : Bytes} {status : ℤ} {h : List Event}
        → certificate_url p raw ≡ uri
        → eligible status ≡ true
        → pem ≢ []
        → token ≢ []
        → Offered uri pem token (detect raw pem status token ∷ h)
    wait :
        {e : Event} {h : List Event}
        → KeepsOffer uri token e
        → Offered uri pem token h
        → Offered uri pem token (e ∷ h)

  -- An approval stays good: navigations lead back to `uri` only, and no report used it up.
  abbrev pub KeepsApproval : Bytes → Event → Type 0
  KeepsApproval uri (start raw) = certificate_url p raw ≡ uri
  KeepsApproval uri clear = ⊥
  KeepsApproval uri (detect raw pem status t) = certificate_url p raw ≢ uri
  KeepsApproval uri (approve t) = Unit

  -- The user has answered the open prompt for this address and certificate with its token, and the
  -- answer has not been used.
  pub data Approved (uri pem : Bytes) : List Event → Type 0 where
    answer :
        {token : Bytes} {h : List Event}
        → Offered uri pem token h
        → Approved uri pem (approve token ∷ h)
    wait :
        {e : Event} {h : List Event}
        → KeepsApproval uri e
        → Approved uri pem h
        → Approved uri pem (e ∷ h)

  abbrev PendingOk : List Event → CertificateDecision → Type 0
  PendingOk h d =
      (d.pending.token ≡ [])
      ⊎ (Offered d.pending.url d.pending.pem d.pending.token h
          × (d.pending.url ≡ d.current)
          × (d.pending.url ≢ []))

  abbrev GrantOk : List Event → CertificateDecision → Type 0
  GrantOk h d =
      (d.grant.url ≡ []) ⊎ (Approved d.grant.url d.grant.pem h × (d.grant.url ≡ d.current))

  -- A report about the tracked page shows a prompt or none, and leaves no grant.
  tracked :
      (d : CertificateDecision) (uri pem : Bytes) (status : ℤ) (token : Bytes)
      → ((decide_tracked d uri pem status token).0.grant.url ≡ [])
        × ((decide_tracked d uri pem status token).0.current ≡ d.current)
        × (((decide_tracked d uri pem status token).0.pending.token ≡ [])
            ⊎ ((pem ≢ [])
                × (token ≢ [])
                × (eligible status ≡ true)
                × ((decide_tracked d uri pem status token).0.pending
                    ≡ record { url = uri; pem = pem; token = token })))
  unfolding decide_tracked
  tracked d uri pem status token = ground (arith, eqb_iff pem [], eqb_iff token [])

  -- A report is about the tracked page, or changes nothing.
  untracked :
      (d : CertificateDecision) (raw pem : Bytes) (status : ℤ) (token : Bytes)
      → ((certificate_url p raw ≢ [])
          × (certificate_url p raw ≡ d.current)
          × (detected p d raw pem status token
              ≡ decide_tracked d (certificate_url p raw) pem status token))
        ⊎ (((certificate_url p raw ≡ []) ⊎ (certificate_url p raw ≢ d.current))
            × (detected p d raw pem status token ≡ (d, false)))
  unfolding detected
  untracked d raw pem status token =
      ground (arith, eqb_iff (certificate_url p raw) [], eqb_iff (certificate_url p raw) d.current)

  -- An answer is to the open prompt for the tracked page, or changes nothing.
  answered :
      (d : CertificateDecision) (token : Bytes)
      → ((token ≢ [])
          × (token ≡ d.pending.token)
          × (d.pending.url ≡ d.current)
          × ((proceed d token).0 ≡ record d { grant = d.pending; pending = no_prompt }))
        ⊎ (((token ≡ []) ⊎ (token ≢ d.pending.token) ⊎ (d.pending.url ≢ d.current))
            × ((proceed d token).0 ≡ d))
  unfolding proceed
  answered d token =
      ground
        (arith, eqb_iff token [], eqb_iff token d.pending.token, eqb_iff d.pending.url d.current)

  pending_kept :
      (h : List Event) (d : CertificateDecision) (e : Event)
      → PendingOk h d
      → (d.pending.token ≢ []
          → d.pending.url ≡ d.current
          → d.pending.url ≢ []
          → KeepsOffer d.pending.url d.pending.token e)
      → PendingOk (e ∷ h) d
  pending_kept h d e (inl none_open) keeps = inl none_open
  pending_kept h d e (inr (o, at, ne)) keeps = elim (Bool-cases (eqb d.pending.token [])) [
    | inl q ↦ inl ((eqb_iff _ _).0 q)
    | inr q ↦ inr (wait (keeps (λ r. cc (q, (eqb_iff _ _).1 r)) at ne) o, at, ne)
  ]

  pending_tracked :
      (h : List Event) (d : CertificateDecision) (raw pem : Bytes) (status : ℤ) (token : Bytes)
      → certificate_url p raw ≢ []
      → certificate_url p raw ≡ d.current
      → PendingOk
          (detect raw pem status token ∷ h)
          (decide_tracked d (certificate_url p raw) pem status token).0
  pending_tracked h d raw pem status token ne at =
      let (g, c, shown) = tracked d (certificate_url p raw) pem status token in
      elim shown [
        | inl q ↦ inl q
        | inr (has_pem, has_token, ok_status, e) ↦
            rw (e, c) (inr (offer refl ok_status has_pem has_token, at, ne))
      ]

  pending_step :
      (h : List Event) (d : CertificateDecision) (e : Event)
      → PendingOk h d
      → PendingOk (e ∷ h) (step d e)
  unfolding step starting cleared
  pending_step h d (start raw) v = inl refl
  pending_step h d clear v = inl refl
  pending_step h d (detect raw pem status token) v = elim (untracked d raw pem status token) [
    | inl (ne, here, e) ↦ rw (step, e) (pending_tracked h d raw pem status token ne here)
    | inr (away, e) ↦
        rw (step, e)
          (pending_kept h d (detect raw pem status token) v
            (λ _ at ne. elim away [ inl q ↦ (λ r. ne (sym r ∙ q)) | inr q ↦ (λ r. q (r ∙ at)) ]))
  ]
  pending_step h d (approve token) v = elim (answered d token) [
    | inl (ne, same, at, e) ↦ rw (step, e) (inl refl)
    | inr (why, e) ↦
        rw (step, e)
          (pending_kept h d (approve token) v (λ some_token at ne. elim why [
            | inl q ↦ (λ r. some_token (sym r ∙ q))
            | inr (inl q) ↦ q
            | inr (inr q) ↦ absurd (q at)
          ]))
  ]

  grant_step :
      (h : List Event) (d : CertificateDecision) (e : Event)
      → PendingOk h d
      → GrantOk h d
      → GrantOk (e ∷ h) (step d e)
  unfolding step starting cleared
  grant_step h d (start raw) v w = elim (Bool-cases (eqb d.grant.url (certificate_url p raw))) [
    | inl q ↦ rw q (elim w [
      | inl none_given ↦ inl none_given
      | inr (a, at) ↦ inr (wait (sym ((eqb_iff _ _).0 q)) a, (eqb_iff _ _).0 q)
    ])
    | inr q ↦ rw q (inl refl)
  ]
  grant_step h d clear v w = inl refl
  grant_step h d (detect raw pem status token) v w = elim (untracked d raw pem status token) [
    | inl (ne, here, e) ↦ rw (step, e) (inl (tracked d (certificate_url p raw) pem status token).0)
    | inr (away, e) ↦
        rw (step, e)
          (elim w [
            | inl none_given ↦ inl none_given
            | inr (a, at) ↦ elim (Bool-cases (eqb d.grant.url [])) [
              | inl q ↦ inl ((eqb_iff _ _).0 q)
              | inr q ↦ inr (
                wait
                    (elim away [
                      | inl r ↦ (λ x. cc (q, (eqb_iff d.grant.url []).1 (sym x ∙ r)))
                      | inr r ↦ (λ x. r (x ∙ at))
                    ])
                    a,
                at,
              )
            ]
          ])
  ]
  grant_step h d (approve token) v w = elim (answered d token) [
    | inl (ne, same, at, e) ↦
        rw (step, e)
          (elim v [
            | inl none_open ↦ absurd (ne (same ∙ none_open))
            | inr (o, here, some_url) ↦ inr (rw (← same) at (answer o), at)
          ])
    | inr (why, e) ↦
        rw (step, e)
          (elim w [ inl none_given ↦ inl none_given | inr (a, at) ↦ inr (wait tt a, at) ])
  ]

  after-ok : (h : List Event) → PendingOk h (after h) × GrantOk h (after h)
  unfolding after cleared
  after-ok [] = (inl refl, inl refl)
  after-ok (e ∷ h) =
      let (v, w) = after-ok h in (pending_step h (after h) e v, grant_step h (after h) e v w)

  -- A report that is allowed is about the tracked page, and about the granted certificate.
  allowed :
      (d : CertificateDecision) (raw pem : Bytes) (status : ℤ) (token : Bytes)
      → (detected p d raw pem status token).1 ≡ true
      → (certificate_url p raw ≢ [])
        × (d.grant.url ≡ certificate_url p raw)
        × (d.grant.pem ≡ pem)
        × (eligible status ≡ true)
        × (pem ≢ [])
  unfolding detected decide_tracked
  allowed d raw pem status token h = ground (
    arith,
    eqb_iff (certificate_url p raw) [],
    eqb_iff d.grant.url (certificate_url p raw),
    eqb_iff d.grant.pem pem,
    eqb_iff pem [],
  )

  -- Whatever the history of navigations, reports and answers, a certificate error is let through
  -- only if it is of an eligible kind, and the user has answered the open prompt for exactly this
  -- address and certificate, with no navigation elsewhere and no use of the answer since.
  pub allows-Approved :
      (h : List Event) (raw pem : Bytes) (status : ℤ) (token : Bytes)
      → (detected p (after h) raw pem status token).1 ≡ true
      → Approved (certificate_url p raw) pem h × (eligible status ≡ true) × (pem ≢ [])
  allows-Approved h raw pem status token yes_allowed =
      let (some_url, same_url, same_pem, ok_status, some_pem) =
        allowed (after h) raw pem status token yes_allowed in
      elim (after-ok h).1 [
        | inl none_given ↦ absurd (some_url (sym same_url ∙ none_given))
        | inr (a, at) ↦ (rw (same_url, same_pem) at a, ok_status, some_pem)
      ]

  grant_used :
      (h : List Event) (raw pem : Bytes) (status : ℤ) (token : Bytes)
      → (detected p (after h) raw pem status token).1 ≡ true
      → (after (detect raw pem status token ∷ h)).grant.url ≡ []
  unfolding after step
  grant_used h raw pem status token used = elim (untracked (after h) raw pem status token) [
    | inl (ne, here, e) ↦
        rw (after, step, e) (tracked (after h) (certificate_url p raw) pem status token).0
    | inr (away, e) ↦ cc (e, used)
  ]

  -- An approval is used once: right after a report was let through, none is.
  pub allows_once :
      (h : List Event) (raw pem : Bytes) (status : ℤ) (token : Bytes) (raw' pem' : Bytes)
      (status' : ℤ) (token' : Bytes)
      → (detected p (after h) raw pem status token).1 ≡ true
      → (detected p (after (detect raw pem status token ∷ h)) raw' pem' status' token').1 ≡ false
  allows_once h raw pem status token raw' pem' status' token' used =
      elim (Bool-cases
        (detected p (after (detect raw pem status token ∷ h)) raw' pem' status' token').1) [
          | inl again ↦
              let (some_url, same_url, _, _, _) =
                allowed (after (detect raw pem status token ∷ h)) raw' pem' status' token' again in
              absurd (some_url (sym same_url ∙ grant_used h raw pem status token used))
          | inr refused ↦ refused
        ]
