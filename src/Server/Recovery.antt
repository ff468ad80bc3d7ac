-- ===== src/Server/Recovery.antt =====
-- About the recovery of the exit node in exit_node_recovery.go.
use womprat.Base.{
  Bytes, Bool, true, false, not, ◌||◌, none, some, List, [], ◌∷◌, ◌++◌, ◌==◌, bytes_eq, eqb_iff,
  if◌then◌else◌, ok, err, Bool-cases, Option-cases, ◌≡◌, ◌≢◌, refl, sym, ap, subst, ◌⊎◌, inl, inr,
  arith, All,
}
use womprat.Server.Defs.{Server, Backend}
use womprat.Server.Node.{Round, apply_configured_exit_node, recovery_round, recover}

-- The recovery is over and the route in use, without an error.
abbrev pub Restored : Server → Type 0
Restored s = (s.recovering ≡ false) × (s.exit_node_active ≡ true) × (s.ts_last_error ≡ [])

-- The recovery runs, for a route of a node that is up, while nothing is locked.
abbrev pub Waits : Bytes → Server → Type 0
Waits name s =
    (s.app.config.exit_node ≡ name)
    × (s.recovering ≡ true)
    × (s.has_node ≡ true)
    × (s.app.locked ≡ false)

recover-more :
    (r : Round) (rounds : List Round) (s : Server)
    → (recovery_round r.backend r.free r.cancelled s).recovering ≡ true
    → recover (r ∷ rounds) s ≡ recover rounds (recovery_round r.backend r.free r.cancelled s)
unfolding recover
recover-more r rounds s e =
    let t : Server = recovery_round r.backend r.free r.cancelled s in
    ap (λ (more : Bool). if more then recover rounds t else t) e

recover-over :
    (r : Round) (rounds : List Round) (s : Server)
    → (recovery_round r.backend r.free r.cancelled s).recovering ≡ false
    → recover (r ∷ rounds) s ≡ recovery_round r.backend r.free r.cancelled s
unfolding recover
recover-over r rounds s e =
    let t : Server = recovery_round r.backend r.free r.cancelled s in
    ap (λ (more : Bool). if more then recover rounds t else t) e

module _ (name : Bytes) (named : name ≢ []) where
  apply-cases :
      (b : Backend) (s : Server) (x : Bytes)
      → x ≡ name
      → Waits name s
      → (((apply_configured_exit_node b x s).0 ≡ ok tt)
          × ((apply_configured_exit_node b x s).1.exit_node_active ≡ true)
          × ((apply_configured_exit_node b x s).1.ts_last_error ≡ []))
        ⊎ ((e : Bytes) × ((apply_configured_exit_node b x s).0 ≡ err e)
            × (b.apply_exit_node s name ≡ some e)
            × Waits name (apply_configured_exit_node b x s).1)
  unfolding apply_configured_exit_node
  apply-cases b s x same h = elim (Option-cases (b.apply_exit_node s x)) [
    | inl q ↦
        inl (rw (apply_configured_exit_node, q) (refl, ground (arith, same, eqb_iff x []), refl))
    | inr (e, q) ↦ inr (
      e,
      rw (apply_configured_exit_node, q) refl,
      subst (λ y. b.apply_exit_node s y ≡ some e) same q,
      rw (apply_configured_exit_node, q) h,
    )
  ]

  runs :
      (cancelled : Bool) (s : Server)
      → cancelled ≡ false
      → Waits name s
      → (cancelled || s.app.config.exit_node == [] || not s.has_node || s.app.locked) ≡ false
  runs cancelled s c h = ground (arith, c, h, named, eqb_iff s.app.config.exit_node [])

  round-cases :
      (r : Round) (s : Server)
      → r.cancelled ≡ false
      → Waits name s
      → Restored (recovery_round r.backend r.free r.cancelled s)
        ⊎ (Waits name (recovery_round r.backend r.free r.cancelled s)
            × ((r.free ≡ false) ⊎ ((e : Bytes) × (r.backend.apply_exit_node s name ≡ some e))))
  unfolding recovery_round
  round-cases r s c h = elim (Bool-cases r.free) [
    | inr busy ↦ inr (rw (recovery_round, busy) h, inl busy)
    | inl free ↦ elim (apply-cases r.backend s s.app.config.exit_node h.0 h) [
      | inl (q, active, clean) ↦
          inl (rw (recovery_round, free, runs r.cancelled s c h, q) (refl, active, clean))
      | inr (e, q, fails, waits) ↦
          inr (rw (recovery_round, free, runs r.cancelled s c h, q) waits, inr (e, fails))
    ]
  ]

  -- A saved exit node comes back: while the recovery waits and is not cancelled, whatever its rounds
  -- meet, a round that finds the settings free and a node that takes the route ends it with the
  -- route in use and no error.
  pub recover-Restored :
      (failing : List Round) (r : Round) (later : List Round) (s : Server)
      → All (λ x. x.cancelled ≡ false) failing
      → r.cancelled ≡ false
      → r.free ≡ true
      → ((t : Server) → r.backend.apply_exit_node t name ≡ none)
      → Waits name s
      → Restored (recover (failing ++ (r ∷ later)) s)
  recover-Restored [] r later s calm c free takes h = elim (round-cases r s c h) [
    | inl done ↦ subst Restored (sym (recover-over r later s done.0)) done
    | inr (waits, inl busy) ↦ cc
    | inr (waits, inr (e, fails)) ↦ let t = takes s in cc
  ]
  recover-Restored (x ∷ failing) r later s calm c free takes h =
      let rounds : List Round = failing ++ (r ∷ later) in
      elim (round-cases x s calm.0 h) [
        | inl done ↦ subst Restored (sym (recover-over x rounds s done.0)) done
        | inr (waits, _) ↦ subst Restored (sym (recover-more x rounds s waits.1)) (
            recover-Restored failing r later (recovery_round x.backend x.free x.cancelled s) calm.1
              c free takes waits)
      ]
