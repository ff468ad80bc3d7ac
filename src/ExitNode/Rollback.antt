-- ===== src/ExitNode/Rollback.antt =====
-- The changes that an application makes.
use womprat.Base.{
  Bytes, ℕ, zero, suc, Bool, true, false, Option, none, some, List, [], ◌∷◌, ◌==◌, bytes_eq, ◌≡◌,
  refl, sym, subst, ap, ◌∙◌, ◌⊎◌, inl, inr, arith, Result, ok, err, Bool-cases, Option-cases,
  Result-cases,
}
use womprat.Platform.{Platform}
use womprat.ExitNode.Choice.{
  Status, Prefs, ExitError, with_rollback, exit_node_preference, effective_exit_node,
}
use womprat.ExitNode.Apply.{
  read_status, read_prefs, waited, edited, Calls, Client, read_status_for, roll_back, poll, verify,
  apply_change, with_status, apply_and_verify_exit_node,
}

-- The changes among the calls, and whether each was taken (newest first).
pub edits : Calls → List (Prefs × Bool)
edits [] = []
edits (edited prefs taken ∷ h) = (prefs, taken) ∷ edits h
edits (read_status ∷ h) = edits h
edits (read_prefs ∷ h) = edits h
edits (waited ∷ h) = edits h

module _ (client : Client) where
  read_status_for-edits :
      (name : Bytes) (before : Option Status) (h : Calls)
      → edits (read_status_for client name before h).1 ≡ edits h
  unfolding read_status_for edits
  read_status_for-edits name before h = ground arith

  poll-edits :
      (name : Bytes) (change : Prefs) (before : Option Status) (h : Calls)
      → edits (poll client name change before h).1 ≡ edits h
  unfolding poll edits
  poll-edits name change before h =
      ground (arith, read_status_for-edits name before (read_prefs ∷ h))

  verify-edits :
      (waits : ℕ) (name : Bytes) (change : Prefs) (status : Option Status) (h : Calls)
      → edits (verify client waits name change status h).1 ≡ edits h
  unfolding verify edits
  verify-edits zero name change status h = ground (arith, poll-edits name change status h)
  verify-edits (suc waits) name change status h =
      let round = poll client name change status h in
      ground (
        arith,
        poll-edits name change status h,
        verify-edits waits name change round.0.1 (waited ∷ round.1),
      )

  -- The status with which the loop begins: it counts only where no node is wanted, and is then none.
  abbrev Known : Bytes → Option Status → Type 0
  Known name before = ((name == []) ≡ false) ⊎ (before ≡ none)

  read_status_for-none :
      (name : Bytes) (before : Option Status) (h : Calls)
      → Known name before
      → read_status_for client name before h ≡ read_status_for client name none h
  unfolding read_status_for
  read_status_for-none name before h (inl q) = rw q refl
  read_status_for-none name before h (inr e) = ap (λ x. read_status_for client name x h) e

  read_status_for-Known :
      (name : Bytes) (before st : Option Status) (h : Calls)
      → Known name before
      → (read_status_for client name before h).0 ≡ ok st
      → Known name st
  unfolding read_status_for
  read_status_for-Known name before st h (inl q) e = inl q
  read_status_for-Known name before st h (inr b) e = elim (Bool-cases (name == [])) [
    | inr q ↦ inl q
    | inl q ↦
        let same : ok before ≡ ok st = rw (read_status_for, q) at e in
        inr (sym (ground (arith, same)) ∙ b)
  ]

  poll-Known :
      (name : Bytes) (change : Prefs) (before : Option Status) (h : Calls)
      → Known name before
      → Known name (poll client name change before h).0.1
  unfolding poll
  poll-Known name change before h known = elim (Result-cases (client.get_prefs h)) [
    | inl (e, q) ↦ rw (poll, q) known
    | inr (prefs, q) ↦ elim (Result-cases (read_status_for client name before (read_prefs ∷ h)).0) [
      | inl (e, r) ↦ rw (poll, q, r) known
      | inr (st, r) ↦
          let next = read_status_for-Known name before st (read_prefs ∷ h) known r in
          elim (Result-cases (effective_exit_node prefs st change.exit_node_id)) [
            | inl (e, t) ↦ rw (poll, q, r, t) next
            | inr (_, t) ↦ rw (poll, q, r, t) next
          ]
    ]
  ]

  -- The node is in effect: after these changes the client returned preferences, and then the status
  -- where a node is wanted, that show it, and these were the last calls.
  abbrev pub InEffect : Bytes → Prefs → List (Prefs × Bool) → Calls → Type 0
  InEffect name change changes h' =
      (read : Calls) × (prefs : Option Prefs) × (status : Option Status) × (edits read ≡ changes)
      × (client.get_prefs read ≡ ok prefs)
      × ((read_status_for client name none (read_prefs ∷ read)).0 ≡ ok status)
      × ((read_status_for client name none (read_prefs ∷ read)).1 ≡ h')
      × (effective_exit_node prefs status change.exit_node_id ≡ ok tt)

  poll-InEffect :
      (name : Bytes) (change : Prefs) (before : Option Status) (h : Calls)
      → Known name before
      → (poll client name change before h).0.0 ≡ some (ok tt)
      → InEffect name change (edits h) (poll client name change before h).1
  unfolding poll
  poll-InEffect name change before h known done = elim (Result-cases (client.get_prefs h)) [
    | inl (e, q) ↦ absurd (ground (arith, q))
    | inr (prefs, q) ↦ elim (Result-cases (read_status_for client name before (read_prefs ∷ h)).0) [
      | inl (e, r) ↦ absurd (ground (arith, q, r))
      | inr (st, r) ↦ elim (Result-cases (effective_exit_node prefs st change.exit_node_id)) [
        | inl (e, t) ↦ absurd (ground (arith, q, r, t))
        | inr (_, t) ↦
            let same = read_status_for-none name before (read_prefs ∷ h) known in
            (
              h,
              prefs,
              st,
              refl,
              q,
              ap (λ x. x.0) (sym same) ∙ r,
              rw (poll, q, r, t) (ap (λ x. x.1) (sym same)),
              t,
            )
      ]
    ]
  ]

  verify-InEffect :
      (waits : ℕ) (name : Bytes) (change : Prefs) (status : Option Status) (h : Calls)
      → Known name status
      → (verify client waits name change status h).0 ≡ ok tt
      → InEffect name change (edits h) (verify client waits name change status h).1
  unfolding verify edits
  verify-InEffect zero name change status h known done =
      elim (Option-cases (poll client name change status h).0.0) [
        | inl q ↦ absurd (ground (arith, q))
        | inr (r, q) ↦
            rw (verify, q)
              (poll-InEffect name change status h known (q ∙ ap some (ground (arith, q))))
      ]
  verify-InEffect (suc waits) name change status h known done =
      let round = poll client name change status h in
      elim (Option-cases round.0.0) [
        | inl q ↦
            rw (verify, q)
              (subst
                (λ x.
                  InEffect name change x
                    (verify client waits name change round.0.1 (waited ∷ round.1)).1)
                (poll-edits name change status h)
                (verify-InEffect waits name change round.0.1 (waited ∷ round.1)
                  (poll-Known name change status h known) (rw (verify, q) at done)))
        | inr (r, q) ↦
            rw (verify, q)
              (poll-InEffect name change status h known (q ∙ ap some (ground (arith, q))))
      ]

  -- The outcomes: the change is kept, no change was taken, or the old preferences are set again.
  pub data Outcome (p : Platform) (name : Bytes) (h : Calls)
      : Result ExitError (Unit {0}) → Calls → Type 0 where
    kept :
        {h' : Calls} (change : Prefs) (status : Option Status)
        → (read_status_for client name none h).0 ≡ ok status
        → exit_node_preference p status name ≡ ok change
        → InEffect name change ((change, true) ∷ edits h) h'
        → edits h' ≡ (change, true) ∷ edits h
        → Outcome p name h (ok tt) h'
    unchanged : {h' : Calls} {e : ExitError} → edits h' ≡ edits h → Outcome p name h (err e) h'
    refused :
        {h' : Calls} {e : ExitError} (change : Prefs)
        → edits h' ≡ (change, false) ∷ edits h
        → Outcome p name h (err e) h'
    restored :
        {h' : Calls} {e : ExitError} (change previous : Prefs) (taken : Bool)
        → client.get_prefs (read_status_for client name none h).1 ≡ ok (some previous)
        → edits h' ≡ (previous, taken) ∷ (change, true) ∷ edits h
        → Outcome p name h (err e) h'

  roll_back-cases :
      (previous : Prefs) (e : ExitError) (h : Calls)
      → (e' : ExitError) × (taken : Bool) × (roll_back client previous e h
          ≡ (err e', edited previous taken ∷ h))
  unfolding roll_back
  roll_back-cases previous e h = elim (Bool-cases (client.takes h previous)) [
    | inl q ↦ (e, true, rw q)
    | inr q ↦ (with_rollback e, false, rw q)
  ]

  module _ (p : Platform) (name : Bytes) (h : Calls) (waits : ℕ) where
    abbrev before_change : Calls
    before_change = (read_status_for client name none h).1

    apply_change-Outcome :
        (change : Prefs) (status : Option Status) (previous : Prefs)
        → (read_status_for client name none h).0 ≡ ok status
        → exit_node_preference p status name ≡ ok change
        → client.get_prefs before_change ≡ ok (some previous)
        → Outcome p name h
            (apply_change client waits name change status previous (read_prefs ∷ before_change)).0
            (apply_change client waits name change status previous (read_prefs ∷ before_change)).1
    unfolding apply_change edits
    apply_change-Outcome change status previous first chosen known =
        let same = read_status_for-edits name none h in
        let calls = edited change true ∷ read_prefs ∷ before_change in
        let verified = verify client waits name change status calls in
        let after = verify-edits waits name change status calls in
        let begins = read_status_for-Known name none status h (inr refl) first in
        elim (Bool-cases (client.takes (read_prefs ∷ before_change) change)) [
          | inr q ↦ rw (apply_change, q) (refused change (rw same))
          | inl q ↦ elim (Result-cases verified.0) [
            | inr (_, r) ↦
                rw (apply_change, q, r)
                  (kept change status first chosen
                    (subst (λ x. InEffect name change ((change, true) ∷ x) verified.1) same
                      (verify-InEffect waits name change status calls begins r))
                    (after ∙ rw same))
            | inl (e, r) ↦
                let (e', taken, rolled) = roll_back-cases previous e verified.1 in
                rw (apply_change, q, r, rolled)
                  (restored change previous taken known (rw (after, same)))
          ]
        ]

    with_status-Outcome :
        (status : Option Status)
        → (read_status_for client name none h).0 ≡ ok status
        → Outcome p name h
            (with_status client p waits name status before_change).0
            (with_status client p waits name status before_change).1
    unfolding with_status edits
    with_status-Outcome status first =
        let same = read_status_for-edits name none h in
        elim (Result-cases (exit_node_preference p status name)) [
          | inl (e, q) ↦ rw (with_status, q) (unchanged same)
          | inr (change, q) ↦ elim (Result-cases (client.get_prefs before_change)) [
            | inl (e, r) ↦ rw (with_status, q, r) (unchanged same)
            | inr (previous, r) ↦ elim (Option-cases previous) [
              | inl s ↦ rw (with_status, q, r, s) (unchanged same)
              | inr (before, s) ↦
                  rw (with_status, q, r, s)
                    (apply_change-Outcome change status before first q (rw s at r))
            ]
          ]
        ]

    -- An application of an exit node ends in one of four ways, whatever the client answers and
    -- however long it waits. It succeeds, with one change: the one that the name asks for in the
    -- status that was read first; and after this change preferences were read, and then the status
    -- where the name is not empty, in which the node is in effect, and nothing was called since. Or
    -- it fails without a change; or its only change is not taken; or its change is followed by a last
    -- one, to the preferences that were read before it.
    pub apply_and_verify-Outcome :
        Outcome p name h
          (apply_and_verify_exit_node client p waits name h).0
          (apply_and_verify_exit_node client p waits name h).1
    unfolding apply_and_verify_exit_node
    apply_and_verify-Outcome =
        let read = read_status_for client name none h in
        elim (Result-cases read.0) [
          | inl (e, q) ↦
              rw (apply_and_verify_exit_node, q) (unchanged (read_status_for-edits name none h))
          | inr (status, q) ↦ rw (apply_and_verify_exit_node, q) (with_status-Outcome status q)
        ]
