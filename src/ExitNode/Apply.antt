-- ===== src/ExitNode/Apply.antt =====
-- `applyAndVerifyExitNode`, over a client that may answer anything.
use womprat.Base.{
  Bytes, ℕ, zero, suc, Bool, true, false, Option, none, some, List, [], ◌∷◌, ◌==◌, bytes_eq,
  if◌then◌else◌, Result, ok, err,
}
use womprat.Platform.{Platform}
use womprat.ExitNode.Choice.{
  Status, Prefs, ExitError, no_prefs, read_failed, edit_failed, timed_out, with_rollback,
  exit_node_preference, effective_exit_node,
}

-- The calls of the client (newest first): reads, and a change with whether it was taken.
pub data Call : Type 0 where
  read_status read_prefs waited : Call
  edited : Prefs → Bool → Call

abbrev pub Calls : Type 0
Calls = List Call

-- exitNodePrefsClient: what each method returns after these calls
pub record Client : Type 0 where
  pub status : Calls → Result ℕ (Option Status)
  pub get_prefs : Calls → Result ℕ (Option Prefs)
  pub takes : Calls → Prefs → Bool

module _ (client : Client) where
  -- The status is read only where a node is wanted.
  unfoldable pub read_status_for :
      Bytes → Option Status → Calls → Result ExitError (Option Status) × Calls
  read_status_for name before h = if name == [] then (ok before, h) else elim (client.status h) [
    | err e ↦ (err read_failed, read_status ∷ h)
    | ok status ↦ (ok status, read_status ∷ h)
  ]

  -- The deferred function: a failure restores the preferences from before the change.
  unfoldable pub roll_back : Prefs → ExitError → Calls → Result ExitError (Unit {0}) × Calls
  roll_back previous e h =
      if client.takes h previous
      then (err e, edited previous true ∷ h)
      else (err (with_rollback e), edited previous false ∷ h)

  -- One round of the loop: the effective preferences and status are read and compared. A failed
  -- read ends the loop, `some`; a mismatch goes on, `none`.
  unfoldable pub poll :
      Bytes
      → Prefs
      → Option Status
      → Calls
      → (Option (Result ExitError (Unit {0})) × Option Status) × Calls
  poll name change before h = elim (client.get_prefs h) [
    | err e ↦ ((some (err read_failed), before), read_prefs ∷ h)
    | ok prefs ↦
        let (status, h') = read_status_for name before (read_prefs ∷ h) in
        elim status [
          | err e ↦ ((some (err e), before), h')
          | ok st ↦ elim (effective_exit_node prefs st change.exit_node_id) [
            | ok _ ↦ ((some (ok tt), st), h')
            | err e ↦ ((none, st), h')
          ]
        ]
  ]

  -- The loop, where the context ends after `waits` timers.
  unfoldable pub verify :
      ℕ → Bytes → Prefs → Option Status → Calls → Result ExitError (Unit {0}) × Calls
  verify zero name change status h =
      let (r, h') = poll name change status h in
      elim r.0 [ some result ↦ (result, h') | none ↦ (err timed_out, h') ]
  verify (suc waits) name change status h =
      let (r, h') = poll name change status h in
      elim r.0 [ some result ↦ (result, h') | none ↦ verify waits name change r.1 (waited ∷ h') ]

  abbrev pub or_roll_back :
      Prefs → Result ExitError (Unit {0}) × Calls → Result ExitError (Unit {0}) × Calls
  or_roll_back previous (ok _, h) = (ok tt, h)
  or_roll_back previous (err e, h) = roll_back previous e h

  unfoldable pub apply_change :
      ℕ → Bytes → Prefs → Option Status → Prefs → Calls → Result ExitError (Unit {0}) × Calls
  apply_change waits name change status previous h =
      if client.takes h change
      then or_roll_back previous (verify waits name change status (edited change true ∷ h))
      else (err edit_failed, edited change false ∷ h)

  unfoldable pub with_status :
      Platform → ℕ → Bytes → Option Status → Calls → Result ExitError (Unit {0}) × Calls
  with_status p waits name status h = elim (exit_node_preference p status name) [
    | err e ↦ (err e, h)
    | ok change ↦ elim (client.get_prefs h) [
      | err e ↦ (err read_failed, read_prefs ∷ h)
      | ok previous ↦ elim previous [
        | none ↦ (err no_prefs, read_prefs ∷ h)
        | some before ↦ apply_change waits name change status before (read_prefs ∷ h)
      ]
    ]
  ]

  unfoldable pub apply_and_verify_exit_node :
      Platform → ℕ → Bytes → Calls → Result ExitError (Unit {0}) × Calls
  apply_and_verify_exit_node p waits name h =
      let (r, h') = read_status_for name none h in
      elim r [ err e ↦ (err e, h') | ok status ↦ with_status p waits name status h' ]
