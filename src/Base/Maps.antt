-- ===== src/Base/Maps.antt =====
-- A Go map with string keys, as an association list. The program ranges over a map only to test
-- or to delete, so the order of entries does not matter to it.
use Prim.Native.Nat.{suc, ◌≤◌}
use mathlib.Core.Path.{◌≡◌, refl, sym, subst, ap₂}
use mathlib.Core.Logic.{◌≢◌, inl, inr}
use mathlib.Core.Bool.{Bool}
use mathlib.Core.Option.{Option, none, some}
use mathlib.Core.List.{List, [], ◌∷◌}
use native.Mathlib.Omega.{arith}
use womprat.Base.Tests.{Bytes, eqb, eqb_iff, Bool-cases, if◌then◌else◌}
use womprat.Base.Lists.{length, All}

module _ {ℓ} {V : Type ℓ} where
  unfoldable pub lookup : Bytes → List (Bytes × V) → Option V
  lookup k [] = none
  lookup k ((j, v) ∷ m) = if eqb j k then some v else lookup k m

  unfoldable pub delete : Bytes → List (Bytes × V) → List (Bytes × V)
  delete k [] = []
  delete k ((j, v) ∷ m) = let rest = delete k m in if eqb j k then rest else (j, v) ∷ rest

  -- m[k] = v
  unfoldable pub insert : Bytes → V → List (Bytes × V) → List (Bytes × V)
  insert k v [] = (k, v) ∷ []
  insert k v ((j, w) ∷ m) = if eqb j k then (k, v) ∷ m else (j, w) ∷ insert k v m

  -- `for k, v := range m { if test(v) { delete(m, k) } }`
  unfoldable pub prune : (V → Bool) → List (Bytes × V) → List (Bytes × V)
  prune test [] = []
  prune test ((j, v) ∷ m) = let rest = prune test m in if test v then rest else (j, v) ∷ rest

  pub lookup-delete :
      (k j : Bytes) (m : List (Bytes × V))
      → lookup j (delete k m) ≡ (if eqb k j then none else lookup j m)
  unfolding lookup delete
  lookup-delete k j [] = ground arith
  lookup-delete k j ((i, v) ∷ m) =
      ground (arith, lookup-delete k j m, eqb_iff i k, eqb_iff i j, eqb_iff k j)

  pub lookup-insert :
      (k j : Bytes) (v : V) (m : List (Bytes × V))
      → lookup j (insert k v m) ≡ (if eqb k j then some v else lookup j m)
  unfolding lookup insert
  lookup-insert k j v [] = refl
  lookup-insert k j v ((i, w) ∷ m) =
      ground (arith, lookup-insert k j v m, eqb_iff i k, eqb_iff i j, eqb_iff k j)

  pub length-delete : (k : Bytes) (m : List (Bytes × V)) → length (delete k m) ≤ length m
  unfolding delete
  length-delete k [] = omega arith
  length-delete k ((j, v) ∷ m) = ground (arith, length-delete k m)

  pub length-prune : (test : V → Bool) (m : List (Bytes × V)) → length (prune test m) ≤ length m
  unfolding prune
  length-prune test [] = omega arith
  length-prune test ((j, v) ∷ m) = ground (arith, length-prune test m)

  pub length-insert :
      (k : Bytes) (v : V) (m : List (Bytes × V)) → length (insert k v m) ≤ suc (length m)
  unfolding insert
  length-insert k v [] = omega arith
  length-insert k v ((j, w) ∷ m) = ground (arith, length-insert k v m)

-- A predicate of every entry.
module _ {ℓ κ} {V : Type ℓ} (P : Bytes × V → Type κ) where
  -- What a deletion leaves has another key.
  pub All-delete :
      (k : Bytes) (m : List (Bytes × V)) → All P m → All (λ e. P e × (k ≢ e.0)) (delete k m)
  unfolding delete
  All-delete k [] h = tt
  All-delete k ((j, v) ∷ m) h = elim (Bool-cases (eqb j k)) [
    | inl q ↦ rw q (All-delete k m h.1)
    | inr q ↦ rw q ((h.0, λ same. cc (q, (eqb_iff j k).1 (sym same))), All-delete k m h.1)
  ]

  pub All-prune : (test : V → Bool) (m : List (Bytes × V)) → All P m → All P (prune test m)
  unfolding prune
  All-prune test [] h = tt
  All-prune test ((j, v) ∷ m) h = elim (Bool-cases (test v)) [
    | inl q ↦ rw q (All-prune test m h.1)
    | inr q ↦ rw q (h.0, All-prune test m h.1)
  ]

  pub All-insert :
      (k : Bytes) (v : V) (m : List (Bytes × V)) → P (k, v) → All P m → All P (insert k v m)
  unfolding insert
  All-insert k v [] p h = (p, tt)
  All-insert k v ((j, w) ∷ m) p h = elim (Bool-cases (eqb j k)) [
    | inl q ↦ rw q (p, h.1)
    | inr q ↦ rw q (h.0, All-insert k v m p h.1)
  ]

  pub All-lookup :
      (k : Bytes) (m : List (Bytes × V)) {v : V} → All P m → lookup k m ≡ some v → P (k, v)
  unfolding lookup
  All-lookup k [] h e = cc
  All-lookup k ((j, w) ∷ m) {v} h e = elim (Bool-cases (eqb j k)) [
    | inl q ↦
        let same : w ≡ v = cc (rw q at e) in
        subst P (ap₂ (λ (a : Bytes) (b : V). (a, b)) ((eqb_iff j k).0 q) same) h.0
    | inr q ↦ All-lookup k m h.1 (rw q at e)
  ]
