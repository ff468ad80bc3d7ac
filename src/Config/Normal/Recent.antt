-- ===== src/Config/Normal/Recent.antt =====
-- The address history: valid entries without repetition, the newest first, at most 100.
use womprat.Base.{
  Bytes, ℕ, zero, suc, ◌≤◌, Bool, true, false, not, ◌||◌, List, [], ◌∷◌, ◌==◌, bytes_eq, length,
  take, keep, ◌≡◌, ◌≢◌, refl, ap, ◌∙◌, inl, inr, arith, All, eqb_iff, Bool-cases,
}
use womprat.Text.Space.{trim_space, trim_space_idem}
use womprat.Config.History.{member, keep_history, normalize_address_history, address_history_limit}

-- No entry occurs again behind itself.
abbrev pub Unique : List Bytes → Type 0
Unique [] = Unit
Unique (x ∷ xs) = (member x xs ≡ false) × Unique xs

module _ (resolves : Bytes → Bool) where
  -- An input that the history may hold.
  abbrev pub IsEntry : Bytes → Type 0
  IsEntry x = (x ≢ []) × (trim_space x ≡ x) × (resolves x ≡ true)

  pub record IsHistory (h : List Bytes) : Type 0 where
    pub entries : All IsEntry h
    pub unique : Unique h
    pub short : length h ≤ address_history_limit

  keep_history-le :
      (room : ℕ) (seen inputs : List Bytes) → length (keep_history resolves room seen inputs) ≤ room
  unfolding keep_history
  keep_history-le zero seen inputs = omega arith
  keep_history-le (suc room) seen [] = omega arith
  keep_history-le (suc room) seen (raw ∷ inputs) = ground (
    arith,
    keep_history-le (suc room) seen inputs,
    keep_history-le room (trim_space raw ∷ seen) inputs,
  )

  keep_history-entries :
      (room : ℕ) (seen inputs : List Bytes) → All IsEntry (keep_history resolves room seen inputs)
  unfolding keep_history
  keep_history-entries zero seen inputs = tt
  keep_history-entries (suc room) seen [] = tt
  keep_history-entries (suc room) seen (raw ∷ inputs) =
      let input : Bytes = trim_space raw in
      elim (Bool-cases (input == [] || member input seen || not (resolves input))) [
        | inl skip ↦ rw skip (keep_history-entries (suc room) seen inputs)
        | inr good ↦ rw good (
          (ground (arith, eqb_iff input []), trim_space_idem raw, ground arith),
          keep_history-entries room (input ∷ seen) inputs,
        )
      ]

  -- What was seen is not kept again.
  keep_history-fresh :
      (room : ℕ) (seen inputs : List Bytes) (x : Bytes)
      → member x seen ≡ true
      → member x (keep_history resolves room seen inputs) ≡ false
  unfolding keep_history
  keep_history-fresh zero seen inputs x h = refl
  keep_history-fresh (suc room) seen [] x h = refl
  keep_history-fresh (suc room) seen (raw ∷ inputs) x h = ground (
    arith,
    keep_history-fresh (suc room) seen inputs x,
    keep_history-fresh room (trim_space raw ∷ seen) inputs x,
    eqb_iff x (trim_space raw),
  )

  keep_history-Unique :
      (room : ℕ) (seen inputs : List Bytes) → Unique (keep_history resolves room seen inputs)
  unfolding keep_history
  keep_history-Unique zero seen inputs = tt
  keep_history-Unique (suc room) seen [] = tt
  keep_history-Unique (suc room) seen (raw ∷ inputs) =
      let input : Bytes = trim_space raw in
      elim (Bool-cases (input == [] || member input seen || not (resolves input))) [
        | inl skip ↦ rw skip (keep_history-Unique (suc room) seen inputs)
        | inr good ↦ rw good (
          keep_history-fresh room (input ∷ seen) inputs input (ground (arith, eqb_iff input input)),
          keep_history-Unique room (input ∷ seen) inputs,
        )
      ]

  -- Whatever the inputs, the history that is kept has at most 100 entries, all different, none
  -- empty, each trimmed and resolvable.
  pub normalize_address_history-IsHistory :
      (inputs : List Bytes) → IsHistory (normalize_address_history resolves inputs)
  unfolding normalize_address_history
  normalize_address_history-IsHistory inputs = record {
    entries = keep_history-entries address_history_limit [] inputs;
    unique = keep_history-Unique address_history_limit [] inputs;
    short = keep_history-le address_history_limit [] inputs;
  }

  abbrev unseen : List Bytes → List Bytes → List Bytes
  unseen seen = keep (λ x. not (member x seen))

  unseen-cons :
      (x : Bytes) (seen xs : List Bytes)
      → member x xs ≡ false
      → unseen (x ∷ seen) xs ≡ unseen seen xs
  unseen-cons x seen [] h = refl
  unseen-cons x seen (y ∷ xs) h = ground (arith, unseen-cons x seen xs, eqb_iff x y, eqb_iff y x)

  -- On a list that is a history but for its length, the loop only drops what was seen and what
  -- does not fit.
  keep_history-eq-take :
      (room : ℕ) (seen h : List Bytes)
      → All IsEntry h
      → Unique h
      → keep_history resolves room seen h ≡ take room (unseen seen h)
  unfolding keep_history
  keep_history-eq-take zero seen h good once = refl
  keep_history-eq-take (suc room) seen [] good once = refl
  keep_history-eq-take (suc room) seen (x ∷ h) good once = ground (
    arith,
    good.0,
    eqb_iff x [],
    keep_history-eq-take (suc room) seen h good.1 once.1,
    keep_history-eq-take room (x ∷ seen) h good.1 once.1,
    unseen-cons x seen h once.0,
  )

  unseen-nil : (h : List Bytes) → unseen [] h ≡ h
  unseen-nil [] = refl
  unseen-nil (x ∷ h) = ap (◌∷◌ x) (unseen-nil h)

  take-all : (n : ℕ) (h : List Bytes) → length h ≤ n → take n h ≡ h
  take-all zero [] s = refl
  take-all zero (x ∷ h) s = absurd (omega arith)
  take-all (suc n) [] s = refl
  take-all (suc n) (x ∷ h) s = ap (◌∷◌ x) (take-all n h (omega arith))

  -- A history is left as it is: saving twice is saving once.
  pub normalize_address_history-IsHistory_self :
      (h : List Bytes) → IsHistory h → normalize_address_history resolves h ≡ h
  unfolding normalize_address_history
  normalize_address_history-IsHistory_self h good =
      keep_history-eq-take address_history_limit [] h good.entries good.unique
      ∙ ap (take address_history_limit) (unseen-nil h)
      ∙ take-all address_history_limit h good.short

  unseen-one :
      (input : Bytes) (h : List Bytes) → unseen (input ∷ []) h ≡ keep (λ x. not (x == input)) h
  unseen-one input [] = refl
  unseen-one input (x ∷ h) = ground (arith, unseen-one input h)

  -- A submitted input moves to the front of the history; the others keep their order, and the
  -- oldest gives way where there would be more than 100.
  pub normalize_address_history-cons :
      (raw : Bytes) (h : List Bytes)
      → trim_space raw ≢ []
      → resolves (trim_space raw) ≡ true
      → IsHistory h
      → normalize_address_history resolves (raw ∷ h)
        ≡ trim_space raw ∷ take 99 (keep (λ x. not (x == trim_space raw)) h)
  unfolding normalize_address_history keep_history
  normalize_address_history-cons raw h ne good hist = ground (
    arith,
    eqb_iff (trim_space raw) [],
    keep_history-eq-take 99 (trim_space raw ∷ []) h hist.entries hist.unique,
    unseen-one (trim_space raw) h,
  )
