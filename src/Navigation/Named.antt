-- ===== src/Navigation/Named.antt =====
-- About `chromiumNavigationMessage` of navigation_diagnostic.go.
use womprat.Base.{
  Bytes, codes, ℕ, Bool, true, false, not, List, [], ◌∷◌, ◌++◌, ◌==◌, nat_eq, bytes_eq, any, all,
  length, All, All-append, Elem, here, there, Bool-cases, ◌≡◌, refl, ◌⊎◌, inl, inr, arith, ◌≤◌,
}
use womprat.Text.Search.{has_prefix}
use womprat.Navigation.Defs.{
  is_symbol_byte, is_symbol, symbol_of, explanation, explained, chromium_navigation_message,
}

-- A byte that is no mark of HTML.
abbrev pub no_mark : ℕ → Bool
no_mark c = not (any (λ d. c == d) (codes "<>&\"'"))

abbrev pub IsPlain : ℕ → Type 0
IsPlain c = no_mark c ≡ true

-- The text stands in a row for the code, or no row is for the code and it is the last text.
abbrev pub Explains : List (List Bytes × Bytes) → Bytes → Bytes → Type 0
Explains rows code text =
    ((names : List Bytes) × (Elem (names, text) rows) × (any (λ name. name == code) names ≡ true))
    ⊎ ((All (λ row. any (λ name. name == code) row.0 ≡ false) rows)
        × (text ≡ codes "Chromium could not complete the navigation."))

explanation-Explains :
    (rows : List (List Bytes × Bytes)) (code : Bytes) → Explains rows code (explanation rows code)
unfolding explanation
explanation-Explains [] code = inr (tt, refl)
explanation-Explains ((names, text) ∷ rows) code =
    elim (Bool-cases (any (λ name. name == code) names)) [
      | inl q ↦ inl (names, rw q (here refl), q)
      | inr q ↦ elim (explanation-Explains rows code) [
        | inl (others, at, named) ↦ inl (others, rw q (there at), named)
        | inr (none, last) ↦ inr ((q, none), rw q last)
      ]
    ]

plain : (s : Bytes) → all no_mark s ≡ true → All IsPlain s
plain [] h = tt
plain (c ∷ s) h = (ground arith, plain s (ground arith))

explanation-plain :
    (rows : List (List Bytes × Bytes)) (code : Bytes)
    → all (λ row. all no_mark row.1) rows ≡ true
    → all no_mark (explanation rows code) ≡ true
unfolding explanation
explanation-plain [] code h = refl
explanation-plain ((names, text) ∷ rows) code h =
    elim (Bool-cases (any (λ name. name == code) names)) [
      | inl q ↦ rw q (ground arith)
      | inr q ↦ rw q (explanation-plain rows code (ground arith))
    ]

symbol-IsPlain : (s : Bytes) → all is_symbol_byte s ≡ true → All IsPlain s
symbol-IsPlain [] h = tt
symbol-IsPlain (c ∷ s) h = (ground arith, symbol-IsPlain s (ground arith))

-- Whatever an event says, nothing of it is told where what it holds behind `net::` is no symbol.
-- Otherwise the message is the fixed text of the row that names the symbol, or the last text where
-- no row does, with the symbol in parentheses: at most 96 bytes that begin with `ERR_`, of capitals,
-- digits and underscores. No byte of the message is one of `<>&"'`.
pub chromium_navigation_message-Named :
    (raw : Bytes)
    → ((is_symbol (symbol_of raw) ≡ false) × (chromium_navigation_message raw ≡ []))
      ⊎ ((text : Bytes) × (chromium_navigation_message raw
            ≡ text ++ codes " (" ++ symbol_of raw ++ codes ")")
          × (Explains explained (symbol_of raw) text)
          × (has_prefix (symbol_of raw) (codes "ERR_") ≡ true)
          × (length (symbol_of raw) ≤ 96)
          × (all is_symbol_byte (symbol_of raw) ≡ true)
          × (All IsPlain (chromium_navigation_message raw)))
unfolding chromium_navigation_message
chromium_navigation_message-Named raw =
    let code : Bytes = symbol_of raw in
    elim (Bool-cases (is_symbol code)) [
      | inr q ↦ inl (q, rw (chromium_navigation_message, q) refl)
      | inl q ↦
          let text : Bytes = explanation explained code in
          let whole : All IsPlain (text ++ codes " (" ++ code ++ codes ")") =
            All-append IsPlain (text ++ codes " (" ++ code) (codes ")")
              (All-append IsPlain (text ++ codes " (") code
                (All-append IsPlain text (codes " (")
                  (plain text (explanation-plain explained code refl)) (plain (codes " (") refl))
                (symbol-IsPlain code (ground (arith, q))))
              (plain (codes ")") refl) in
          inr (
            text,
            rw (chromium_navigation_message, q) refl,
            explanation-Explains explained code,
            ground (arith, q),
            ground (arith, q),
            ground (arith, q),
            rw (chromium_navigation_message, q) whole,
          )
    ]
