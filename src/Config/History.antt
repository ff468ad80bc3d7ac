-- ===== src/Config/History.antt =====
-- `normalizeAddressHistory` of address_history.go. `resolves` is the test that
-- `resolveAddressInput` returns no error.
use womprat.Base.{
  Bytes, ℕ, zero, suc, Bool, not, ◌||◌, List, [], ◌∷◌, ◌==◌, bytes_eq, any, if◌then◌else◌,
}
use womprat.Text.Space.{trim_space}

abbrev pub address_history_limit : ℕ
address_history_limit = 100

abbrev pub member : Bytes → List Bytes → Bool
member input seen = any (λ s. input == s) seen

-- `room` is what the limit leaves; `seen` holds the inputs that were kept.
unfoldable pub keep_history : (Bytes → Bool) → ℕ → List Bytes → List Bytes → List Bytes
keep_history resolves zero seen inputs = []
keep_history resolves (suc room) seen [] = []
keep_history resolves (suc room) seen (raw ∷ inputs) =
    let input = trim_space raw in
    let skip = keep_history resolves (suc room) seen inputs in
    let more = keep_history resolves room (input ∷ seen) inputs in
    if input == [] || member input seen || not (resolves input) then skip else input ∷ more

unfoldable pub normalize_address_history : (Bytes → Bool) → List Bytes → List Bytes
unfolding keep_history
normalize_address_history resolves inputs = keep_history resolves address_history_limit [] inputs
