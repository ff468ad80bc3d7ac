-- ===== src/Config/Normal/Stable.antt =====
-- About the sanitizers of config.go and address_history.go, applied twice.
use womprat.Base.{
  Bytes, codes, ℕ, ℤ, Bool, true, not, ◌&&◌, List, bytes_eq, all, leb, ltb, ◌≡◌, refl, inl, inr,
  arith, eqb,
}
use womprat.Platform.{Platform}
use womprat.Text.Space.{trim_space}
use womprat.Config.Sanitize.{normalize_font_size, normalize_terminal_font}
use womprat.Config.History.{normalize_address_history}
use womprat.Config.Normal.Fields.{normalize_terminal_font-IsTerminalFont}
use womprat.Config.Normal.Recent.{
  normalize_address_history-IsHistory, normalize_address_history-IsHistory_self,
}

-- an ASCII character that is not a capital
abbrev pub keeps_case : ℕ → Bool
keeps_case c = ltb c 128 && not (leb 65 c && leb c 90)

pub normalize_font_size_idem :
    (n : ℤ) → normalize_font_size (normalize_font_size n) ≡ normalize_font_size n
unfolding normalize_font_size
normalize_font_size_idem n = ground arith

pub normalize_address_history_idem :
    (resolves : Bytes → Bool) (inputs : List Bytes)
    → normalize_address_history resolves (normalize_address_history resolves inputs)
      ≡ normalize_address_history resolves inputs
normalize_address_history_idem resolves inputs =
    normalize_address_history-IsHistory_self resolves (normalize_address_history resolves inputs)
      (normalize_address_history-IsHistory resolves inputs)

module _ (p : Platform) (lowers : (s : Bytes) → all keeps_case s ≡ true → p.to_lower s ≡ s) where
  abbrev Stable : Bytes → Type 0
  Stable name = normalize_terminal_font p name ≡ name

  fira : Stable (codes "fira-code")
  unfolding normalize_terminal_font trim_space eqb
  fira = rw (lowers (codes "fira-code") refl) refl

  cascadia : Stable (codes "cascadia-mono")
  unfolding normalize_terminal_font trim_space eqb
  cascadia = rw (lowers (codes "cascadia-mono") refl) refl

  consolas : Stable (codes "consolas")
  unfolding normalize_terminal_font trim_space eqb
  consolas = rw (lowers (codes "consolas") refl) refl

  nsimsun : Stable (codes "nsimsun")
  unfolding normalize_terminal_font trim_space eqb
  nsimsun = rw (lowers (codes "nsimsun") refl) refl

  pub normalize_terminal_font_idem : (font : Bytes) → Stable (normalize_terminal_font p font)
  normalize_terminal_font_idem font = elim (normalize_terminal_font-IsTerminalFont p font) [
    | inl q ↦ rw q fira
    | inr (inl q) ↦ rw q cascadia
    | inr (inr (inl q)) ↦ rw q consolas
    | inr (inr (inr q)) ↦ rw q nsimsun
  ]
