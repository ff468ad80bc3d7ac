-- ===== src/Server/Settled.antt =====
-- What each handler may do to the tabs and the settings.
use womprat.Base.{
  Bytes, ℤ, Bool, true, ◌&&◌, ◌||◌, all, any, List, [], ◌∷◌, ◌==◌, bytes_eq, Bool-cases, ◌≡◌, refl,
  ap, inl, inr, ltb, length,
}
use mathlib.Core.Path.{ap₂}
use womprat.Platform.{Platform}
use womprat.Text.Search.{contains_any}
use womprat.Text.Space.{trim_space}
use womprat.Config.{
  AppConfig, SavedTab, normalize_config, valid_search_provider, normalize_theme,
  normalize_address_history, normalize_font_size, normalize_terminal_font,
}
use womprat.Config.Normal.Stable.{
  keeps_case, normalize_font_size_idem, normalize_terminal_font_idem,
  normalize_address_history_idem,
}
use womprat.Server.Defs.{Server, Backend, Request}
use womprat.Server.Http.{is_read}
use womprat.Server.Settings.{
  Appearance, with_appearance, appearance_of, normal_appearance, handle_debug_log,
  handle_appearance, handle_save_tabs, handle_remove_recent, handle_save_passwords_toggle,
  handle_search_provider, handle_address_history,
}
use womprat.Server.Outcome.{Settled, posted-Settled, commit-Settled, commit_written-Settled}

module _ (p : Platform) (b : Backend) (s : Server) where
  pub debug_log-Settled : (r : Request Bool) → Settled p b s.app (handle_debug_log p b r s)
  unfolding handle_debug_log
  debug_log-Settled r = elim (Bool-cases (is_read r.method)) [
    | inl q ↦ rw q (inl refl)
    | inr q ↦ rw q (posted-Settled p b r _ s λ enabled. commit-Settled p b _ _ s refl)
  ]

  pub save_passwords-Settled :
      (is_linux : Bool) (r : Request Bool)
      → Settled p b s.app (handle_save_passwords_toggle p b is_linux r s)
  unfolding handle_save_passwords_toggle
  save_passwords-Settled is_linux r = posted-Settled p b r _ s λ enabled.
      elim (Bool-cases (is_linux && enabled)) [
        | inl q ↦ rw q (inl refl)
        | inr q ↦ rw q (commit-Settled p b _ _ s refl)
      ]

  pub save_tabs-Settled :
      (r : Request (List SavedTab)) → Settled p b s.app (handle_save_tabs p b r s)
  unfolding handle_save_tabs
  save_tabs-Settled r = posted-Settled p b r _ s λ tabs. commit-Settled p b _ _ s refl

  pub remove_recent-Settled : (r : Request Bytes) → Settled p b s.app (handle_remove_recent p b r s)
  unfolding handle_remove_recent
  remove_recent-Settled r = posted-Settled p b r _ s λ key.
      elim (Bool-cases
        (key == [] || ltb 4096 (length key) || contains_any key (13 ∷ 10 ∷ 0 ∷ []))) [
          | inl q ↦ rw q (inl refl)
          | inr q ↦ elim (Bool-cases (any (λ hidden. hidden == key) s.app.config.hidden_recent)) [
            | inl u ↦ rw (q, u) (inl refl)
            | inr u ↦ rw (q, u) (commit-Settled p b _ _ s refl)
          ]
        ]

  pub search_provider-Settled :
      (r : Request Bytes) → Settled p b s.app (handle_search_provider p b r s)
  unfolding handle_search_provider
  search_provider-Settled r = elim (Bool-cases (is_read r.method)) [
    | inl q ↦ rw q (inl refl)
    | inr q ↦ rw q (
        posted-Settled p b r _ s λ provider. elim (Bool-cases (valid_search_provider provider)) [
          | inr u ↦ rw u (inl refl)
          | inl u ↦ rw u (commit-Settled p b _ _ s refl)
        ])
  ]

  abbrev with_history : List Bytes → AppConfig → AppConfig
  with_history h cfg = record cfg { address_history = h }

  history-stable :
      (inputs : List Bytes) (cfg : AppConfig)
      → (let n = normalize_config p b.env.resolves in
          let next = with_history (normalize_address_history b.env.resolves inputs) cfg in
          n (with_history (n next).address_history cfg) ≡ n next)
  unfolding normalize_config
  history-stable inputs cfg =
      ap (λ (h : List Bytes). with_history h (normalize_config p b.env.resolves cfg))
        (ap (normalize_address_history b.env.resolves)
          (normalize_address_history_idem b.env.resolves inputs))

  pub address_history-Settled :
      (r : Request Bytes) → Settled p b s.app (handle_address_history p b r s)
  unfolding handle_address_history
  address_history-Settled r = elim (Bool-cases (is_read r.method)) [
    | inl q ↦ rw q (inl refl)
    | inr q ↦ rw q (
        posted-Settled p b r _ s λ raw. elim (Bool-cases (b.env.resolves (trim_space raw))) [
          | inr u ↦ rw u (inl refl)
          | inl u ↦ rw u (
              commit_written-Settled p b _ _ _ s (λ _. refl)
                (history-stable (trim_space raw ∷ s.app.config.address_history) s.app.config))
        ])
  ]

  appearance-stable :
      ((t : Bytes) → all keeps_case t ≡ true → p.to_lower t ≡ t)
      → (body : Appearance) (cfg : AppConfig)
      → (let n = normalize_config p b.env.resolves in
          let next = with_appearance (normal_appearance p b body) cfg in
          n (with_appearance (appearance_of (n next)) cfg) ≡ n next)
  unfolding normalize_config normalize_theme
  appearance-stable lowers body cfg =
      ap₂
        (λ (size : ℤ) (font : Bytes).
          with_appearance
            (record body {
              font_size = size;
              terminal_font = font;
              theme = normalize_theme body.theme;
            })
            (normalize_config p b.env.resolves cfg))
        (ap normalize_font_size (normalize_font_size_idem body.font_size))
        (ap (normalize_terminal_font p) (normalize_terminal_font_idem p lowers body.terminal_font))

  pub appearance-Settled :
      ((t : Bytes) → all keeps_case t ≡ true → p.to_lower t ≡ t)
      → (r : Request Appearance) → Settled p b s.app (handle_appearance p b r s)
  unfolding handle_appearance
  appearance-Settled lowers r = posted-Settled p b r _ s λ body.
      commit_written-Settled p b _ _ _ s (λ _. refl) (appearance-stable lowers body s.app.config)
