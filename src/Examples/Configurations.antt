-- ===== src/Examples/Configurations.antt =====
-- Configurations and histories on concrete inputs.
use womprat.Base.{
  Bool, Bytes, codes, true, pos, List, [], ◌∷◌, ◌≡◌, ◌≤◌, All, length, take, keep, not, ◌==◌,
  bytes_eq, refl, arith,
}
use womprat.Examples.Toy.{toy, page}
use womprat.Text.Space.{trim_space}
use womprat.Config.{AppConfig, SavedTab, default_config}
use womprat.Config.{sanitize_saved_tabs}
use womprat.Config.{normalize_address_history}
use womprat.Config.{normalize_config}
use womprat.Config.Normal.Recent.{
  IsHistory, normalize_address_history-IsHistory, normalize_address_history-IsHistory_self,
  normalize_address_history-cons,
}
use womprat.Config.Normal.Tabs.{IsTab, sanitize_saved_tabs-IsTab}
use womprat.Config.Normal.Fields.{IsNormal, normalize_config-IsNormal}

abbrev resolves : Bytes → Bool
resolves _ = true

abbrev inputs : List Bytes
inputs = codes " a " ∷ codes "b" ∷ codes "a" ∷ []

normalize_address_history-IsHistory_example :
    IsHistory resolves (normalize_address_history resolves inputs)
normalize_address_history-IsHistory_example = normalize_address_history-IsHistory resolves inputs

abbrev config : AppConfig
config = record default_config { address_history = inputs }

normalize_config-IsNormal_example : IsNormal toy resolves (normalize_config toy resolves config)
normalize_config-IsNormal_example = normalize_config-IsNormal toy resolves (λ s. refl) config

-- A page, and a tab that names no kind.
abbrev tabs : List SavedTab
tabs =
    record {
      kind = codes "browser";
      title = codes "A";
      host = [];
      user = [];
      port = pos 0;
      url = page;
      favicon = [];
    }
    ∷ record { kind = []; title = []; host = []; user = []; port = pos 0; url = page; favicon = [] }
    ∷ []

sanitize_saved_tabs-IsTab_example :
    All (IsTab toy) (sanitize_saved_tabs toy tabs) × (length (sanitize_saved_tabs toy tabs) ≤ 100)
sanitize_saved_tabs-IsTab_example = sanitize_saved_tabs-IsTab toy (λ s. refl) tabs

normalize_address_history-IsHistory_self_example :
    normalize_address_history resolves (normalize_address_history resolves inputs)
    ≡ normalize_address_history resolves inputs
normalize_address_history-IsHistory_self_example =
    normalize_address_history-IsHistory_self resolves (normalize_address_history resolves inputs)
      (normalize_address_history-IsHistory resolves inputs)

normalize_address_history-cons_example :
    normalize_address_history resolves (codes "b" ∷ normalize_address_history resolves inputs)
    ≡ codes "b"
      ∷ take 99 (keep (λ x. not (x == codes "b")) (normalize_address_history resolves inputs))
normalize_address_history-cons_example =
    unfold trim_space in
    normalize_address_history-cons resolves (codes "b") (normalize_address_history resolves inputs)
      (λ e. ground arith) refl (normalize_address_history-IsHistory resolves inputs)
