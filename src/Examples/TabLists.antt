-- ===== src/Examples/TabLists.antt =====
-- Sessions with a few tabs.
use womprat.Base.{codes, pos, true, false, none, some, [], ◌∷◌, ◌≡◌, refl, inr, eqb, arith}
use womprat.Examples.Toy.{toy}
use womprat.Text.Search.{contains_any}
use womprat.Text.Space.{trim_space}
use womprat.Config.{default_config}
use womprat.Tabs.{empty_tab, Session, Env, reorder_tab, remove_first, valid_tab_id}
use womprat.Tabs.Valid.Kept.{Valid}
use womprat.Tabs.Valid.Steps.{Op, terminal, close, apply, start, step, Reached-Valid}
use womprat.Tabs.Valid.Order.{next_id, reorder_tab-others, reorder_tab-before}

abbrev env : Env
env = record {
  has_views = true;
  has_view = λ _ _. false;
  makes_view = λ _ _. true;
  writes = λ _. true;
  resolves = λ _. true;
}

abbrev no_tabs : Session
no_tabs = record {
  tabs = [];
  active_tab = [];
  config = default_config;
  file = none;
  session_restored = false;
  locked = false;
  last_close_tab = [];
  last_close_at = none;
  sequence = 0;
  calls = [];
}

abbrev opened : Op
opened = terminal 5 (codes "host") [] (pos 0)

abbrev closes : Op
closes = close (codes "term-5-1") 9

Reached-Valid_example : Valid (apply toy env closes (apply toy env opened no_tabs))
Reached-Valid_example =
    Reached-Valid toy env (apply toy env closes (apply toy env opened no_tabs))
      (step closes tt (step opened tt (start refl refl)))

abbrev three_tabs : Session
three_tabs = record no_tabs {
  tabs =
      record empty_tab { id = codes "a" }
      ∷ record empty_tab { id = codes "b" }
      ∷ record empty_tab { id = codes "c" }
      ∷ [];
  active_tab = codes "a";
}

three_tabs-Valid : Valid three_tabs
three_tabs-Valid = unfold eqb in ((refl, (refl, (refl, tt))), inr refl)

reorder_tab-others_example :
    remove_first (codes "c") (reorder_tab toy env (codes "c") (codes "a") three_tabs).tabs
    ≡ remove_first (codes "c") three_tabs.tabs
reorder_tab-others_example =
    reorder_tab-others toy env (codes "c") (codes "a") three_tabs three_tabs-Valid

reorder_tab-before_example :
    next_id (codes "c") (reorder_tab toy env (codes "c") (codes "a") three_tabs).tabs
    ≡ some (codes "a")
reorder_tab-before_example =
    reorder_tab-before toy env (codes "c") (codes "a") three_tabs three_tabs-Valid
      (unfold valid_tab_id trim_space contains_any eqb in refl) (unfold eqb in refl)
      (unfold eqb in refl) (λ e. ground arith) (λ e. ground arith)
