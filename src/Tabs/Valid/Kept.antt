-- ===== src/Tabs/Valid/Kept.antt =====
-- The operations that move, close and store tabs keep a session valid.
use womprat.Base.{
  Bytes, codes, ℕ, suc, true, some, List, [], ◌∷◌, ◌==◌, ◌!=◌, bytes_eq, keep, ◌≡◌, refl, ◌⊎◌, inl,
  inr, arith, eqb_iff, Option-cases, if◌then◌else◌,
}
use womprat.Platform.{Platform}
use womprat.Tabs.{
  Tab, Session, Env, insert_tab, remove_first, upsert_tab, settings_tab, has_tab, find_tab,
  neighbour, persist_open_tabs, destroy_content, hide_browser_content, show_home, clear_active_tab,
  call, activate, show_content, closed_index, show_tab, switch_tab, reorder_tab, forget_tab, closed,
  close_tab, open_settings_tab, add_tab, new_view, store_tab,
}
use womprat.Tabs.Valid.Lists.{
  UniqueIds, UniqueIds-upsert, UniqueIds-keep, UniqueIds-remove, UniqueIds-insert, has_tab-upsert,
  has_tab-keep, has_tab-remove, has_tab-insert, has_tab-neighbour, find_tab-eq-some,
}

-- No two tabs have the same id, and the active tab, if there is one, is a tab.
abbrev pub ValidTabs : List Tab → Bytes → Type 0
ValidTabs tabs active = UniqueIds tabs × ((active ≡ []) ⊎ (has_tab active tabs ≡ true))

abbrev pub Valid : Session → Type 0
Valid s = ValidTabs s.tabs s.active_tab

-- The tabs and the active tab are as before.
abbrev pub Same : Session → Session → Type 0
Same s s' = (s'.tabs ≡ s.tabs) × (s'.active_tab ≡ s.active_tab)

pub Valid-Same : (s s' : Session) → Same s s' → Valid s → Valid s'
Valid-Same s s' (tabs, active) v = rw (tabs, active) v

module _ (p : Platform) (env : Env) where
  pub persist-Same : (s : Session) → Same s (persist_open_tabs p env s)
  unfolding persist_open_tabs
  persist-Same s = ground arith

  destroy-Same : (id : Bytes) (s : Session) → Same s (destroy_content p env id s)
  unfolding destroy_content
  destroy-Same id s = ground arith

  hide-Same : (s : Session) → Same s (hide_browser_content p env s)
  unfolding hide_browser_content
  hide-Same s = ground arith

  show_content-Same : (id url : Bytes) (s : Session) → Same s (show_content p env id url s)
  unfolding show_content
  show_content-Same id url s = ground arith

  show_tab-Same : (tab : Tab) (s : Session) → Same s (show_tab p env tab s)
  unfolding show_tab
  show_tab-Same tab s =
      ground (arith, hide-Same s, show_content-Same tab.id tab.url (call (activate tab.id) s))

  pub new_view-Same : (id url : Bytes) (s : Session) → Same s (new_view p env id url s)
  unfolding new_view
  new_view-Same id url s = ground arith

  pub switch_tab-Valid : (id : Bytes) (s : Session) → Valid s → Valid (switch_tab p env id s)
  unfolding switch_tab
  switch_tab-Valid id s v = elim (Option-cases (find_tab id s.tabs)) [
    | inl none_such ↦ Valid-Same s (switch_tab p env id s) (ground arith) v
    | inr (tab, found) ↦ ground (
      arith,
      v,
      find_tab-eq-some id s.tabs found,
      show_tab-Same tab (record s { active_tab = id }),
    )
  ]

  pub reorder_tab-Valid :
      (id before : Bytes) (s : Session) → Valid s → Valid (reorder_tab p env id before s)
  unfolding reorder_tab
  reorder_tab-Valid id before s (u, v) = elim (Option-cases (find_tab id s.tabs)) [
    | inl none_such ↦ Valid-Same s (reorder_tab p env id before s) (ground arith) (u, v)
    | inr (tab, found) ↦
        let rest = remove_first id s.tabs in
        ground (
          arith,
          v,
          find_tab-eq-some id s.tabs found,
          persist-Same (record s { tabs = insert_tab before tab rest }),
          UniqueIds-insert before tab rest (UniqueIds-remove id s.tabs u),
          has_tab-remove tab.id id s.tabs u,
          has_tab-remove s.active_tab id s.tabs u,
          has_tab-insert s.active_tab before tab rest,
          eqb_iff s.active_tab id,
          eqb_iff tab.id s.active_tab,
          eqb_iff tab.id id,
        )
  ]

  pub forget_tab-Valid : (id : Bytes) (s : Session) → Valid s → Valid (forget_tab p env id s)
  unfolding forget_tab
  forget_tab-Valid id s (u, v) =
      let without = record s {
        tabs = keep (λ t. t.id != id) s.tabs;
        active_tab = if s.active_tab == id then [] else s.active_tab;
      } in
      ground (
        arith,
        v,
        destroy-Same id without,
        persist-Same (destroy_content p env id without),
        UniqueIds-keep id s.tabs u,
        has_tab-keep s.active_tab id s.tabs,
        eqb_iff s.active_tab id,
      )

  show_home-Valid : (s : Session) → Valid s → Valid (show_home p env s)
  unfolding show_home clear_active_tab
  show_home-Valid s (u, v) = ground (arith, hide-Same (record s { active_tab = [] }))

  has_tab-neighbour_of :
      (tabs : List Tab) (i : ℕ) → (neighbour tabs i ≡ []) ⊎ (has_tab (neighbour tabs i) tabs ≡ true)
  unfolding neighbour
  has_tab-neighbour_of [] i = inl refl
  has_tab-neighbour_of (t ∷ tabs) i = inr (has_tab-neighbour t tabs i)

  closed-Valid : (id : Bytes) (index : ℕ) (s : Session) → Valid s → Valid (closed p env id index s)
  unfolding closed
  closed-Valid id index s (u, v) =
      let rest = keep (λ t. t.id != id) s.tabs in
      let without = record s {
        tabs = rest;
        active_tab = if s.active_tab == id then neighbour rest index else s.active_tab;
      } in
      ground (
        arith,
        v,
        destroy-Same id without,
        persist-Same (destroy_content p env id without),
        UniqueIds-keep id s.tabs u,
        has_tab-keep s.active_tab id s.tabs,
        has_tab-neighbour_of rest index,
        eqb_iff s.active_tab id,
      )

  pub close_tab-Valid :
      (id : Bytes) (now : ℕ) (s : Session) → Valid s → Valid (close_tab p env id now s)
  unfolding close_tab
  close_tab-Valid id now s v =
      let noted = record s { last_close_at = some now; last_close_tab = id } in
      elim (Option-cases (closed_index id 0 s.tabs)) [
        | inl none_such ↦ Valid-Same s (close_tab p env id now s) (ground arith) v
        | inr (index, found) ↦
            let after = closed p env id index noted in
            let kept = closed-Valid id index noted v in
            ground (
              arith,
              v,
              kept,
              show_home-Valid after kept,
              switch_tab-Valid after.active_tab after kept,
            )
      ]

  pub add_tab-Valid : (tab : Tab) (s : Session) → Valid s → Valid (add_tab p env tab s)
  unfolding add_tab
  add_tab-Valid tab s (u, v) =
      let added = record s {
        sequence = suc s.sequence;
        tabs = upsert_tab s.tabs tab;
        active_tab = tab.id;
      } in
      ground (
        arith,
        persist-Same added,
        hide-Same (persist_open_tabs p env added),
        UniqueIds-upsert s.tabs tab u,
        has_tab-upsert tab.id s.tabs tab,
        eqb_iff tab.id tab.id,
      )

  pub open_settings_tab-Valid : (s : Session) → Valid s → Valid (open_settings_tab p env s)
  unfolding open_settings_tab
  open_settings_tab-Valid s (u, v) =
      let tab = settings_tab p env in
      ground (
        arith,
        hide-Same (record s { tabs = upsert_tab s.tabs tab; active_tab = codes "settings" }),
        UniqueIds-upsert s.tabs tab u,
        has_tab-upsert (codes "settings") s.tabs tab,
        eqb_iff tab.id (codes "settings"),
      )

  pub store_tab-Valid : (tab : Tab) (s : Session) → Valid s → Valid (store_tab p env tab s)
  unfolding store_tab
  store_tab-Valid tab s (u, v) =
      let stored = record s {
        tabs = upsert_tab s.tabs tab;
        active_tab = if has_tab tab.id s.tabs then s.active_tab else tab.id;
      } in
      ground (
        arith,
        v,
        persist-Same stored,
        UniqueIds-upsert s.tabs tab u,
        has_tab-upsert tab.id s.tabs tab,
        has_tab-upsert s.active_tab s.tabs tab,
        eqb_iff tab.id tab.id,
      )
