-- ===== src/Tabs/Change.antt =====
-- The operations that save, restore, switch, move and close tabs, and `goHome`.
use womprat.Base.{
  Bytes, codes, ℕ, suc, ◌-◌, Bool, true, false, not, ◌&&◌, ◌||◌, none, some, List, [], ◌∷◌, ◌++◌,
  ◌==◌, ◌!=◌, nat_eq, bytes_eq, keep, ltb, if◌then◌else◌,
}
use womprat.Platform.{Platform}
use womprat.Config.{SavedTab, save_config, sanitize_saved_tabs}
use womprat.Tabs.Defs.{
  Tab, Session, Env, hide_views, go_home, activate, ensure_view, show_view, destroy_view,
  navigate_view, is_blank_browser_tab, valid_tab_id, new_tab_id, find_tab, remove_first, insert_tab,
  closed_index, neighbour, saved_tabs, call,
}

abbrev pub is_empty : List Tab → Bool
is_empty [] = true
is_empty (_ ∷ _) = false

module _ (p : Platform) (env : Env) where
  -- `persistOpenTabs`
  unfoldable pub persist_open_tabs : Session → Session
  persist_open_tabs s =
      let saved = saved_tabs s.tabs in
      elim (save_config p env.resolves env.writes (record s.config { open_tabs = saved })) [
        | none ↦ s
        | some written ↦ record s {
          config = record s.config { open_tabs = saved };
          file = some written;
        }
      ]

  -- `destroyContentOnUI` and `hideBrowserContentOnUI`
  unfoldable pub destroy_content : Bytes → Session → Session
  destroy_content id s = if env.has_views then call (destroy_view id) s else s

  unfoldable pub hide_browser_content : Session → Session
  hide_browser_content s = if env.has_views then call hide_views s else s

  unfoldable pub clear_active_tab : Session → Session
  clear_active_tab s = hide_browser_content (record s { active_tab = [] })

  unfoldable pub show_home : Session → Session
  show_home s = call go_home (clear_active_tab s)

  -- The native view of a page is made when it is first shown.
  unfoldable pub show_content : Bytes → Bytes → Session → Session
  show_content id url s =
      if not env.has_views
      then s
      else if env.has_view s.calls id
      then call (show_view id) s
      else if url == []
      then call (show_view id) (call (ensure_view id) s)
      else call (show_view id) (call (navigate_view id url) (call (ensure_view id) s))

  -- what `switchTab` shows for the kind of the tab
  unfoldable pub show_tab : Tab → Session → Session
  show_tab tab s =
      if tab.kind == codes "browser"
      then (if is_blank_browser_tab tab
          then call (activate tab.id) (hide_browser_content s)
          else show_content tab.id tab.url (call (activate tab.id) s))
      else if tab.kind == codes "terminal"
          || tab.kind == codes "settings"
          || tab.kind == codes "vnc"
          || tab.kind == codes "rdp"
      then call (activate tab.id) (hide_browser_content s)
      else s

  unfoldable pub switch_tab : Bytes → Session → Session
  switch_tab id s = if not (valid_tab_id id) then s else elim (find_tab id s.tabs) [
    | none ↦ s
    | some tab ↦ show_tab tab (record s { active_tab = id })
  ]

  unfoldable pub reorder_tab : Bytes → Bytes → Session → Session
  reorder_tab id before s = if not (valid_tab_id id) then s else elim (find_tab id s.tabs) [
    | none ↦ s
    | some tab ↦
        persist_open_tabs (record s { tabs = insert_tab before tab (remove_first id s.tabs) })
  ]

  unfoldable pub forget_tab : Bytes → Session → Session
  forget_tab id s =
      if not (valid_tab_id id)
      then s
      else persist_open_tabs (
          destroy_content id (record s {
            tabs = keep (λ t. t.id != id) s.tabs;
            active_tab = if s.active_tab == id then [] else s.active_tab;
          }))

  abbrev is_duplicate : Bytes → ℕ → Session → Bool
  is_duplicate id now s = elim s.last_close_at [
    | none ↦ false
    | some at ↦ id == s.last_close_tab && ltb (now - at) 250
  ]

  -- the state behind the removal
  unfoldable pub closed : Bytes → ℕ → Session → Session
  closed id index s =
      let rest = keep (λ t. t.id != id) s.tabs in
      persist_open_tabs (
        destroy_content id (record s {
          tabs = rest;
          active_tab = if s.active_tab == id then neighbour rest index else s.active_tab;
        }))

  unfoldable pub close_tab : Bytes → ℕ → Session → Session
  close_tab id now s =
      if not (valid_tab_id id)
      then s
      else if is_duplicate id now s
      then s
      else let noted = record s { last_close_at = some now; last_close_tab = id } in
        elim (closed_index id 0 s.tabs) [
          | none ↦ noted
          | some index ↦
              let after = closed id index noted in
              if is_empty after.tabs || after.active_tab == []
              then show_home after
              else if s.active_tab == id
              then switch_tab after.active_tab after
              else after
        ]

  -- one turn of the loop of `shellTabs`, which makes an id
  abbrev pub restore_tab : ℕ → SavedTab → Session → Session
  restore_tab now saved s = record s {
    sequence = suc s.sequence;
    tabs =
        s.tabs
        ++ (record {
          id = new_tab_id saved.kind now s.sequence;
          kind = saved.kind;
          title = saved.title;
          url = saved.url;
          favicon = saved.favicon;
          host = saved.host;
          user = saved.user;
          port = saved.port;
        }
            ∷ []);
  }

  unfoldable pub restore_tabs : ℕ → List SavedTab → Session → Session
  restore_tabs now [] s = s
  restore_tabs now (saved ∷ more) s = restore_tabs now more (restore_tab now saved s)

  abbrev pub activate_first : Session → Session
  activate_first s = elim s.tabs [ [] ↦ s | t ∷ _ ↦ record s { active_tab = t.id } ]

  -- `shellTabs`: the session, and the tabs and the active tab that the shell is told
  unfoldable pub shell_tabs : ℕ → Session → Session × (List Tab × Bytes)
  shell_tabs now s =
      if s.locked
      then (s, ([], []))
      else if s.session_restored
      then (s, (s.tabs, s.active_tab))
      else let noted = record s { session_restored = true } in
        let restored =
          if s.config.restore_tabs && is_empty s.tabs
          then activate_first (restore_tabs now (sanitize_saved_tabs p s.config.open_tabs) noted)
          else noted in
        (restored, (restored.tabs, restored.active_tab))
