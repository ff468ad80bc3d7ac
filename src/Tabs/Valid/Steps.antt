-- ===== src/Tabs/Valid/Steps.antt =====
-- Histories of calls of the tab operations.
use womprat.Base.{Bytes, codes, ℕ, ℤ, true, false, Option, [], ◌≡◌, inl, refl}
use womprat.Platform.{Platform}
use womprat.Config.{sanitize_saved_tabs}
use womprat.Tabs.{
  Tab, Session, Env, has_tab, new_tab_id, switch_tab, reorder_tab, forget_tab, close_tab,
  shell_tabs, new_vnc_tab, new_rdp_tab, new_terminal_tab, new_browser_tab, navigate_browser,
  update_active_browser_title, register_local_tab, open_settings_tab,
}
use womprat.Tabs.Valid.Kept.{
  Valid, switch_tab-Valid, reorder_tab-Valid, forget_tab-Valid, close_tab-Valid,
  open_settings_tab-Valid,
}
use womprat.Tabs.Valid.Opened.{
  FreshIds, new_vnc_tab-Valid, new_rdp_tab-Valid, new_terminal_tab-Valid, new_browser_tab-Valid,
  navigate_browser-Valid, register_local_tab-Valid, update_title-Valid, shell_tabs-Valid,
}

-- One call, with the time where the operation reads the clock.
pub data Op : Type 0 where
  switch forget : Bytes → Op
  reorder : Bytes → Bytes → Op
  close : Bytes → ℕ → Op
  shell : ℕ → Op
  settings : Op
  vnc rdp browse navigate : ℕ → Bytes → Op
  terminal : ℕ → Bytes → Bytes → ℤ → Op
  report : Bytes → Bytes → Bytes → Op
  register : ℕ → Option Tab → Op

module _ (p : Platform) (env : Env) where
  pub apply : Op → Session → Session
  apply (switch id) s = switch_tab p env id s
  apply (forget id) s = forget_tab p env id s
  apply (reorder id before) s = reorder_tab p env id before s
  apply (close id now) s = close_tab p env id now s
  apply (shell now) s = (shell_tabs p env now s).0
  apply settings s = open_settings_tab p env s
  apply (vnc now raw) s = new_vnc_tab p env now raw s
  apply (rdp now raw) s = new_rdp_tab p env now raw s
  apply (browse now raw) s = new_browser_tab p env now raw s
  apply (navigate now raw) s = navigate_browser p env now raw s
  apply (terminal now host user port) s = new_terminal_tab p env now host user port s
  apply (report title url favicon) s = update_active_browser_title p env title url favicon s
  apply (register size decoded) s = register_local_tab p env size decoded s

  -- Where an operation appends a tab under an id that `newTabID` made, no tab has that id: the shell
  -- may register any id, and only the time and the sequence number keep it from one to come.
  abbrev pub Fresh : Op → Session → Type 0
  Fresh (browse now raw) s = has_tab (new_tab_id (codes "browser") now s.sequence) s.tabs ≡ false
  Fresh (shell now) s =
      FreshIds p env now (sanitize_saved_tabs p s.config.open_tabs)
        (record s { session_restored = true })
  Fresh _ s = Unit

  -- What calls in any order lead to, from a program that starts without tabs.
  pub data Reached : Session → Type 0 where
    start : {s : Session} → s.tabs ≡ [] → s.active_tab ≡ [] → Reached s
    step : {s : Session} (op : Op) → Fresh op s → Reached s → Reached (apply op s)

  apply-Valid : (op : Op) (s : Session) → Fresh op s → Valid s → Valid (apply op s)
  unfolding apply
  apply-Valid (switch id) s fresh v = switch_tab-Valid p env id s v
  apply-Valid (forget id) s fresh v = forget_tab-Valid p env id s v
  apply-Valid (reorder id before) s fresh v = reorder_tab-Valid p env id before s v
  apply-Valid (close id now) s fresh v = close_tab-Valid p env id now s v
  apply-Valid (shell now) s fresh v = shell_tabs-Valid p env now s fresh v
  apply-Valid settings s fresh v = open_settings_tab-Valid p env s v
  apply-Valid (vnc now raw) s fresh v = new_vnc_tab-Valid p env now raw s v
  apply-Valid (rdp now raw) s fresh v = new_rdp_tab-Valid p env now raw s v
  apply-Valid (browse now raw) s fresh v = new_browser_tab-Valid p env now raw s fresh v
  apply-Valid (navigate now raw) s fresh v = navigate_browser-Valid p env now raw s v
  apply-Valid (terminal now host user port) s fresh v =
      new_terminal_tab-Valid p env now host user port s v
  apply-Valid (report title url favicon) s fresh v = update_title-Valid p env title url favicon s v
  apply-Valid (register size decoded) s fresh v = register_local_tab-Valid p env size decoded s v

  -- After any calls of the tab operations, in any order, no two tabs have the same id and the active
  -- tab, if there is one, is among the tabs; where an id is made for an appended tab, it is assumed
  -- that no tab has it yet.
  pub Reached-Valid : (s : Session) → Reached s → Valid s
  Reached-Valid s (start no_tabs none_active) = rw (no_tabs, none_active) (tt, inl refl)
  Reached-Valid s (step {s = s'} op fresh r) = apply-Valid op s' fresh (Reached-Valid s' r)
