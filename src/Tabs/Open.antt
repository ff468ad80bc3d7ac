-- ===== src/Tabs/Open.antt =====
-- The operations that open, register and change tabs.
use womprat.Base.{
  Bytes, codes, ℕ, suc, ℤ, pos, Bool, false, not, ◌&&◌, ◌||◌, Option, none, some, List, [], ◌∷◌,
  ◌++◌, ◌==◌, ◌!=◌, bytes_eq, int_eq, ltb, if◌then◌else◌, ok, err, any, nat_eq,
}
use womprat.Platform.{Platform}
use womprat.Text.Search.{contains}
use womprat.Text.Space.{trim_space}
use womprat.CustomUrl.{
  CustomUrlTarget, canonical_url, parse_custom_url, normalize_browser_url, is_browser_url,
}
use womprat.Config.{SavedTab, sanitize_saved_tab, sanitize_browser_title, sanitize_favicon_url}
use womprat.Tabs.Defs.{
  Tab, empty_tab, Session, Env, open_settings, activate, ensure_view, show_view, show_browser,
  navigate_view, content_error, blank_browser_url, valid_tab_id, new_tab_id, find_tab, has_tab,
  upsert_tab, change_browser, is_browser_with, saved_tab, call,
}
use womprat.Tabs.Change.{persist_open_tabs, hide_browser_content}

abbrev pub or_else : Bytes → Bytes → Bytes
or_else text default = if text == [] then default else text

module _ (p : Platform) (env : Env) where
  abbrev pub settings_tab : Tab
  settings_tab = record empty_tab {
    id = codes "settings";
    kind = codes "settings";
    title = codes "Settings";
    url = codes "settings:";
  }

  unfoldable pub open_settings_tab : Session → Session
  open_settings_tab s = call open_settings (
      hide_browser_content p env
        (record s { tabs = upsert_tab s.tabs settings_tab; active_tab = codes "settings" }))

  -- the end of `newVNCTab`, `newRDPTab` and `newTerminalTab`: the tab is stored, saved and shown
  unfoldable pub add_tab : Tab → Session → Session
  add_tab tab s = call (activate tab.id) (
      hide_browser_content p env (
        persist_open_tabs p env (record s {
          sequence = suc s.sequence;
          tabs = upsert_tab s.tabs tab;
          active_tab = tab.id;
        })))

  abbrev pub with_scheme : Bytes → Bytes → Bytes
  with_scheme scheme raw =
      let text = trim_space raw in
      if text != [] && not (contains text (codes "://"))
      then scheme ++ codes "://" ++ text
      else text

  unfoldable pub new_vnc_tab : ℕ → Bytes → Session → Session
  new_vnc_tab now raw s = elim (parse_custom_url p (with_scheme (codes "vnc") raw)) [
    | err e ↦ s
    | ok custom ↦
        if custom.scheme != codes "vnc"
        then s
        else add_tab
            (record empty_tab {
              id = new_tab_id (codes "vnc") now s.sequence;
              kind = codes "vnc";
              title = canonical_url p custom;
              url = canonical_url p custom;
              host = custom.host;
              port = custom.port;
            })
            s
  ]

  unfoldable pub new_rdp_tab : ℕ → Bytes → Session → Session
  new_rdp_tab now raw s = elim (parse_custom_url p (with_scheme (codes "rdp") raw)) [
    | err e ↦ s
    | ok custom ↦
        if custom.scheme != codes "rdp"
        then s
        else add_tab
            (record empty_tab {
              id = new_tab_id (codes "rdp") now s.sequence;
              kind = codes "rdp";
              title = canonical_url p custom;
              url = canonical_url p custom;
              host = custom.host;
              user = custom.user;
              port = custom.port;
            })
            s
  ]

  unfoldable pub new_terminal_tab : ℕ → Bytes → Bytes → ℤ → Session → Session
  new_terminal_tab now host user port s =
      add_tab
        (record empty_tab {
          id = new_tab_id (codes "term") now s.sequence;
          kind = codes "terminal";
          title = host;
          host = host;
          user = or_else user (codes "root");
          port = if port == pos 0 then pos 22 else port;
        })
        s

  unfoldable pub open_target : ℕ → Bytes → CustomUrlTarget → Session → Option Session
  open_target now text target s =
      if target.scheme == codes "ssh"
      then some
          (new_terminal_tab now target.host (or_else target.user (codes "root")) target.port s)
      else if target.scheme == codes "vnc"
      then some (new_vnc_tab now text s)
      else if target.scheme == codes "rdp"
      then some (new_rdp_tab now text s)
      else none

  -- `openSpecialURL`: the next session if the address was special
  unfoldable pub open_special_url : ℕ → Bytes → Session → Option Session
  open_special_url now raw s =
      let text = trim_space raw in
      if p.equal_fold text (codes "settings:") || p.equal_fold text (codes "settings")
      then some (open_settings_tab s)
      else elim (parse_custom_url p text) [
        | err e ↦ none
        | ok target ↦ open_target now text target s
      ]

  -- the native view of a new page
  unfoldable pub new_view : Bytes → Bytes → Session → Session
  new_view id url s =
      if not env.has_views
      then call (content_error id) s
      else if env.makes_view s.calls id
      then call (navigate_view id url) (call (show_view id) (call (ensure_view id) s))
      else call (ensure_view id) s

  abbrev pub page_tab : Bytes → Bytes → Tab
  page_tab id url = record empty_tab { id = id; kind = codes "browser"; title = url; url = url }

  unfoldable pub add_page : ℕ → Bytes → Session → Session
  add_page now url s =
      let id = new_tab_id (codes "browser") now s.sequence in
      new_view id url (
        call (show_browser id url) (
          persist_open_tabs p env (record s {
            sequence = suc s.sequence;
            tabs = s.tabs ++ (page_tab id url ∷ []);
            active_tab = id;
          })))

  unfoldable pub new_browser_tab : ℕ → Bytes → Session → Session
  new_browser_tab now raw s = elim (open_special_url now raw s) [
    | some s' ↦ s'
    | none ↦ elim (normalize_browser_url p raw) [ err e ↦ s | ok url ↦ add_page now url s ]
  ]

  abbrev pub shown_page : Bytes → Bytes → Session → Session
  shown_page id url s =
      let told = call (show_browser id url) s in
      if env.has_views
      then call (navigate_view id url) (call (show_view id) (call (ensure_view id) told))
      else told

  unfoldable pub navigate_to : Bytes → Session → Session
  navigate_to url s =
      let saved = persist_open_tabs p env (record s {
        tabs = change_browser s.active_tab (λ t. record t { url = url; title = url }) s.tabs;
      }) in
      if any (is_browser_with s.active_tab) s.tabs && s.active_tab != []
      then shown_page s.active_tab url saved
      else saved

  unfoldable pub navigate_browser : ℕ → Bytes → Session → Session
  navigate_browser now raw s = elim (open_special_url now raw s) [
    | some s' ↦ s'
    | none ↦ elim (normalize_browser_url p raw) [ err e ↦ s | ok url ↦ navigate_to url s ]
  ]

  -- the fields of a page that a report about it changes
  abbrev pub with_report : Bytes → Bytes → Bytes → Tab → Tab
  with_report title url favicon t = record t {
    title = title;
    url = if url == [] then t.url else url;
    favicon = if favicon == [] then t.favicon else favicon;
  }

  abbrev is_changed : Bytes → Bytes → Bytes → Bytes → Tab → Bool
  is_changed id title url favicon t =
      is_browser_with id t
      && (t.title != title || url != [] && t.url != url || favicon != [] && t.favicon != favicon)

  -- whether the first browser tab with this id changes
  pub report_changes : Bytes → Bytes → Bytes → Bytes → List Tab → Bool
  report_changes id title url favicon [] = false
  report_changes id title url favicon (t ∷ tabs) =
      let rest = report_changes id title url favicon tabs in
      if is_browser_with id t then is_changed id title url favicon t else rest

  unfoldable pub apply_report : Bytes → Bytes → Bytes → Session → Session
  apply_report title url favicon s =
      let changed = record s {
        tabs = change_browser s.active_tab (with_report title url favicon) s.tabs;
      } in
      if report_changes s.active_tab title url favicon s.tabs
      then persist_open_tabs p env changed
      else changed

  -- The address that a report gives; one of the engine's own error pages counts as none.
  abbrev pub report_url : Bytes → Bytes
  report_url raw_url =
      let url = trim_space raw_url in if url != [] && not (is_browser_url p url) then [] else url

  abbrev pub report_favicon : Bytes → Bytes → Bytes
  report_favicon raw_url raw_favicon =
      let url = trim_space raw_url in
      if url != [] && not (is_browser_url p url) then [] else sanitize_favicon_url p raw_favicon

  abbrev pub report_title : Bytes → Bytes → Bytes
  report_title raw_title raw_url = or_else (sanitize_browser_title raw_title) (report_url raw_url)

  -- `updateActiveBrowserTitle`
  unfoldable pub update_active_browser_title : Bytes → Bytes → Bytes → Session → Session
  update_active_browser_title raw_title raw_url raw_favicon s =
      if report_title raw_title raw_url == []
      then s
      else apply_report (report_title raw_title raw_url) (report_url raw_url)
          (report_favicon raw_url raw_favicon) s

  -- the empty fields, from the tab that has the id already
  abbrev fill : Tab → Tab → Tab
  fill old tab = record tab {
    kind = or_else tab.kind old.kind;
    title = or_else tab.title old.title;
    host = or_else tab.host old.host;
    user = or_else tab.user old.user;
    port = if tab.port == pos 0 then old.port else tab.port;
    url = or_else tab.url old.url;
    favicon = or_else tab.favicon old.favicon;
  }

  abbrev filled : Option Tab → Tab → Tab
  filled none tab = tab
  filled (some old) tab = fill old tab

  abbrev of_saved : Bytes → SavedTab → Tab
  of_saved id saved = record {
    id = id;
    kind = saved.kind;
    title = saved.title;
    url = saved.url;
    favicon = saved.favicon;
    host = saved.host;
    user = saved.user;
    port = saved.port;
  }

  -- the tab that is registered, if it is acceptable
  pub local_tab : List Tab → Tab → Option Tab
  local_tab tabs tab =
      if tab.kind == codes "settings"
      then some settings_tab
      else if tab.kind == codes "browser" && p.equal_fold (trim_space tab.url) blank_browser_url
      then some (record empty_tab {
        id = tab.id;
        kind = codes "browser";
        title = codes "New tab";
        url = blank_browser_url;
      })
      else elim (sanitize_saved_tab p (saved_tab (filled (find_tab tab.id tabs) tab))) [
        | none ↦ none
        | some saved ↦ some (of_saved tab.id saved)
      ]

  unfoldable pub store_tab : Tab → Session → Session
  store_tab tab s = persist_open_tabs p env (record s {
    tabs = upsert_tab s.tabs tab;
    active_tab = if has_tab tab.id s.tabs then s.active_tab else tab.id;
  })

  -- `registerLocalTab`, where `decoded` is what `json.Unmarshal` makes of a text of `size` bytes
  unfoldable pub register_local_tab : ℕ → Option Tab → Session → Session
  register_local_tab size decoded s = if ltb 65536 size then s else elim decoded [
    | none ↦ s
    | some tab ↦
        if not (valid_tab_id tab.id)
        then s
        else elim (local_tab s.tabs tab) [ none ↦ s | some stored ↦ store_tab stored s ]
  ]
