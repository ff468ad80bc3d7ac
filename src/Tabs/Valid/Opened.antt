-- ===== src/Tabs/Valid/Opened.antt =====
-- The operations that open, register, report on and restore tabs keep a session valid.
use womprat.Base.{
  Bytes, codes, ℕ, ℤ, suc, true, false, Option, none, some, List, [], ◌∷◌, ◌++◌, ◌==◌, bytes_eq,
  ◌≡◌, refl, ◌∙◌, ◌⊎◌, inl, inr, arith, eqb, eqb_iff, Bool-cases, Option-cases, Result-cases,
}
use womprat.Platform.{Platform}
use womprat.Text.Space.{trim_space}
use womprat.CustomUrl.{parse_custom_url, normalize_browser_url, CustomUrlTarget}
use womprat.Config.{SavedTab, sanitize_saved_tabs}
use womprat.Tabs.{
  Tab, Session, Env, has_tab, new_tab_id, persist_open_tabs, restore_tabs, shell_tabs, new_vnc_tab,
  new_rdp_tab, new_terminal_tab, open_target, open_special_url, add_page, new_browser_tab,
  navigate_to, navigate_browser, apply_report, update_active_browser_title, register_local_tab,
  change_browser, or_else, report_title, restore_tab, activate_first, is_empty, page_tab, call,
  show_browser, with_report, local_tab, with_scheme,
}
use womprat.Tabs.Valid.Lists.{
  UniqueIds, UniqueIds-append, UniqueIds-change, has_tab-append, has_tab-change,
}
use womprat.Tabs.Valid.Kept.{
  Valid, Valid-Same, add_tab-Valid, open_settings_tab-Valid, store_tab-Valid, persist-Same,
  new_view-Same,
}

empty_cases : (tabs : List Tab) → (is_empty tabs ≡ false) ⊎ (tabs ≡ [])
empty_cases [] = inr refl
empty_cases (t ∷ tabs) = inl refl

module _ (p : Platform) (env : Env) where
  pub new_vnc_tab-Valid :
      (now : ℕ) (raw : Bytes) (s : Session) → Valid s → Valid (new_vnc_tab p env now raw s)
  unfolding new_vnc_tab
  new_vnc_tab-Valid now raw s v =
      elim (Result-cases (parse_custom_url p (with_scheme p env (codes "vnc") raw))) [
        | inl (e, bad) ↦ Valid-Same s (new_vnc_tab p env now raw s) (ground arith) v
        | inr (t, good) ↦ elim (Bool-cases (t.scheme == codes "vnc")) [
          | inl q ↦ rw (new_vnc_tab, good, q) (add_tab-Valid p env _ s v)
          | inr q ↦ rw (new_vnc_tab, good, q) v
        ]
      ]

  pub new_rdp_tab-Valid :
      (now : ℕ) (raw : Bytes) (s : Session) → Valid s → Valid (new_rdp_tab p env now raw s)
  unfolding new_rdp_tab
  new_rdp_tab-Valid now raw s v =
      elim (Result-cases (parse_custom_url p (with_scheme p env (codes "rdp") raw))) [
        | inl (e, bad) ↦ Valid-Same s (new_rdp_tab p env now raw s) (ground arith) v
        | inr (t, good) ↦ elim (Bool-cases (t.scheme == codes "rdp")) [
          | inl q ↦ rw (new_rdp_tab, good, q) (add_tab-Valid p env _ s v)
          | inr q ↦ rw (new_rdp_tab, good, q) v
        ]
      ]

  pub new_terminal_tab-Valid :
      (now : ℕ) (host user : Bytes) (port : ℤ) (s : Session)
      → Valid s
      → Valid (new_terminal_tab p env now host user port s)
  unfolding new_terminal_tab
  new_terminal_tab-Valid now host user port s v = add_tab-Valid p env _ s v

  open_target-Valid :
      (now : ℕ) (text : Bytes) (target : CustomUrlTarget) (s : Session) {s' : Session}
      → Valid s
      → open_target p env now text target s ≡ some s'
      → Valid s'
  unfolding open_target
  open_target-Valid now text target s {s'} v h = ground (
    arith,
    h,
    new_terminal_tab-Valid now target.host (or_else target.user (codes "root")) target.port s v,
    new_vnc_tab-Valid now text s v,
    new_rdp_tab-Valid now text s v,
  )

  pub open_special_url-Valid :
      (now : ℕ) (raw : Bytes) (s : Session) {s' : Session}
      → Valid s
      → open_special_url p env now raw s ≡ some s'
      → Valid s'
  unfolding open_special_url
  open_special_url-Valid now raw s {s'} v h =
      let text = trim_space raw in
      elim (Result-cases (parse_custom_url p text)) [
        | inl (e, bad) ↦ ground (arith, h, open_settings_tab-Valid p env s v)
        | inr (t, good) ↦ ground (
          arith,
          h,
          open_settings_tab-Valid p env s v,
          open_target-Valid now text t s {s' = s'} v,
        )
      ]

  -- A page with a new id.
  add_page-Valid :
      (now : ℕ) (url : Bytes) (s : Session)
      → has_tab (new_tab_id (codes "browser") now s.sequence) s.tabs ≡ false
      → Valid s
      → Valid (add_page p env now url s)
  unfolding add_page
  add_page-Valid now url s fresh (u, v) =
      let id = new_tab_id (codes "browser") now s.sequence in
      let added = record s {
        sequence = suc s.sequence;
        tabs = s.tabs ++ (page_tab p env id url ∷ []);
        active_tab = id;
      } in
      ground (
        arith,
        persist-Same p env added,
        new_view-Same p env id url (call (show_browser id url) (persist_open_tabs p env added)),
        UniqueIds-append s.tabs (page_tab p env id url) u fresh,
        has_tab-append id s.tabs (page_tab p env id url ∷ []),
        eqb_iff id id,
      )

  navigate_to-Valid : (url : Bytes) (s : Session) → Valid s → Valid (navigate_to p env url s)
  unfolding navigate_to
  navigate_to-Valid url s (u, v) =
      let change : Tab → Tab = λ t. record t { url = url; title = url } in
      let changed = record s { tabs = change_browser s.active_tab change s.tabs } in
      ground (
        arith,
        v,
        persist-Same p env changed,
        UniqueIds-change s.active_tab change s.tabs (λ t. refl) u,
        has_tab-change s.active_tab s.active_tab change s.tabs (λ t. refl),
      )

  apply_report-Valid :
      (title url favicon : Bytes) (s : Session)
      → Valid s
      → Valid (apply_report p env title url favicon s)
  unfolding apply_report
  apply_report-Valid title url favicon s (u, v) =
      let change = with_report p env title url favicon in
      let changed = record s { tabs = change_browser s.active_tab change s.tabs } in
      ground (
        arith,
        v,
        persist-Same p env changed,
        UniqueIds-change s.active_tab change s.tabs (λ t. refl) u,
        has_tab-change s.active_tab s.active_tab change s.tabs (λ t. refl),
      )

  pub new_browser_tab-Valid :
      (now : ℕ) (raw : Bytes) (s : Session)
      → has_tab (new_tab_id (codes "browser") now s.sequence) s.tabs ≡ false
      → Valid s
      → Valid (new_browser_tab p env now raw s)
  unfolding new_browser_tab
  new_browser_tab-Valid now raw s fresh v = elim (Option-cases (open_special_url p env now raw s)) [
    | inr (s', q) ↦ rw (new_browser_tab, q) (open_special_url-Valid now raw s v q)
    | inl q ↦ elim (Result-cases (normalize_browser_url p raw)) [
      | inl (e, r) ↦ rw (new_browser_tab, q, r) v
      | inr (url, r) ↦ rw (new_browser_tab, q, r) (add_page-Valid now url s fresh v)
    ]
  ]

  pub navigate_browser-Valid :
      (now : ℕ) (raw : Bytes) (s : Session) → Valid s → Valid (navigate_browser p env now raw s)
  unfolding navigate_browser
  navigate_browser-Valid now raw s v = elim (Option-cases (open_special_url p env now raw s)) [
    | inr (s', q) ↦ rw (navigate_browser, q) (open_special_url-Valid now raw s v q)
    | inl q ↦ elim (Result-cases (normalize_browser_url p raw)) [
      | inl (e, r) ↦ rw (navigate_browser, q, r) v
      | inr (url, r) ↦ rw (navigate_browser, q, r) (navigate_to-Valid url s v)
    ]
  ]

  pub register_local_tab-Valid :
      (size : ℕ) (decoded : Option Tab) (s : Session)
      → Valid s
      → Valid (register_local_tab p env size decoded s)
  unfolding register_local_tab
  register_local_tab-Valid size none s v =
      Valid-Same s (register_local_tab p env size none s) (ground arith) v
  register_local_tab-Valid size (some tab) s v = elim (Option-cases (local_tab p env s.tabs tab)) [
    | inl q ↦ Valid-Same s (register_local_tab p env size (some tab) s) (ground arith) v
    | inr (stored, q) ↦ ground (arith, v, store_tab-Valid p env stored s v)
  ]

  pub update_title-Valid :
      (title url favicon : Bytes) (s : Session)
      → Valid s
      → Valid (update_active_browser_title p env title url favicon s)
  unfolding update_active_browser_title
  update_title-Valid title url favicon s v =
      elim (Bool-cases (eqb (report_title p env title url) [])) [
        | inl q ↦ rw (update_active_browser_title, q) v
        | inr q ↦ rw (update_active_browser_title, q) (apply_report-Valid _ _ _ s v)
      ]

  -- Each restored tab gets an id that no tab has yet.
  abbrev pub FreshIds : ℕ → List SavedTab → Session → Type 0
  FreshIds now [] s = Unit
  FreshIds now (saved ∷ more) s =
      (has_tab (new_tab_id saved.kind now s.sequence) s.tabs ≡ false)
      × FreshIds now more (restore_tab p env now saved s)

  restore_tabs-UniqueIds :
      (now : ℕ) (saved : List SavedTab) (s : Session)
      → FreshIds now saved s
      → UniqueIds s.tabs
      → UniqueIds (restore_tabs p env now saved s).tabs
  unfolding restore_tabs
  restore_tabs-UniqueIds now [] s fresh u = u
  restore_tabs-UniqueIds now (saved ∷ more) s (new, fresh) u =
      restore_tabs-UniqueIds now more (restore_tab p env now saved s) fresh
        (UniqueIds-append s.tabs _ u new)

  restore_tabs-active :
      (now : ℕ) (saved : List SavedTab) (s : Session)
      → (restore_tabs p env now saved s).active_tab ≡ s.active_tab
  unfolding restore_tabs
  restore_tabs-active now [] s = refl
  restore_tabs-active now (saved ∷ more) s =
      restore_tabs-active now more (restore_tab p env now saved s)

  activate_first-Valid :
      (s : Session) (tabs : List Tab)
      → s.tabs ≡ tabs
      → s.active_tab ≡ []
      → UniqueIds s.tabs
      → Valid (activate_first p env s)
  activate_first-Valid s [] e none_active u = rw (activate_first, e) (u, inl none_active)
  activate_first-Valid s (t ∷ tabs) e none_active u =
      rw (activate_first, e) (u, inr (rw e (ground (arith, eqb_iff t.id t.id))))

  pub shell_tabs-Valid :
      (now : ℕ) (s : Session)
      → FreshIds now
          (sanitize_saved_tabs p s.config.open_tabs)
          (record s { session_restored = true })
      → Valid s
      → Valid (shell_tabs p env now s).0
  unfolding shell_tabs
  shell_tabs-Valid now s fresh (u, v) =
      let saved = sanitize_saved_tabs p s.config.open_tabs in
      let noted = record s { session_restored = true } in
      let restored = restore_tabs p env now saved noted in
      elim (empty_cases s.tabs) [
        | inl some_tabs ↦ Valid-Same s (shell_tabs p env now s).0 (ground (arith, some_tabs)) (u, v)
        | inr no_tabs ↦
            let none_active : s.active_tab ≡ [] = ground (arith, no_tabs, v) in
            ground (
              arith,
              v,
              u,
              activate_first-Valid restored restored.tabs refl
                  (restore_tabs-active now saved noted ∙ none_active)
                  (restore_tabs-UniqueIds now saved noted fresh u),
            )
      ]
