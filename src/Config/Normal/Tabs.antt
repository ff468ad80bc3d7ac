-- ===== src/Config/Normal/Tabs.antt =====
-- Every saved tab is valid for its kind.
use womprat.Base.{
  Bytes, codes, ℕ, ℤ, pos, negsuc, true, false, ◌||◌, Option, none, some, List, [], ◌∷◌, bytes_eq,
  int_eq, leb_ℤ, ltb_ℤ, ltb, length, take, ok, is_ok, ◌≡◌, ◌≢◌, refl, ◌∙◌, ◌⊎◌, inl, inr, ◌≤◌,
  arith, All, All-take, eqb_iff, Bool-cases, Result-cases, length-take,
}
use womprat.Platform.{Platform}
use womprat.CustomUrl.{
  CustomUrlTarget, canonical_url, parse_custom_url, validate_custom_url_host,
  validate_custom_url_user, normalize_browser_url,
}
use womprat.CustomUrl.Valid.{IsTarget, parse_custom_url-IsTarget}
use womprat.Config.Defs.{SavedTab}
use womprat.Config.Sanitize.{
  browser_tab, terminal_tab, remote_tab, remote_url, trimmed_tab, tab_by_kind, sanitize_saved_tab,
  append_tab, sanitize_all, sanitize_saved_tabs,
}

module _ (p : Platform) where
  -- A terminal tab: what `ssh` needs.
  pub record IsTerminal (tab : SavedTab) : Type 0 where
    pub kind : tab.kind ≡ codes "terminal"
    pub host : is_ok (validate_custom_url_host p tab.host) ≡ true
    pub user : is_ok (validate_custom_url_user tab.user) ≡ true
    pub named : tab.user ≢ []
    pub port : (n : ℕ) × (tab.port ≡ pos n) × (1 ≤ n) × (n ≤ 65535)

  -- A page: the address is one that `normalizeBrowserURL` returned.
  pub record IsBrowser (tab : SavedTab) : Type 0 where
    pub kind : tab.kind ≡ codes "browser"
    pub raw : Bytes
    pub url : normalize_browser_url p raw ≡ ok tab.url

  -- A remote desktop: the fields are those of a parsed address, and the URL is its canonical form.
  pub record IsRemote (tab : SavedTab) : Type 0 where
    pub kind : (tab.kind ≡ codes "vnc") ⊎ (tab.kind ≡ codes "rdp")
    pub target :
        IsTarget p (record { scheme = tab.kind; host = tab.host; port = tab.port; user = tab.user })
    pub url :
        tab.url
        ≡ canonical_url p
            (record { scheme = tab.kind; host = tab.host; port = tab.port; user = tab.user })

  abbrev pub IsTab : SavedTab → Type 0
  IsTab tab = IsBrowser tab ⊎ IsTerminal tab ⊎ IsRemote tab

  browser_tab-IsBrowser :
      (tab : SavedTab) {out : SavedTab}
      → tab.kind ≡ codes "browser"
      → browser_tab p tab ≡ some out
      → IsBrowser out
  unfolding browser_tab
  browser_tab-IsBrowser tab {out} k h = elim (Result-cases (normalize_browser_url p tab.url)) [
    | inl (_, bad) ↦ absurd (ground arith)
    | inr (url, good) ↦ record { kind = ground arith; raw = tab.url; url = ground arith }
  ]

  port_range :
      (n : ℤ)
      → leb_ℤ n (pos 0) || ltb_ℤ (pos 65535) n ≡ false
      → (m : ℕ) × (n ≡ pos m) × (1 ≤ m) × (m ≤ 65535)
  port_range (negsuc m) h = absurd (ground arith)
  port_range (pos m) h = (m, refl, ground arith, ground arith)

  -- The checks of `terminal_tab`, as facts about its result.
  terminal_tab-eq-some :
      (tab : SavedTab) {out : SavedTab}
      → terminal_tab p tab ≡ some out
      → (out.kind ≡ tab.kind)
        × (is_ok (validate_custom_url_host p out.host) ≡ true)
        × (is_ok (validate_custom_url_user out.user) ≡ true)
        × (out.user ≢ [])
        × (leb_ℤ out.port (pos 0) || ltb_ℤ (pos 65535) out.port ≡ false)
  unfolding terminal_tab
  terminal_tab-eq-some tab {out} h = ground (arith, eqb_iff tab.user [])

  terminal_tab-IsTerminal :
      (tab : SavedTab) {out : SavedTab}
      → tab.kind ≡ codes "terminal"
      → terminal_tab p tab ≡ some out
      → IsTerminal out
  terminal_tab-IsTerminal tab {out} k h =
      let (kind, host, user, named, port) = terminal_tab-eq-some tab h in
      record {
        kind = kind ∙ k;
        host = host;
        user = user;
        named = named;
        port = port_range out.port port;
      }

  remote_tab-eq-some :
      (tab : SavedTab) {out : SavedTab}
      → remote_tab p tab ≡ some out
      → (t : CustomUrlTarget) × (parse_custom_url p (remote_url p tab) ≡ ok t)
        × (t.scheme ≡ tab.kind)
        × (out.kind ≡ tab.kind)
        × (out.host ≡ t.host)
        × (out.port ≡ t.port)
        × (out.user ≡ t.user)
        × (out.url ≡ canonical_url p t)
  unfolding remote_tab
  remote_tab-eq-some tab {out} h = elim (Result-cases (parse_custom_url p (remote_url p tab))) [
    | inl (_, bad) ↦ absurd (ground arith)
    | inr (t, good) ↦
        let same : t.scheme ≡ tab.kind = ground (arith, eqb_iff t.scheme tab.kind) in
        (t, good, same, ground arith, ground arith, ground arith, ground arith, ground arith)
  ]

  remote_tab-IsRemote :
      (tab : SavedTab) {out : SavedTab}
      → (lower_idem : (s : Bytes) → p.to_lower (p.to_lower s) ≡ p.to_lower s)
      → (tab.kind ≡ codes "vnc") ⊎ (tab.kind ≡ codes "rdp")
      → remote_tab p tab ≡ some out
      → IsRemote out
  remote_tab-IsRemote tab {out} lower_idem k h =
      let (t, parsed, scheme, kind, host, port, user, url) = remote_tab-eq-some tab h in
      let same : t
          ≡ record { scheme = out.kind; host = out.host; port = out.port; user = out.user } =
        cc in
      record {
        kind = rw kind k;
        target = rw (← same) (parse_custom_url-IsTarget p lower_idem (remote_url p tab) parsed);
        url = rw (← same) url;
      }

  tab_by_kind-cases :
      (tab : SavedTab) {out : SavedTab}
      → tab_by_kind p tab ≡ some out
      → ((tab.kind ≡ codes "browser") × (browser_tab p tab ≡ some out))
        ⊎ ((tab.kind ≡ codes "terminal") × (terminal_tab p tab ≡ some out))
        ⊎ (((tab.kind ≡ codes "vnc") ⊎ (tab.kind ≡ codes "rdp")) × (remote_tab p tab ≡ some out))
  unfolding tab_by_kind
  tab_by_kind-cases tab {out} h = ground (
    arith,
    eqb_iff tab.kind (codes "browser"),
    eqb_iff tab.kind (codes "terminal"),
    eqb_iff tab.kind (codes "vnc"),
    eqb_iff tab.kind (codes "rdp"),
  )

  sanitize_saved_tabs-cases :
      (tabs : List SavedTab)
      → ((sanitize_saved_tabs p tabs ≡ sanitize_all p tabs) × (length (sanitize_all p tabs) ≤ 100))
        ⊎ (sanitize_saved_tabs p tabs ≡ take 100 (sanitize_all p tabs))
  sanitize_saved_tabs-cases tabs = elim (Bool-cases (ltb 100 (length (sanitize_all p tabs)))) [
    | inl long ↦ inr (unfold sanitize_saved_tabs in rw long)
    | inr short ↦ inl (unfold sanitize_saved_tabs in rw short, ground arith)
  ]

  module _ (lower_idem : (s : Bytes) → p.to_lower (p.to_lower s) ≡ p.to_lower s) where
    tab_by_kind-IsTab : (tab : SavedTab) {out : SavedTab} → tab_by_kind p tab ≡ some out → IsTab out
    tab_by_kind-IsTab tab {out} h = elim (tab_by_kind-cases tab h) [
      | inl (kind, good) ↦ inl (browser_tab-IsBrowser tab kind good)
      | inr (inl (kind, good)) ↦ inr (inl (terminal_tab-IsTerminal tab kind good))
      | inr (inr (kind, good)) ↦ inr (inr (remote_tab-IsRemote tab lower_idem kind good))
    ]

    append_tab-IsTab :
        (o : Option SavedTab) (rest : List SavedTab)
        → ((out : SavedTab) → o ≡ some out → IsTab out)
        → All IsTab rest
        → All IsTab (append_tab o rest)
    unfolding append_tab
    append_tab-IsTab none rest good h = h
    append_tab-IsTab (some tab) rest good h = (good tab refl, h)

    sanitize_all-IsTab : (tabs : List SavedTab) → All IsTab (sanitize_all p tabs)
    unfolding sanitize_all
    sanitize_all-IsTab [] = tt
    sanitize_all-IsTab (tab ∷ tabs) =
        append_tab-IsTab (sanitize_saved_tab p tab) (sanitize_all p tabs)
          (λ out good. tab_by_kind-IsTab (trimmed_tab p tab) (unfold sanitize_saved_tab in good))
          (sanitize_all-IsTab tabs)

    -- Whatever the tabs were, at most 100 are saved, and each is a page, a terminal or a remote
    -- desktop whose fields passed the checks for its kind;
    -- lower-casing twice is assumed to be lower-casing once.
    pub sanitize_saved_tabs-IsTab :
        (tabs : List SavedTab)
        → All IsTab (sanitize_saved_tabs p tabs) × (length (sanitize_saved_tabs p tabs) ≤ 100)
    sanitize_saved_tabs-IsTab tabs = elim (sanitize_saved_tabs-cases tabs) [
      | inl (same, short) ↦ rw same (sanitize_all-IsTab tabs, short)
      | inr cut ↦ rw cut (
        All-take IsTab 100 _ (sanitize_all-IsTab tabs),
        omega (arith, length-take 100 (sanitize_all p tabs)),
      )
    ]
