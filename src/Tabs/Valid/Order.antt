-- ===== src/Tabs/Valid/Order.antt =====
-- Where a moved tab goes.
use womprat.Base.{
  Bytes, true, false, Option, none, some, List, [], ◌∷◌, ◌++◌, ◌==◌, bytes_eq, ◌≡◌, ◌≢◌, refl, inl,
  inr, arith, eqb, eqb_iff, Bool-cases, Option-cases, if◌then◌else◌,
}
use womprat.Platform.{Platform}
use womprat.Tabs.{
  Tab, Session, Env, has_tab, find_tab, valid_tab_id, remove_first, insert_before, insert_tab,
  reorder_tab,
}
use womprat.Tabs.Valid.Lists.{find_tab-eq-some, has_tab-remove}
use womprat.Tabs.Valid.Kept.{Valid, persist-Same}

-- The id of the tab behind the first one with this id.
pub next_id : Bytes → List Tab → Option Bytes
next_id id [] = none
next_id id (t ∷ []) = none
next_id id (t ∷ t' ∷ tabs) =
    let rest = next_id id (t' ∷ tabs) in if t.id == id then some t'.id else rest

remove_first-absent :
    (id : Bytes) (tabs : List Tab) → has_tab id tabs ≡ false → remove_first id tabs ≡ tabs
unfolding remove_first
remove_first-absent id [] h = refl
remove_first-absent id (t ∷ tabs) h = ground (arith, remove_first-absent id tabs)

remove_first-append :
    (id : Bytes) (t : Tab) (tabs : List Tab)
    → t.id ≡ id
    → has_tab id tabs ≡ false
    → remove_first id (tabs ++ (t ∷ [])) ≡ tabs
unfolding remove_first
remove_first-append id t [] e h = ground (arith, eqb_iff t.id id)
remove_first-append id t (t' ∷ tabs) e h = ground (arith, remove_first-append id t tabs e)

remove_first-insert_before :
    (id before : Bytes) (t : Tab) (tabs : List Tab)
    → t.id ≡ id
    → has_tab id tabs ≡ false
    → remove_first id (insert_before before t tabs) ≡ tabs
unfolding remove_first insert_before
remove_first-insert_before id before t [] e h = ground (arith, eqb_iff t.id id)
remove_first-insert_before id before t (t' ∷ tabs) e h =
    ground (arith, remove_first-insert_before id before t tabs e, eqb_iff t.id id)

remove_first-insert :
    (id before : Bytes) (t : Tab) (tabs : List Tab)
    → t.id ≡ id
    → has_tab id tabs ≡ false
    → remove_first id (insert_tab before t tabs) ≡ tabs
unfolding insert_tab
remove_first-insert id before t tabs e h =
    ground
      (arith, remove_first-append id t tabs e h, remove_first-insert_before id before t tabs e h)

next_id-insert_before :
    (id before : Bytes) (t : Tab) (tabs : List Tab)
    → t.id ≡ id
    → has_tab id tabs ≡ false
    → has_tab before tabs ≡ true
    → next_id id (insert_before before t tabs) ≡ some before
unfolding next_id insert_before
next_id-insert_before id before t [] e h present = ground arith
next_id-insert_before id before t (t' ∷ []) e h present =
    ground (arith, eqb_iff t.id id, eqb_iff t'.id before)
next_id-insert_before id before t (t' ∷ t'' ∷ tabs) e h present =
    ground (
      arith,
      eqb_iff t.id id,
      eqb_iff t'.id before,
      next_id-insert_before id before t (t'' ∷ tabs) e,
    )

has_tab-eq-true :
    (id : Bytes) (tabs : List Tab)
    → has_tab id tabs ≡ true
    → (t : Tab) × (find_tab id tabs ≡ some t)
unfolding find_tab
has_tab-eq-true id [] h = absurd (ground arith)
has_tab-eq-true id (t ∷ tabs) h = elim (Bool-cases (eqb t.id id)) [
  | inl here ↦ (t, rw here)
  | inr later ↦ let (t', found) = has_tab-eq-true id tabs (ground arith) in (t', rw later found)
]

module _ (p : Platform) (env : Env) where
  -- Moving a tab leaves the others in their order: without the moved tab, the list is as before.
  pub reorder_tab-others :
      (id before : Bytes) (s : Session)
      → Valid s
      → remove_first id (reorder_tab p env id before s).tabs ≡ remove_first id s.tabs
  unfolding reorder_tab
  reorder_tab-others id before s (u, v) = elim (Option-cases (find_tab id s.tabs)) [
    | inl none_such ↦ ground (arith, none_such)
    | inr (tab, found) ↦
        let rest = remove_first id s.tabs in
        let (same, _) = find_tab-eq-some id s.tabs found in
        let gone : has_tab id rest ≡ false =
          ground (arith, has_tab-remove id id s.tabs u, eqb_iff id id) in
        ground (
          arith,
          found,
          persist-Same p env (record s { tabs = insert_tab before tab rest }),
          remove_first-insert id before tab rest same gone,
        )
  ]

  -- A tab that is moved in front of another one stands directly before it.
  pub reorder_tab-before :
      (id before : Bytes) (s : Session)
      → Valid s
      → valid_tab_id id ≡ true
      → has_tab id s.tabs ≡ true
      → has_tab before s.tabs ≡ true
      → before ≢ id
      → before ≢ []
      → next_id id (reorder_tab p env id before s).tabs ≡ some before
  unfolding reorder_tab insert_tab
  reorder_tab-before id before s (u, v) good present other_present differs named =
      let (tab, found) = has_tab-eq-true id s.tabs present in
      let rest = remove_first id s.tabs in
      let (same, _) = find_tab-eq-some id s.tabs found in
      let gone : has_tab id rest ≡ false =
        ground (arith, has_tab-remove id id s.tabs u, eqb_iff id id) in
      let stays : has_tab before rest ≡ true =
        ground (arith, has_tab-remove before id s.tabs u, eqb_iff before id) in
      ground (
        arith,
        found,
        same,
        good,
        persist-Same p env (record s { tabs = insert_tab before tab rest }),
        next_id-insert_before id before tab rest same gone stays,
        eqb_iff before [],
        eqb_iff before tab.id,
      )
