-- ===== src/Tabs/Valid/Lists.antt =====
-- The ids of a list of tabs under the operations on lists.
use womprat.Base.{
  Bytes, ℕ, zero, suc, true, false, not, ◌&&◌, ◌||◌, some, List, [], ◌∷◌, ◌++◌, ◌==◌, ◌!=◌,
  bytes_eq, keep, ◌≡◌, refl, inl, inr, arith, eqb, eqb_iff, Bool-cases,
}
use womprat.Tabs.Defs.{
  Tab, has_tab, find_tab, remove_first, insert_before, insert_tab, upsert_tab, change_browser,
  neighbour,
}

-- No tab has the id of a later one.
abbrev pub UniqueIds : List Tab → Type 0
UniqueIds [] = Unit
UniqueIds (t ∷ tabs) = (has_tab t.id tabs ≡ false) × UniqueIds tabs

pub has_tab-append :
    (x : Bytes) (tabs more : List Tab) → has_tab x (tabs ++ more) ≡ has_tab x tabs || has_tab x more
has_tab-append x [] more = refl
has_tab-append x (t ∷ tabs) more = ground (arith, has_tab-append x tabs more)

pub UniqueIds-append :
    (tabs : List Tab) (t : Tab)
    → UniqueIds tabs
    → has_tab t.id tabs ≡ false
    → UniqueIds (tabs ++ (t ∷ []))
UniqueIds-append [] t u fresh = (refl, tt)
UniqueIds-append (t' ∷ tabs) t (new, u) fresh = (
  ground (arith, has_tab-append t'.id tabs (t ∷ []), eqb_iff t.id t'.id, eqb_iff t'.id t.id),
  UniqueIds-append tabs t u (ground arith),
)

pub has_tab-upsert :
    (x : Bytes) (tabs : List Tab) (t : Tab)
    → has_tab x (upsert_tab tabs t) ≡ has_tab x tabs || t.id == x
unfolding upsert_tab
has_tab-upsert x [] t = ground arith
has_tab-upsert x (t' ∷ tabs) t =
    ground (arith, has_tab-upsert x tabs t, eqb_iff t'.id t.id, eqb_iff t.id x, eqb_iff t'.id x)

pub UniqueIds-upsert : (tabs : List Tab) (t : Tab) → UniqueIds tabs → UniqueIds (upsert_tab tabs t)
unfolding upsert_tab
UniqueIds-upsert [] t u = (refl, tt)
UniqueIds-upsert (t' ∷ tabs) t (new, u) = elim (Bool-cases (eqb t'.id t.id)) [
  | inl same ↦ rw same (rw (← (eqb_iff t'.id t.id).0 same) new, u)
  | inr other ↦ rw other (
    ground (arith, has_tab-upsert t'.id tabs t, eqb_iff t'.id t.id, eqb_iff t.id t'.id),
    UniqueIds-upsert tabs t u,
  )
]

pub has_tab-change :
    (x id : Bytes) (change : Tab → Tab) (tabs : List Tab)
    → ((t : Tab) → (change t).id ≡ t.id)
    → has_tab x (change_browser id change tabs) ≡ has_tab x tabs
unfolding change_browser
has_tab-change x id change [] same = refl
has_tab-change x id change (t ∷ tabs) same =
    ground (arith, has_tab-change x id change tabs same, same t)

pub UniqueIds-change :
    (id : Bytes) (change : Tab → Tab) (tabs : List Tab)
    → ((t : Tab) → (change t).id ≡ t.id)
    → UniqueIds tabs
    → UniqueIds (change_browser id change tabs)
unfolding change_browser
UniqueIds-change id change [] same u = tt
UniqueIds-change id change (t ∷ tabs) same (new, u) =
    ground (
      arith,
      has_tab-change t.id id change tabs same,
      UniqueIds-change id change tabs same u,
      same t,
    )

pub has_tab-keep :
    (x id : Bytes) (tabs : List Tab)
    → has_tab x (keep (λ t. t.id != id) tabs) ≡ not (x == id) && has_tab x tabs
has_tab-keep x id [] = ground arith
has_tab-keep x id (t ∷ tabs) =
    ground (arith, has_tab-keep x id tabs, eqb_iff x id, eqb_iff t.id id, eqb_iff t.id x)

pub UniqueIds-keep :
    (id : Bytes) (tabs : List Tab) → UniqueIds tabs → UniqueIds (keep (λ t. t.id != id) tabs)
UniqueIds-keep id [] u = tt
UniqueIds-keep id (t ∷ tabs) (new, u) =
    ground (arith, has_tab-keep t.id id tabs, UniqueIds-keep id tabs u)

pub find_tab-eq-some :
    (id : Bytes) (tabs : List Tab) {t : Tab}
    → find_tab id tabs ≡ some t
    → (t.id ≡ id) × (has_tab id tabs ≡ true)
unfolding find_tab
find_tab-eq-some id [] {t} h = ground arith
find_tab-eq-some id (t' ∷ tabs) {t} h =
    ground (arith, find_tab-eq-some id tabs {t = t}, eqb_iff t'.id id)

pub has_tab-remove :
    (x id : Bytes) (tabs : List Tab)
    → UniqueIds tabs
    → has_tab x (remove_first id tabs) ≡ not (x == id) && has_tab x tabs
unfolding remove_first
has_tab-remove x id [] u = ground arith
has_tab-remove x id (t ∷ tabs) (new, u) =
    ground (arith, has_tab-remove x id tabs u, eqb_iff x id, eqb_iff t.id id, eqb_iff t.id x)

pub UniqueIds-remove :
    (id : Bytes) (tabs : List Tab) → UniqueIds tabs → UniqueIds (remove_first id tabs)
unfolding remove_first
UniqueIds-remove id [] u = tt
UniqueIds-remove id (t ∷ tabs) (new, u) =
    ground (arith, has_tab-remove t.id id tabs u, UniqueIds-remove id tabs u)

has_tab-insert_before :
    (x before : Bytes) (t : Tab) (tabs : List Tab)
    → has_tab x (insert_before before t tabs) ≡ t.id == x || has_tab x tabs
unfolding insert_before
has_tab-insert_before x before t [] = ground arith
has_tab-insert_before x before t (t' ∷ tabs) = ground (arith, has_tab-insert_before x before t tabs)

UniqueIds-insert_before :
    (before : Bytes) (t : Tab) (tabs : List Tab)
    → UniqueIds tabs
    → has_tab t.id tabs ≡ false
    → UniqueIds (insert_before before t tabs)
unfolding insert_before
UniqueIds-insert_before before t [] u fresh = (refl, tt)
UniqueIds-insert_before before t (t' ∷ tabs) (new, u) fresh = ground (
  arith,
  has_tab-insert_before t'.id before t tabs,
  UniqueIds-insert_before before t tabs u,
  eqb_iff t.id t'.id,
  eqb_iff t'.id t.id,
)

pub has_tab-insert :
    (x before : Bytes) (t : Tab) (tabs : List Tab)
    → has_tab x (insert_tab before t tabs) ≡ t.id == x || has_tab x tabs
unfolding insert_tab
has_tab-insert x before t tabs =
    ground (arith, has_tab-append x tabs (t ∷ []), has_tab-insert_before x before t tabs)

pub UniqueIds-insert :
    (before : Bytes) (t : Tab) (tabs : List Tab)
    → UniqueIds tabs
    → has_tab t.id tabs ≡ false
    → UniqueIds (insert_tab before t tabs)
unfolding insert_tab
UniqueIds-insert before t tabs u fresh =
    ground (arith, UniqueIds-append tabs t u fresh, UniqueIds-insert_before before t tabs u fresh)

pub has_tab-neighbour :
    (t : Tab) (tabs : List Tab) (i : ℕ) → has_tab (neighbour (t ∷ tabs) i) (t ∷ tabs) ≡ true
unfolding neighbour
has_tab-neighbour t [] i = ground (arith, eqb_iff t.id t.id)
has_tab-neighbour t (t' ∷ tabs) zero = ground (arith, eqb_iff t.id t.id)
has_tab-neighbour t (t' ∷ tabs) (suc i) = ground (arith, has_tab-neighbour t' tabs i)
