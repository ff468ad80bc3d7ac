-- ===== src/Tabs/Defs.antt =====
-- The tabs of `App`, the calls that its tab operations make, and the operations on lists of tabs.
use womprat.Base.{
  Bytes, codes, ℕ, zero, suc, ℤ, pos, Bool, not, ◌&&◌, ◌||◌, Option, none, some, List, [], ◌∷◌,
  ◌++◌, ◌==◌, bytes_eq, int_eq, any, length, ltb, if◌then◌else◌,
}
use womprat.Text.Search.{contains_any}
use womprat.Text.Space.{trim_space}
use womprat.Text.Decimal.{decimal}
use womprat.Config.{AppConfig, SavedTab}

pub record Tab : Type 0 where
  pub id : Bytes
  pub kind : Bytes
  pub title : Bytes
  pub url : Bytes
  pub favicon : Bytes
  pub host : Bytes
  pub user : Bytes
  pub port : ℤ

abbrev pub empty_tab : Tab
empty_tab = record {
  id = [];
  kind = [];
  title = [];
  url = [];
  favicon = [];
  host = [];
  user = [];
  port = pos 0;
}

-- What an operation asks of the shell page, of the native views, or of the window.
pub data Call : Type 0 where
  hide_views open_settings go_home : Call
  activate ensure_view show_view destroy_view : Bytes → Call
  show_browser navigate_view : Bytes → Bytes → Call
  content_error : Bytes → Call

-- The fields of `App` that the tab operations read or write, the file of the settings as it was
-- last written, and the calls made (newest first).
pub record Session : Type 0 where
  pub tabs : List Tab
  pub active_tab : Bytes
  pub config : AppConfig
  pub file : Option AppConfig
  pub session_restored : Bool
  pub locked : Bool
  pub last_close_tab : Bytes
  pub last_close_at : Option ℕ
  pub sequence : ℕ
  pub calls : List Call

-- What is around the tabs: whether there are native views, which exist, whether one can be made,
-- whether the settings file can be written, and which address inputs resolve.
pub record Env : Type 0 where
  pub has_views : Bool
  pub has_view : List Call → Bytes → Bool
  pub makes_view : List Call → Bytes → Bool
  pub writes : AppConfig → Bool
  pub resolves : Bytes → Bool

abbrev pub blank_browser_url : Bytes
blank_browser_url = codes "about:blank"

pub is_blank_browser_tab : Tab → Bool
is_blank_browser_tab tab = tab.kind == codes "browser" && tab.url == blank_browser_url

unfoldable pub valid_tab_id : Bytes → Bool
valid_tab_id raw =
    let id = trim_space raw in
    not (id == [] || ltb 128 (length id) || contains_any id (codes " /\\?#"))

pub new_tab_id : Bytes → ℕ → ℕ → Bytes
new_tab_id prefix now sequence = prefix ++ b'-' ∷ decimal now ++ b'-' ∷ decimal (suc sequence)

abbrev pub has_tab : Bytes → List Tab → Bool
has_tab id tabs = any (λ t. t.id == id) tabs

-- the first tab with this id
unfoldable pub find_tab : Bytes → List Tab → Option Tab
find_tab id [] = none
find_tab id (t ∷ tabs) = let rest = find_tab id tabs in if t.id == id then some t else rest

unfoldable pub remove_first : Bytes → List Tab → List Tab
remove_first id [] = []
remove_first id (t ∷ tabs) =
    let rest = remove_first id tabs in if t.id == id then tabs else t ∷ rest

-- In front of the tab `before`, or at the end where there is none.
unfoldable pub insert_before : Bytes → Tab → List Tab → List Tab
insert_before before tab [] = tab ∷ []
insert_before before tab (t ∷ tabs) =
    let rest = insert_before before tab tabs in if t.id == before then tab ∷ t ∷ tabs else t ∷ rest

unfoldable pub insert_tab : Bytes → Tab → List Tab → List Tab
insert_tab before tab tabs =
    if before == [] || before == tab.id then tabs ++ (tab ∷ []) else insert_before before tab tabs

-- The fields that `upsertTab` keeps where the new tab leaves them empty.
abbrev pub keep_empty : Tab → Tab → Tab
keep_empty tab old = record tab {
  favicon = if tab.favicon == [] then old.favicon else tab.favicon;
  url = if tab.url == [] then old.url else tab.url;
  title = if tab.title == [] then old.title else tab.title;
}

unfoldable pub upsert_tab : List Tab → Tab → List Tab
upsert_tab [] tab = tab ∷ []
upsert_tab (t ∷ tabs) tab =
    let rest = upsert_tab tabs tab in if t.id == tab.id then keep_empty tab t ∷ tabs else t ∷ rest

-- the first browser tab with this id, changed
unfoldable pub change_browser : Bytes → (Tab → Tab) → List Tab → List Tab
change_browser id change [] = []
change_browser id change (t ∷ tabs) =
    let rest = change_browser id change tabs in
    if t.id == id && t.kind == codes "browser" then change t ∷ tabs else t ∷ rest

abbrev pub is_browser_with : Bytes → Tab → Bool
is_browser_with id t = t.id == id && t.kind == codes "browser"

-- the index of the last tab with this id, counted from `i`
pub closed_index : Bytes → ℕ → List Tab → Option ℕ
closed_index id i [] = none
closed_index id i (t ∷ tabs) =
    let rest = closed_index id (suc i) tabs in
    elim rest [ some j ↦ some j | none ↦ if t.id == id then some i else none ]

-- the tab at an index, or the last one behind the end
unfoldable pub neighbour : List Tab → ℕ → Bytes
neighbour [] i = []
neighbour (t ∷ []) i = t.id
neighbour (t ∷ t' ∷ tabs) zero = t.id
neighbour (t ∷ t' ∷ tabs) (suc i) = neighbour (t' ∷ tabs) i

pub saved_tab : Tab → SavedTab
saved_tab t = record {
  kind = t.kind;
  title = t.title;
  host = t.host;
  user = t.user;
  port = t.port;
  url = t.url;
  favicon = t.favicon;
}

-- the loop of `persistOpenTabs`
pub saved_tabs : List Tab → List SavedTab
saved_tabs [] = []
saved_tabs (t ∷ tabs) =
    let rest = saved_tabs tabs in
    if t.kind == codes "settings" || is_blank_browser_tab t then rest else saved_tab t ∷ rest

abbrev pub call : Call → Session → Session
call c s = record s { calls = c ∷ s.calls }
