-- ===== src/Admin/Directory.antt =====
-- The directory of schemes in frontend/src/shared/components/admin/AdminConsole.tsx: the search text
-- with its timer, the two filters, the pages, and the market data that is fetched with the first
-- page. A search keeps what the closure that made it held; searches are not numbered, so every
-- answer is taken.
pub mod Pages
pub mod Races
use finance_buddy.Prelude.{
  Bool, List, Option, Text, [], codes, false, if◌then◌else◌, length, ltb, none, not, some, text_eq,
  true, ℕ, ◌&&◌, ◌++◌,
}

pub record Scheme : Type 0 where
  pub code : Text
  pub name : Text

-- One call of `searchMfSchemes`, 50 schemes from the offset on, and whether they are appended.
pub record SchemeSearch : Type 0 where
  pub query : Text
  pub amc : Option Text
  pub category : Option Text
  pub offset : ℕ
  pub append : Bool

pub record SchemesPage : Type 0 where
  pub schemes : Option (List Scheme)
  pub total : Option ℕ

pub record Directory : Type 0 where
  pub query : Text
  pub amc : Text
  pub category : Text
  pub schemes : List Scheme
  pub total : ℕ
  pub is_loading : Bool
  pub timer : Option SchemeSearch

pub data FilterType : Type 0 where
  by_amc by_category : FilterType

abbrev pub page_limit : ℕ
page_limit = 50

-- `value !== 'All' ? value : undefined`
abbrev pub unless_all : Text → Option Text
unless_all value = if text_eq value (codes "All") then none else some value

unfoldable pub initial_directory : Directory
initial_directory = record {
  query = [];
  amc = codes "All";
  category = codes "All";
  schemes = [];
  total = 0;
  is_loading = false;
  timer = none;
}

abbrev pub search_for : Text → Text → Text → ℕ → Bool → SchemeSearch
search_for query amc category offset append = record {
  query = query;
  amc = unless_all amc;
  category = unless_all category;
  offset = offset;
  append = append;
}

-- `handleSearchMf`: the timer is set anew, with the filters of now.
unfoldable pub handle_search_mf : Text → Directory → Directory
handle_search_mf q s = record s { query = q; timer = some (search_for q s.amc s.category 0 false) }

-- 300 ms later: what is asked, if the timer still stands.
unfoldable pub search_timer : Directory → Option SchemeSearch × Directory
search_timer s = elim s.timer [
  | none ↦ (none, s)
  | some q ↦ (some q, record s { timer = none; is_loading = true })
]

unfoldable pub handle_select_filter : FilterType → Text → Directory → SchemeSearch × Directory
handle_select_filter by_amc value s =
    (search_for s.query value s.category 0 false, record s { amc = value; is_loading = true })
handle_select_filter by_category value s =
    (search_for s.query s.amc value 0 false, record s { category = value; is_loading = true })

-- The button for more is shown and enabled.
unfoldable pub offers_more : Directory → Bool
offers_more s = ltb (length s.schemes) s.total && not s.is_loading

unfoldable pub load_more : Directory → SchemeSearch × Directory
load_more s =
    (search_for s.query s.amc s.category (length s.schemes) true, record s { is_loading = true })

-- `fetchMfData`, of which the page of schemes is asked for with the filters on show.
unfoldable pub fetch_mf_data : Directory → SchemeSearch × Directory
fetch_mf_data s = (search_for s.query s.amc s.category 0 false, record s { is_loading = true })

abbrev pub schemes_or_none : Option (List Scheme) → List Scheme
schemes_or_none none = []
schemes_or_none (some schemes) = schemes

abbrev pub total_or_none : Option ℕ → ℕ
total_or_none none = 0
total_or_none (some n) = n

-- An answer, or `none` for an error, which is only logged.
unfoldable pub schemes_answered : SchemeSearch → Option SchemesPage → Directory → Directory
schemes_answered q none s = record s { is_loading = false }
schemes_answered q (some p) s = record s {
  schemes = if q.append then s.schemes ++ schemes_or_none p.schemes else schemes_or_none p.schemes;
  total = total_or_none p.total;
  is_loading = false;
}
