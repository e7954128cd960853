-- ===== src/StockAnalyzer.antt =====
-- The store of the stock analyzer, frontend/src/domains/equity/hooks/useStockAnalyzerStore.ts.
-- `upper` is `toUpperCase` and `json` is `JSON.stringify` on the watchlist. Of an analysed stock, of
-- which the store reads the symbol, the rest is opaque.
pub mod Compared
pub mod Charts
pub mod Metrics
pub mod Tab
pub mod Watchlist
use finance_buddy.Prelude.{
  Bool, Dict, List, Option, String, Text, [], any, codes, drop, filter, if◌then◌else◌, insert, leb,
  length, none, not, some, sym, text_eq, trim, true, ◌++◌, ◌∷◌,
}
use finance_buddy.Store.{given}

pub data SubTab : Type 0 where
  overview indicators compare financials earnings : SubTab

pub data Timeframe : Type 0 where
  d1 d5 m1 m6 ytd y1 y5 : Timeframe

pub data ChartType : Type 0 where
  area line candlestick : ChartType

-- `StockSearchResult`
pub record SearchResult : Type 0 where
  pub symbol : Text
  pub name : Text

pub record Stock : Type 0 where
  pub symbol : Text
  pub analysis : Text

pub record AnalyzerState : Type 0 where
  pub query : Text
  pub selected_stock : Option SearchResult
  pub stock : Option Stock
  pub impact_amount : Text
  pub impact : Option Text
  pub analysis_error : Option Text
  pub active_sub_tab : SubTab
  pub active_timeframe : Timeframe
  pub chart_type : ChartType
  pub compare_benchmark : Bool
  pub compare_stocks : List Stock
  pub watchlist : List Text

abbrev pub watchlist_key : String
watchlist_key = "equity_watchlist_v1"

abbrev pub default_watchlist : List Text
default_watchlist = codes "RELIANCE" ∷ codes "TCS" ∷ codes "HDFCBANK" ∷ codes "INFY" ∷ []

-- What is read from local storage: `none` if the read throws, `some none` if there is no item. `parse`
-- is `JSON.parse`, `none` if it throws; an item that is not a list of texts is not considered.
unfoldable pub get_initial_watchlist :
    (Text → Option (List Text)) → Option (Option Text) → List Text
get_initial_watchlist parse none = default_watchlist
get_initial_watchlist parse (some none) = default_watchlist
get_initial_watchlist parse (some (some [])) = default_watchlist
get_initial_watchlist parse (some (some (c ∷ saved))) = given (parse (c ∷ saved)) default_watchlist

unfoldable pub initial_analyzer : List Text → AnalyzerState
initial_analyzer watchlist = record {
  query = [];
  selected_stock = none;
  stock = none;
  impact_amount = codes "100000";
  impact = none;
  analysis_error = none;
  active_sub_tab = overview;
  active_timeframe = y1;
  chart_type = area;
  compare_benchmark = true;
  compare_stocks = [];
  watchlist = watchlist;
}

unfoldable pub add_compare_stock : (Text → Text) → Stock → AnalyzerState → AnalyzerState
add_compare_stock upper new s =
    if any (λ x. text_eq (upper x.symbol) (upper new.symbol)) s.compare_stocks
    then s
    else if leb 4 (length s.compare_stocks)
    then record s { compare_stocks = drop 1 s.compare_stocks ++ (new ∷ []) }
    else record s { compare_stocks = s.compare_stocks ++ (new ∷ []) }

unfoldable pub remove_compare_stock : (Text → Text) → Text → AnalyzerState → AnalyzerState
remove_compare_stock upper symbol s = record s {
  compare_stocks = filter (λ x. not (text_eq (upper x.symbol) (upper symbol))) s.compare_stocks;
}

unfoldable pub clear_compare_stocks : AnalyzerState → AnalyzerState
clear_compare_stocks s = record s { compare_stocks = [] }

unfoldable pub toggled : Text → List Text → List Text
toggled sym current =
    if any (text_eq sym) current
    then filter (λ x. not (text_eq x sym)) current
    else current ++ (sym ∷ [])

-- The state and local storage afterwards; a storage that is blocked is left alone.
unfoldable pub toggle_watchlist :
    (Text → Text)
    → (List Text → Text)
    → Bool
    → Text
    → AnalyzerState × Dict Text
    → AnalyzerState × Dict Text
unfolding toggled trim insert
toggle_watchlist upper json blocked symbol (s, storage) =
    let updated = toggled (trim (upper symbol)) s.watchlist in
    (
      record s { watchlist = updated },
      if blocked then storage else insert watchlist_key (json updated) storage,
    )

unfoldable pub clear : AnalyzerState → AnalyzerState
clear s = record s {
  query = [];
  selected_stock = none;
  stock = none;
  impact = none;
  analysis_error = none;
  active_sub_tab = overview;
  active_timeframe = y1;
  compare_stocks = [];
}

-- The actions; the setters store their argument.
pub data Action : Type 0 where
  set_query set_impact_amount : (value : Text) → Action
  set_impact set_analysis_error : (value : Option Text) → Action
  set_selected_stock : (value : Option SearchResult) → Action
  set_stock : (value : Option Stock) → Action
  set_active_sub_tab : (value : SubTab) → Action
  set_active_timeframe : (value : Timeframe) → Action
  set_chart_type : (value : ChartType) → Action
  set_compare_benchmark : (value : Bool) → Action
  adding : (value : Stock) → Action
  removing toggling : (symbol : Text) → Action
  clearing_compared clearing : Action

-- One action, on the state and local storage.
unfoldable pub act :
    (Text → Text)
    → (List Text → Text)
    → Bool
    → Action
    → AnalyzerState × Dict Text
    → AnalyzerState × Dict Text
unfolding add_compare_stock remove_compare_stock clear_compare_stocks toggle_watchlist clear
act upper json blocked (set_query v) (s, d) = (record s { query = v }, d)
act upper json blocked (set_impact_amount v) (s, d) = (record s { impact_amount = v }, d)
act upper json blocked (set_selected_stock v) (s, d) = (record s { selected_stock = v }, d)
act upper json blocked (set_impact v) (s, d) = (record s { impact = v }, d)
act upper json blocked (set_analysis_error v) (s, d) = (record s { analysis_error = v }, d)
act upper json blocked (set_stock v) (s, d) = (record s { stock = v }, d)
act upper json blocked (set_active_sub_tab v) (s, d) = (record s { active_sub_tab = v }, d)
act upper json blocked (set_active_timeframe v) (s, d) = (record s { active_timeframe = v }, d)
act upper json blocked (set_chart_type v) (s, d) = (record s { chart_type = v }, d)
act upper json blocked (set_compare_benchmark v) (s, d) = (record s { compare_benchmark = v }, d)
act upper json blocked (adding v) (s, d) = (add_compare_stock upper v s, d)
act upper json blocked (removing v) (s, d) = (remove_compare_stock upper v s, d)
act upper json blocked (toggling v) (s, d) = toggle_watchlist upper json blocked v (s, d)
act upper json blocked clearing_compared (s, d) = (clear_compare_stocks s, d)
act upper json blocked clearing (s, d) = (clear s, d)

-- Actions in a row.
unfoldable pub run :
    (Text → Text)
    → (List Text → Text)
    → Bool
    → List Action
    → AnalyzerState × Dict Text
    → AnalyzerState × Dict Text
unfolding act
run upper json blocked [] w = w
run upper json blocked (a ∷ actions) w = run upper json blocked actions (act upper json blocked a w)
