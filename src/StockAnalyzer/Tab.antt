-- ===== src/StockAnalyzer/Tab.antt =====
-- The requests of the stock analyzer's tab, in
-- frontend/src/domains/equity/components/tabs/StockAnalyzerTab.tsx: what the handlers do when they
-- are called, what they do when the server answers, and in which orders this can happen. The store
-- outlives the tab; the hooks' state and `analysisSeq` belong to one mounting of it, and a request
-- keeps what the handler's closure holds. `upper` is `toUpperCase`, and `is_positive` says of a text
-- that `parseFloat` reads a number above 0 from it.
pub mod Latest
pub mod Pending
pub mod Served
pub mod Settled
pub mod Stale
pub mod Steps
pub mod View
use finance_buddy.Prelude.{
  Bool, List, Option, Text, [], any, codes, false, if◌then◌else◌, is_empty, is_number, nat_eq, none,
  some, suc, sym, text_eq, trim, true, truthy, ℕ, ◌&&◌, ◌++◌, ◌||◌, ◌∷◌,
}
use finance_buddy.StockAnalyzer.{
  Action, AnalyzerState, SearchResult, Stock, add_compare_stock, clear, set_stock, set_impact,
  set_analysis_error, set_selected_stock, adding,
}

-- One call of `analyzeStock` by `handleSelect`.
pub record Analysis : Type 0 where
  pub mount : ℕ
  pub seq : ℕ
  pub symbol : Text
  pub session : Option Text
  pub amount : Text

-- One call of `stockPortfolioImpact`, or of `analyzeStock` by `handleAddCompareStock`.
pub record Lookup : Type 0 where
  pub mount : ℕ
  pub symbol : Text

pub data Reply : Type 0 where
  analysed : Stock → Reply
  failed : Option ℕ → Reply

pub record AnalyzerTab : Type 0 where
  pub store : AnalyzerState
  pub session : Option Text
  pub mount : ℕ
  pub analysis_seq : ℕ → ℕ
  pub loading_analysis : Bool
  pub loading_impact : Bool
  pub impact_error : Option Text
  pub loading_compare_stock : Option Text
  pub compare_query : Text
  pub analyses : List Analysis
  pub impacts : List Lookup
  pub comparisons : List Lookup

-- A tab as it is mounted, over a store.
unfoldable pub mounted_over : AnalyzerState → Option Text → AnalyzerTab
mounted_over store session = record {
  store = store;
  session = session;
  mount = 0;
  analysis_seq = λ _. 0;
  loading_analysis = false;
  loading_impact = false;
  impact_error = none;
  loading_compare_stock = none;
  compare_query = [];
  analyses = [];
  impacts = [];
  comparisons = [];
}

-- The tab is left and mounted again: new hooks, and what is under way goes on.
unfoldable pub remount : AnalyzerTab → AnalyzerTab
remount t = record t {
  mount = suc t.mount;
  analysis_seq = λ m. if nat_eq m (suc t.mount) then 0 else t.analysis_seq m;
  loading_analysis = false;
  loading_impact = false;
  impact_error = none;
  loading_compare_stock = none;
  compare_query = [];
}

-- A setter of a hook, which does nothing once its component is unmounted.
abbrev pub local : ℕ → (AnalyzerTab → AnalyzerTab) → AnalyzerTab → AnalyzerTab
local mount f t = if nat_eq mount t.mount then f t else t

unfoldable pub handle_select : Option SearchResult → AnalyzerTab → AnalyzerTab
unfolding clear
handle_select none t = record t { store = clear t.store }
handle_select (some v) t =
    let seq = suc (t.analysis_seq t.mount) in
    record t {
      store = record t.store {
        selected_stock = some v;
        query = v.symbol ++ codes " - " ++ v.name;
        analysis_error = none;
      };
      loading_analysis = true;
      analysis_seq = λ m. if nat_eq m t.mount then seq else t.analysis_seq m;
      analyses =
          record {
            mount = t.mount;
            seq = seq;
            symbol = v.symbol;
            session = t.session;
            amount = t.store.impact_amount;
          }
          ∷ t.analyses;
    }

abbrev analysis_message : Option ℕ → Text
analysis_message status =
    if is_number status 404
    then codes "That symbol was not recognised."
    else codes "Could not load analysis for that stock. Please try again."

module _ (is_positive : Text → Bool) where
  -- `handleImpact`, of the mounting and with the session that its closure holds, to the request.
  unfoldable pub handle_impact : ℕ → Option Text → Text → Text → AnalyzerTab → AnalyzerTab
  handle_impact mount session symbol amount t =
      if truthy session && is_positive amount
      then (let t' = local mount (λ u. record u { loading_impact = true; impact_error = none }) t in
          record t' { impacts = record { mount = mount; symbol = symbol } ∷ t'.impacts })
      else t

  abbrev settle : Analysis → Reply → AnalyzerTab → AnalyzerTab
  settle r (analysed stock) t =
      let t' = record t { store = record t.store { stock = some stock } } in
      if truthy r.session then handle_impact r.mount r.session stock.symbol r.amount t' else t'
  settle r (failed status) t = record t {
    store = record t.store { analysis_error = some (analysis_message status) };
  }

  -- The rest of `handleSelect`, when the server has answered.
  unfoldable pub analysis_answered : Analysis → Reply → AnalyzerTab → AnalyzerTab
  unfolding handle_impact
  analysis_answered r reply t =
      if nat_eq r.seq (t.analysis_seq r.mount)
      then local r.mount (λ u. record u { loading_analysis = false }) (settle r reply t)
      else t

-- The rest of `handleImpact`; `none` is a failure.
unfoldable pub impact_answered : Lookup → Option Text → AnalyzerTab → AnalyzerTab
impact_answered r (some impact) t =
    local r.mount (λ u. record u { loading_impact = false })
      (record t { store = record t.store { impact = some impact } })
impact_answered r none t =
    local r.mount
      (λ u. record u {
        loading_impact = false;
        impact_error = some (codes "Could not run that simulation. Please retry.");
      })
      t

abbrev symbol_is : (Text → Text) → Text → Option Stock → Bool
symbol_is upper symbol none = false
symbol_is upper symbol (some stock) = text_eq symbol (upper stock.symbol)

module _ (upper : Text → Text) where
  -- The effect for `?symbol=`.
  unfoldable pub follow_link : Text → AnalyzerTab → AnalyzerTab
  unfolding handle_select
  follow_link parameter t =
      let symbol = trim (upper parameter) in
      if is_empty symbol || symbol_is upper symbol t.store.stock
      then t
      else handle_select (some (record { symbol = symbol; name = symbol })) t

  unfoldable pub handle_add_compare_stock : Text → AnalyzerTab → AnalyzerTab
  handle_add_compare_stock symbol t =
      let sym = trim (upper symbol) in
      if is_empty sym || symbol_is upper sym t.store.stock
      then t
      else if any (λ x. text_eq (upper x.symbol) sym) t.store.compare_stocks
      then t
      else record t {
        loading_compare_stock = some sym;
        comparisons = record { mount = t.mount; symbol = sym } ∷ t.comparisons;
      }

  -- The rest of `handleAddCompareStock`; `none` is a failure.
  unfoldable pub compare_answered : Lookup → Option Stock → AnalyzerTab → AnalyzerTab
  unfolding add_compare_stock
  compare_answered r (some stock) t =
      local r.mount (λ u. record u { compare_query = []; loading_compare_stock = none })
        (record t { store = add_compare_stock upper stock t.store })
  compare_answered r none t = local r.mount (λ u. record u { loading_compare_stock = none }) t

-- Why the text of the search box changes: typing, the button that empties it, or another reason.
pub data InputReason : Type 0 where
  typed emptied other : InputReason

unfoldable pub handle_input_change : InputReason → Text → AnalyzerTab → AnalyzerTab
unfolding clear
handle_input_change emptied v t = record t { store = clear t.store }
handle_input_change typed v t =
    let store = record t.store { query = v } in
    if is_empty (trim v) then record t { store = clear store } else record t { store = store }
handle_input_change other v t = t

-- The actions of the store that the interface calls by themselves; the others are called by the
-- handlers only.
unfoldable pub is_called : Action → Bool
is_called (set_stock _) = false
is_called (set_impact _) = false
is_called (set_analysis_error _) = false
is_called (set_selected_stock _) = false
is_called (adding _) = false
is_called _ = true
