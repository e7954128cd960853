-- ===== src/StockAnalyzer/Tab/View.antt =====
-- What the tab's selections and their answers read and write, as a view of its state that no other
-- handler changes.
use finance_buddy.Prelude.{
  Bool, Dict, List, Option, Text, arith, nat_eq, none, refl, some, true, ℕ, ◌&&◌, ◌++◌, ◌≡◌,
  if◌then◌else◌, not, suc, ◌∷◌, false,
}
use finance_buddy.StockAnalyzer.{
  act, clear, add_compare_stock, clearing, Stock, remove_compare_stock, clear_compare_stocks,
  toggle_watchlist, Action, set_query, set_impact_amount, set_selected_stock, set_impact,
  set_analysis_error, set_stock, set_active_sub_tab, set_active_timeframe, set_chart_type,
  set_compare_benchmark, adding, removing, toggling, clearing_compared, SearchResult,
}
use finance_buddy.StockAnalyzer.Tab.{
  Analysis, handle_impact, impact_answered, handle_add_compare_stock, compare_answered, AnalyzerTab,
  Lookup, typed, emptied, other, InputReason, handle_input_change, is_called, Reply,
  analysis_answered, handle_select, analysed, failed, analysis_message,
}
use finance_buddy.StockAnalyzer.Tab.Steps.{
  Clears, keeps, is_clearing, input_cleared, deselected, store_cleared, input_kept, Waits, acting,
  session_set, impact_asked, impact_came, compare_asked, compare_came,
}

-- What the selections and their answers read and write.
pub record View : Type 0 where
  pub mount : ℕ
  pub analysis_seq : ℕ → ℕ
  pub loading : Bool
  pub analyses : List Analysis
  pub stock : Option Stock
  pub error : Option Text

abbrev pub view : AnalyzerTab → View
view t = record {
  mount = t.mount;
  analysis_seq = t.analysis_seq;
  loading = t.loading_analysis;
  analyses = t.analyses;
  stock = t.store.stock;
  error = t.store.analysis_error;
}

module _ (is_positive : Text → Bool) where
  pub handle_impact-view :
      (m : ℕ) (s : Option Text) (symbol amount : Text) (t : AnalyzerTab)
      → view (handle_impact is_positive m s symbol amount t) ≡ view t
  unfolding handle_impact
  handle_impact-view m s symbol amount t = ground arith

impact_answered-view :
    (r : Lookup) (reply : Option Text) (t : AnalyzerTab) → view (impact_answered r reply t) ≡ view t
unfolding impact_answered
impact_answered-view r (some i) t = ground arith
impact_answered-view r none t = ground arith

act-view :
    (upper : Text → Text) (json : List Text → Text) (blocked : Bool) (storage : Dict Text)
    (a : Action) (t : AnalyzerTab)
    → is_called a ≡ true
    → is_clearing a ≡ false
    → view (record t { store = (act upper json blocked a (t.store, storage)).0 }) ≡ view t
unfolding act is_called remove_compare_stock clear_compare_stocks toggle_watchlist
act-view upper json blocked storage (set_query x) t h k = refl
act-view upper json blocked storage (set_impact_amount x) t h k = refl
act-view upper json blocked storage (set_selected_stock x) t h k = ground arith
act-view upper json blocked storage (set_impact x) t h k = ground arith
act-view upper json blocked storage (set_analysis_error x) t h k = ground arith
act-view upper json blocked storage (set_stock x) t h k = ground arith
act-view upper json blocked storage (set_active_sub_tab x) t h k = refl
act-view upper json blocked storage (set_active_timeframe x) t h k = refl
act-view upper json blocked storage (set_chart_type x) t h k = refl
act-view upper json blocked storage (set_compare_benchmark x) t h k = refl
act-view upper json blocked storage (adding x) t h k = ground arith
act-view upper json blocked storage (removing x) t h k = refl
act-view upper json blocked storage (toggling x) t h k = refl
act-view upper json blocked storage clearing_compared t h k = refl
act-view upper json blocked storage clearing t h k = ground arith

module _ (upper : Text → Text) where
  handle_add_compare_stock-view :
      (symbol : Text) (t : AnalyzerTab) → view (handle_add_compare_stock upper symbol t) ≡ view t
  unfolding handle_add_compare_stock
  handle_add_compare_stock-view symbol t = ground arith

  add_compare_stock-view :
      (new : Stock) (t : AnalyzerTab)
      → view (record t { store = add_compare_stock upper new t.store }) ≡ view t
  unfolding add_compare_stock
  add_compare_stock-view new t = ground arith

  compare_answered-view :
      (r : Lookup) (reply : Option Stock) (t : AnalyzerTab)
      → view (compare_answered upper r reply t) ≡ view t
  unfolding compare_answered
  compare_answered-view r (some stock) t = ground (arith, add_compare_stock-view stock t)
  compare_answered-view r none t = ground arith

input_kept-view :
    (reason : InputReason) (v : Text) (t : AnalyzerTab)
    → keeps reason v ≡ true
    → view (handle_input_change reason v t) ≡ view t
unfolding handle_input_change
input_kept-view typed v t h = ground arith
input_kept-view emptied v t h = ground arith
input_kept-view other v t h = refl

-- Nothing but a selection, its answer, its clearing and leaving the tab touches the view.
pub Waits-view :
    (upper : Text → Text) (is_positive : Text → Bool) (IsAbout : Text → Stock → Type 0)
    {t u : AnalyzerTab}
    → Waits upper is_positive IsAbout t u
    → view u ≡ view t
Waits-view upper is_positive IsAbout {t} (acting a json blocked storage h k) =
    act-view upper json blocked storage a t h k
Waits-view upper is_positive IsAbout {t} (input_kept reason v h) = input_kept-view reason v t h
Waits-view upper is_positive IsAbout (session_set s) = refl
Waits-view upper is_positive IsAbout {t} (impact_asked symbol amount) =
    handle_impact-view is_positive t.mount t.session symbol amount t
Waits-view upper is_positive IsAbout {t} (impact_came before after r reply e) =
    impact_answered-view r reply (record t { impacts = before ++ after })
Waits-view upper is_positive IsAbout {t} (compare_asked symbol) =
    handle_add_compare_stock-view upper symbol t
Waits-view upper is_positive IsAbout {t} (compare_came before after r reply e) =
    compare_answered-view upper r reply (record t { comparisons = before ++ after })

-- What a clearing does to the view.
abbrev pub cleared : View → View
cleared v = record v { stock = none; error = none }

input_cleared-view :
    (reason : InputReason) (v : Text) (t : AnalyzerTab)
    → keeps reason v ≡ false
    → view (handle_input_change reason v t) ≡ cleared (view t)
unfolding handle_input_change clear
input_cleared-view typed v t h = ground arith
input_cleared-view emptied v t h = refl
input_cleared-view other v t h = ground arith

pub Clears-view :
    (upper : Text → Text) (is_positive : Text → Bool) (IsAbout : Text → Stock → Type 0)
    {t u : AnalyzerTab}
    → Clears upper is_positive IsAbout t u
    → view u ≡ cleared (view t)
unfolding handle_select clear act
Clears-view upper is_positive IsAbout {t} (input_cleared reason v h) =
    input_cleared-view reason v t h
Clears-view upper is_positive IsAbout {t} deselected = refl
Clears-view upper is_positive IsAbout {t} (store_cleared json blocked storage) = refl

-- What the answer to an analysis does to the view.
abbrev pub stock_after : Reply → Option Stock → Option Stock
stock_after (analysed stock) old = some stock
stock_after (failed status) old = old

abbrev pub error_after : Reply → Option Text → Option Text
error_after (analysed stock) old = old
error_after (failed status) old = some (analysis_message status)

-- It is heeded if no later selection was made by the mounting that asked.
abbrev pub is_heeded : View → Analysis → Bool
is_heeded v r = nat_eq r.seq (v.analysis_seq r.mount)

abbrev pub answered : Analysis → Reply → View → View
answered r reply v = record v {
  loading = v.loading && not (is_heeded v r && nat_eq r.mount v.mount);
  stock = if is_heeded v r then stock_after reply v.stock else v.stock;
  error = if is_heeded v r then error_after reply v.error else v.error;
}

pub analysis_answered-view :
    (is_positive : Text → Bool) (r : Analysis) (reply : Reply) (t : AnalyzerTab)
    → view (analysis_answered is_positive r reply t) ≡ answered r reply (view t)
unfolding analysis_answered
analysis_answered-view is_positive r (failed status) t = ground arith
analysis_answered-view is_positive r (analysed stock) t = ground (
  arith,
  handle_impact-view is_positive r.mount r.session stock.symbol r.amount
      (record t { store = record t.store { stock = some stock } }),
)

abbrev pub selected : Analysis → View → View
selected r v = record v {
  analysis_seq = λ m. if nat_eq m v.mount then suc (v.analysis_seq v.mount) else v.analysis_seq m;
  loading = true;
  analyses = r ∷ v.analyses;
  error = none;
}

abbrev pub request : AnalyzerTab → SearchResult → Analysis
request t v = record {
  mount = t.mount;
  seq = suc (t.analysis_seq t.mount);
  symbol = v.symbol;
  session = t.session;
  amount = t.store.impact_amount;
}

pub handle_select-view :
    (v : SearchResult) (t : AnalyzerTab)
    → view (handle_select (some v) t) ≡ selected (request t v) (view t)
unfolding handle_select
handle_select-view v t = refl
