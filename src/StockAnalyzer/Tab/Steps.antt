-- ===== src/StockAnalyzer/Tab/Steps.antt =====
-- What can happen in the stock analyzer's tab, and in which order: the handlers and the answers of
-- the server.
use finance_buddy.Prelude.{
  Bool, Dict, List, Option, Text, suc, true, ℕ, ◌++◌, ◌∷◌, ◌≡◌, false, is_empty, none, not, trim,
}
use finance_buddy.StockAnalyzer.{clearing, Stock, Action, SearchResult, AnalyzerState, act}
use finance_buddy.StockAnalyzer.Tab.{
  InputReason, typed, emptied, other, handle_input_change, Reply, AnalyzerTab, Analysis, analysed,
  is_called, analysis_answered, handle_select, mounted_over, failed, follow_link, handle_impact,
  remount, Lookup, impact_answered, handle_add_compare_stock, compare_answered,
}

abbrev pub Answers : (Text → Stock → Type 0) → Text → Reply → Type 0
Answers IsAbout symbol (analysed stock) = IsAbout symbol stock
Answers IsAbout symbol (failed _) = Unit

-- A change of the search box that leaves a text in it.
abbrev pub keeps : InputReason → Text → Bool
keeps typed v = not (is_empty (trim v))
keeps emptied v = false
keeps other v = true

abbrev pub is_clearing : Action → Bool
is_clearing clearing = true
is_clearing _ = false

-- What can happen: `Waits` without a stock being selected or cleared, `Clears` when it is cleared,
-- `Step` anything. `IsAbout` says what the server answers for a symbol.
module _ (upper : Text → Text) (is_positive : Text → Bool) (IsAbout : Text → Stock → Type 0) where
  pub data Waits : AnalyzerTab → AnalyzerTab → Type 0 where
    acting :
        {t : AnalyzerTab} (a : Action) (json : List Text → Text) (blocked : Bool)
        (storage : Dict Text)
        → is_called a ≡ true
        → is_clearing a ≡ false
        → Waits t (record t { store = (act upper json blocked a (t.store, storage)).0 })
    input_kept :
        {t : AnalyzerTab} (reason : InputReason) (v : Text)
        → keeps reason v ≡ true
        → Waits t (handle_input_change reason v t)
    session_set : {t : AnalyzerTab} (s : Option Text) → Waits t (record t { session = s })
    impact_asked :
        {t : AnalyzerTab} (symbol amount : Text)
        → Waits t (handle_impact is_positive t.mount t.session symbol amount t)
    impact_came :
        {t : AnalyzerTab} (before after : List Lookup) (r : Lookup) (reply : Option Text)
        → t.impacts ≡ before ++ (r ∷ after)
        → Waits t (impact_answered r reply (record t { impacts = before ++ after }))
    compare_asked :
        {t : AnalyzerTab} (symbol : Text) → Waits t (handle_add_compare_stock upper symbol t)
    compare_came :
        {t : AnalyzerTab} (before after : List Lookup) (r : Lookup) (reply : Option Stock)
        → t.comparisons ≡ before ++ (r ∷ after)
        → Waits t (compare_answered upper r reply (record t { comparisons = before ++ after }))

  -- By the search box, by the list of its options, or by the store.
  pub data Clears : AnalyzerTab → AnalyzerTab → Type 0 where
    input_cleared :
        {t : AnalyzerTab} (reason : InputReason) (v : Text)
        → keeps reason v ≡ false
        → Clears t (handle_input_change reason v t)
    deselected : {t : AnalyzerTab} → Clears t (handle_select none t)
    store_cleared :
        {t : AnalyzerTab} (json : List Text → Text) (blocked : Bool) (storage : Dict Text)
        → Clears t (record t { store = (act upper json blocked clearing (t.store, storage)).0 })

  pub data Arrives : AnalyzerTab → AnalyzerTab → Type 0 where
    analysis_came :
        {t : AnalyzerTab} (before after : List Analysis) (r : Analysis) (reply : Reply)
        → t.analyses ≡ before ++ (r ∷ after)
        → Answers IsAbout r.symbol reply
        → Arrives t
            (analysis_answered is_positive r reply (record t { analyses = before ++ after }))

  pub data Step : AnalyzerTab → AnalyzerTab → Type 0 where
    waits : {t u : AnalyzerTab} → Waits t u → Step t u
    empties : {t u : AnalyzerTab} → Clears t u → Step t u
    arrives : {t u : AnalyzerTab} → Arrives t u → Step t u
    selecting : {t : AnalyzerTab} (v : Option SearchResult) → Step t (handle_select v t)
    linking : {t : AnalyzerTab} (parameter : Text) → Step t (follow_link upper parameter t)
    remounting : {t : AnalyzerTab} → Step t (remount t)

  -- A run from a freshly mounted tab.
  pub data Reach : AnalyzerTab → Type 0 where
    first : (store : AnalyzerState) (s : Option Text) → Reach (mounted_over store s)
    after : {t u : AnalyzerTab} → Reach t → Step t u → Reach u

  -- A run with no selection in which `n` analyses are answered; `c` says whether the stock is ever
  -- cleared.
  pub data Run : Bool → ℕ → AnalyzerTab → AnalyzerTab → Type 0 where
    done : {t : AnalyzerTab} → Run false 0 t t
    waiting : {c : Bool} {n : ℕ} {t u v : AnalyzerTab} → Waits t u → Run c n u v → Run c n t v
    emptying : {c : Bool} {n : ℕ} {t u v : AnalyzerTab} → Clears t u → Run c n u v → Run true n t v
    leaving : {c : Bool} {n : ℕ} {t v : AnalyzerTab} → Run c n (remount t) v → Run c n t v
    arriving :
        {c : Bool} {n : ℕ} {t u v : AnalyzerTab} → Arrives t u → Run c n u v → Run c (suc n) t v
