-- ===== src/Tests/Stock.antt =====
-- The store of the stock analyzer.
use finance_buddy.Prelude.{
  Dict, List, String, Text, [], any, codes, false, if◌then◌else◌, lookup, not, refl, some, text_eq,
  trim, ◌∷◌, ◌≡◌,
}
use finance_buddy.StockAnalyzer.{
  toggle_watchlist, AnalyzerState, get_initial_watchlist, Action, initial_analyzer, run, adding,
  watchlist_key, toggling, Stock,
}
use finance_buddy.StockAnalyzer.Compared.{IsValid, run_from_start-IsValid}
use finance_buddy.StockAnalyzer.Watchlist.{any-toggle_watchlist, saved_watchlist_is_loaded}
use finance_buddy.Tests.App.{same_case}
use finance_buddy.Tests.Saved.{saved, load, load-saved, saved_ne}

abbrev stock_of : String → Stock
stock_of s = record { symbol = codes s; analysis = [] }

abbrev five_added : List Action
five_added =
    adding (stock_of "A")
    ∷ adding (stock_of "B")
    ∷ adding (stock_of "A")
    ∷ adding (stock_of "C")
    ∷ adding (stock_of "D")
    ∷ toggling (codes "TCS")
    ∷ adding (stock_of "E")
    ∷ []

abbrev start : AnalyzerState × Dict Text
unfolding initial_analyzer
start = (initial_analyzer (codes "TCS" ∷ []), [])

five_added_test :
    (run same_case saved false five_added start).0.compare_stocks
    ≡ stock_of "B" ∷ stock_of "C" ∷ stock_of "D" ∷ stock_of "E" ∷ []
unfolding run start
five_added_test = refl

run_from_start-IsValid_example :
    IsValid same_case
      (run same_case saved false five_added
        (initial_analyzer (codes "TCS" ∷ []), [])).0.compare_stocks
run_from_start-IsValid_example =
    run_from_start-IsValid same_case saved false (codes "TCS" ∷ []) [] five_added

any-toggle_watchlist_test :
    any
      (text_eq (codes "TCS"))
      (toggle_watchlist same_case saved false (codes " TCS") start).0.watchlist
    ≡ (if text_eq (trim (codes " TCS")) (codes "TCS")
        then not (any (text_eq (codes "TCS")) start.0.watchlist)
        else any (text_eq (codes "TCS")) start.0.watchlist)
any-toggle_watchlist_test =
    any-toggle_watchlist same_case saved false (codes " TCS") (codes "TCS") start

saved_watchlist_is_loaded_example :
    get_initial_watchlist load
      (some (lookup watchlist_key (toggle_watchlist same_case saved false (codes "INFY") start).1))
    ≡ (toggle_watchlist same_case saved false (codes "INFY") start).0.watchlist
saved_watchlist_is_loaded_example =
    saved_watchlist_is_loaded same_case saved load (codes "INFY") start load-saved saved_ne
