-- ===== src/Tests/Analyzer.antt =====
-- The stock analyzer's tab: selections, their answers, and the comparison's first row.
use finance_buddy.Prelude.{
  trim, Bool, Text, [], codes, false, is_empty, not, refl, some, ◌∷◌, ◌≡◌, All, List, arith, leb,
  nat_eq, none, take, true, ℕ, ◌*◌, ◌-◌, ◌/◌,
}
use finance_buddy.StockAnalyzer.{SearchResult, Stock, initial_analyzer}
use finance_buddy.StockAnalyzer.Charts.{ChartNumbers, Chart, Charted}
use finance_buddy.StockAnalyzer.Charts.Baseline.{IsArithmetic, AreNil, compared_series_start_at_nil}
use finance_buddy.StockAnalyzer.Charts.Normalised.{compare_data}
use finance_buddy.StockAnalyzer.Tab.{
  handle_select, Reply, analysis_answered, mounted_over, AnalyzerTab, analysed, failed,
  handle_input_change, typed, handle_impact, remount,
}
use finance_buddy.StockAnalyzer.Tab.Latest.{last_selection_is_shown}
use finance_buddy.StockAnalyzer.Tab.Served.{Shows}
use finance_buddy.StockAnalyzer.Tab.Settled.{loading_ends}
use finance_buddy.StockAnalyzer.Tab.Stale.{cleared_tab_is_filled, earlier_mounting_overwrites}
use finance_buddy.StockAnalyzer.Tab.Steps.{
  emptying, input_cleared, Run, Reach, after, arriving, first, selecting, analysis_came, done,
}
use finance_buddy.StockAnalyzer.Tab.View.{request, view}
use finance_buddy.Tests.App.{same_case}
use native.Mathlib.Nat.{zero-div}

abbrev tcs : SearchResult
tcs = record { symbol = codes "TCS"; name = codes "Tata" }

abbrev infy : SearchResult
infy = record { symbol = codes "INFY"; name = codes "Infosys" }

abbrev analysed_as : SearchResult → Stock
analysed_as v = record { symbol = v.symbol; analysis = [] }

abbrev is_positive : Text → Bool
is_positive s = not (is_empty s)

abbrev IsAbout : Text → Stock → Type 0
IsAbout symbol s = s.symbol ≡ symbol

abbrev fresh : AnalyzerTab
fresh = mounted_over (initial_analyzer []) (some (codes "s1"))

abbrev asked : AnalyzerTab
asked = handle_select (some tcs) fresh

abbrev asked_again : AnalyzerTab
asked_again = handle_select (some infy) asked

abbrev reply : Reply
reply = analysed (analysed_as infy)

abbrev answered_last : AnalyzerTab
answered_last =
    analysis_answered is_positive (request asked infy) reply
      (record asked_again { analyses = request fresh tcs ∷ [] })

abbrev answered_both : AnalyzerTab
answered_both =
    analysis_answered is_positive (request fresh tcs) (failed (some 404))
      (record answered_last { analyses = [] })

both_answered_test :
    (answered_both.store.stock ≡ some (analysed_as infy)) × (answered_both.loading_analysis ≡ false)
unfolding mounted_over handle_select handle_impact analysis_answered initial_analyzer
both_answered_test = (refl, refl)

asked-Reach : Reach same_case is_positive IsAbout asked
asked-Reach = after (first (initial_analyzer []) (some (codes "s1"))) (selecting (some tcs))

asked_again-Reach : Reach same_case is_positive IsAbout asked_again
asked_again-Reach = after asked-Reach (selecting (some infy))

both_answered : Run same_case is_positive IsAbout false 2 asked_again answered_both
unfolding mounted_over handle_select handle_impact analysis_answered initial_analyzer
both_answered =
    arriving (analysis_came [] (request fresh tcs ∷ []) (request asked infy) reply refl refl)
      (arriving (analysis_came [] [] (request fresh tcs) (failed (some 404)) refl tt) done)

loading_ends_example : (answered_both.analyses ≡ []) × (answered_both.loading_analysis ≡ false)
unfolding handle_select analysis_answered mounted_over
loading_ends_example = loading_ends same_case is_positive IsAbout asked_again-Reach both_answered

last_selection_is_shown_example :
    Shows IsAbout (codes "INFY") fresh.store.stock false (view answered_both)
unfolding handle_select mounted_over analysis_answered initial_analyzer
last_selection_is_shown_example =
    last_selection_is_shown same_case is_positive IsAbout infy asked-Reach (refl, tt) both_answered
      refl

-- The search box is emptied while INFY is analysed: the answer is shown all the same.
abbrev emptied_tab : AnalyzerTab
emptied_tab = handle_input_change typed (codes " ") asked_again

abbrev answered_emptied : AnalyzerTab
answered_emptied =
    analysis_answered is_positive (request asked infy) reply
      (record emptied_tab { analyses = request fresh tcs ∷ [] })

emptied_is_answered : Run same_case is_positive IsAbout true 1 asked_again answered_emptied
unfolding mounted_over handle_select handle_input_change trim
emptied_is_answered =
    emptying (input_cleared typed (codes " ") refl) (
      arriving (analysis_came [] (request fresh tcs ∷ []) (request asked infy) reply refl refl)
        done)

emptied_is_answered_test :
    Shows IsAbout (codes "INFY") fresh.store.stock true (view answered_emptied)
unfolding handle_select mounted_over handle_input_change analysis_answered initial_analyzer trim
emptied_is_answered_test =
    last_selection_is_shown same_case is_positive IsAbout infy asked-Reach (refl, tt)
      emptied_is_answered refl

earlier_mounting_overwrites_example :
    let u =
      analysis_answered is_positive
        (request (remount asked) infy)
        (analysed (analysed_as infy))
        (handle_select (some infy) (remount asked)) in
    let u' = analysis_answered is_positive (request fresh tcs) (analysed (analysed_as tcs)) u in
    (u'.store.selected_stock ≡ some infy) × (u'.store.stock ≡ some (analysed_as tcs))
unfolding mounted_over handle_select
earlier_mounting_overwrites_example =
    earlier_mounting_overwrites is_positive asked (request fresh tcs) (request (remount asked) infy)
      infy (analysed_as tcs) (analysed_as infy) (omega arith) refl

cleared_tab_is_filled_test :
    let u =
      analysis_answered is_positive
        (request fresh tcs)
        (analysed (analysed_as tcs))
        (handle_select none asked) in
    (u.store.selected_stock ≡ none) × (u.store.stock ≡ some (analysed_as tcs))
unfolding mounted_over handle_select
cleared_tab_is_filled_test =
    cleared_tab_is_filled is_positive asked (request fresh tcs) (analysed_as tcs) refl

abbrev naturals : ChartNumbers ℕ
naturals = record {
  nil = 0;
  one = 1;
  hundred = 100;
  minus = λ a b. a - b;
  times = λ a b. a * b;
  over = λ a b. a / b;
  is_nil = nat_eq 0;
  is_at_least = λ a b. leb b a;
  round = λ n. n;
  scaled = λ i total last. i * last / total;
}

naturals-IsArithmetic : IsArithmetic naturals
naturals-IsArithmetic = record {
  minus_self = λ x. omega arith;
  nil_over = λ x h. zero-div x;
  nil_times = λ x. omega arith;
  round_nil = refl;
  one_is_some = refl;
}

abbrev chart_of : List ℕ → Chart ℕ
chart_of prices = record {
  dates = codes "Mon" ∷ codes "Tue" ∷ [];
  prices = prices;
  sma_50 = none;
  sma_200 = none;
  benchmark = some (some 200 ∷ none ∷ []);
  volume = none;
}

abbrev charted : SearchResult → List ℕ → Charted ℕ
charted v prices = record { symbol = v.symbol; chart = some (chart_of prices); timeframes = none }

compared_test :
    compare_data naturals true
      (charted infy (40 ∷ 50 ∷ []) ∷ [])
      (some (charted tcs (10 ∷ 30 ∷ [])))
    ≡ record {
      date = codes "Mon";
      values = (codes "TCS", 0) ∷ (codes "INFY", 0) ∷ (codes "NIFTY 50", 0) ∷ [];
    }
      ∷ record { date = codes "Tue"; values = (codes "TCS", 200) ∷ (codes "INFY", 0) ∷ [] }
      ∷ []
unfolding compare_data
compared_test = refl

abbrev not_nil : (b : ℕ) → some 200 ≡ some b → nat_eq 0 b ≡ false
not_nil b e = ground arith

compared_series_start_at_nil_test :
    All
      (λ row. AreNil naturals row.values)
      (take 1 (
        compare_data naturals true
          (charted infy (40 ∷ 50 ∷ []) ∷ [])
          (some (charted tcs (10 ∷ 30 ∷ [])))))
compared_series_start_at_nil_test =
    compared_series_start_at_nil naturals true (charted infy (40 ∷ 50 ∷ []) ∷ [])
      (charted tcs (10 ∷ 30 ∷ [])) (chart_of (10 ∷ 30 ∷ [])) (codes "Mon") (codes "Tue" ∷ [])
      naturals-IsArithmetic refl refl (refl, tt) not_nil
