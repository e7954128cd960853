-- ===== src/StockAnalyzer/Charts.antt =====
-- The rows of the stock analyzer's charts, in
-- frontend/src/domains/equity/components/tabs/StockAnalyzerTab.tsx. Numbers are an argument, with
-- the operations that the code uses; of a list the server may leave out, `none` is undefined, and of
-- a point without a value, `none` is null.
pub mod Baseline
pub mod Normalised
use finance_buddy.Prelude.{
  Bool, List, Option, Text, [], get_elem?, if◌then◌else◌, length, none, some, suc, true, zero, ℕ,
  ◌-◌, ◌∷◌,
}
use finance_buddy.StockAnalyzer.{Timeframe}

pub record ChartNumbers (F : Type 0) : Type 0 where
  pub nil : F
  pub one : F
  pub hundred : F
  pub minus : F → F → F
  pub times : F → F → F
  pub over : F → F → F
  pub is_nil : F → Bool
  pub is_at_least : F → F → Bool
  -- `Math.round(n * 100) / 100`
  pub round : F → F
  -- `Math.floor((i / total) * last)`
  pub scaled : ℕ → ℕ → ℕ → ℕ

pub record TimeframeSlice (F : Type 0) : Type 0 where
  pub dates : List Text
  pub prices : List F
  pub start_price : F
  pub end_price : F
  pub change : F
  pub p_change : F

pub record Chart (F : Type 0) : Type 0 where
  pub dates : List Text
  pub prices : List F
  pub sma_50 : Option (List (Option F))
  pub sma_200 : Option (List (Option F))
  pub benchmark : Option (List (Option F))
  pub volume : Option (List F)

-- What the charts read of a stock.
pub record Charted (F : Type 0) : Type 0 where
  pub symbol : Text
  pub chart : Option (Chart F)
  pub timeframes : Option (Timeframe → Option (TimeframeSlice F))

pub record Point (F : Type 0) : Type 0 where
  pub date : Text
  pub price : Option F

pub record TechnicalPoint (F : Type 0) : Type 0 where
  pub date : Text
  pub price : Option F
  pub sma_50 : Option F
  pub sma_200 : Option F
  pub volume : F
  pub is_up : Bool

-- `xs.map((x, i) => f(i, x))`, from an index on.
abbrev pub map_from : {A B : Type 0} → (ℕ → A → B) → ℕ → List A → List B
map_from f i [] = []
map_from f i (x ∷ xs) = f i x ∷ map_from f (suc i) xs

abbrev pub or_empty : {A : Type 0} → Option (List A) → List A
or_empty none = []
or_empty (some xs) = xs

-- `xs[i] ?? null`
abbrev pub point : {A : Type 0} → List (Option A) → ℕ → Option A
point xs i = elim (get_elem? xs i) [ none ↦ none | some o ↦ o ]

abbrev pub chart_dates : {F : Type 0} → Option (Chart F) → List Text
chart_dates none = []
chart_dates (some c) = c.dates

abbrev pub chart_prices : {F : Type 0} → Option (Chart F) → List F
chart_prices none = []
chart_prices (some c) = c.prices

unfoldable pub chart_data : {F : Type 0} → Option (TimeframeSlice F) → List (Point F)
chart_data none = []
chart_data (some slice) =
    map_from (λ i d. record { date = d; price = get_elem? slice.prices i }) 0 slice.dates

module _ {F : Type 0} (numbers : ChartNumbers F) where
  abbrev pub or_nil : Option F → F
  or_nil none = numbers.nil
  or_nil (some n) = n

  abbrev fallback_slice : Option (Chart F) → TimeframeSlice F
  fallback_slice chart =
      let prices = chart_prices chart in
      let st = or_nil (get_elem? prices 0) in
      let end = or_nil (get_elem? prices (length prices - 1)) in
      let chg = numbers.minus end st in
      record {
        dates = chart_dates chart;
        prices = prices;
        start_price = st;
        end_price = end;
        change = chg;
        p_change =
            if numbers.is_nil st
            then numbers.nil
            else numbers.times (numbers.over chg st) numbers.hundred;
      }

  abbrev slice_of :
      Option (Timeframe → Option (TimeframeSlice F)) → Timeframe → Option (TimeframeSlice F)
  slice_of none timeframe = none
  slice_of (some timeframes) timeframe = timeframes timeframe

  unfoldable pub active_slice : Option (Charted F) → Timeframe → Option (TimeframeSlice F)
  active_slice none timeframe = none
  active_slice (some stock) timeframe = elim (slice_of stock.timeframes timeframe) [
    | some slice ↦ some slice
    | none ↦ some (fallback_slice stock.chart)
  ]

  abbrev pub previous : List F → ℕ → Option F
  previous prices zero = none
  previous prices (suc i) = get_elem? prices i

  abbrev pub rose : Option F → Option F → Bool
  rose (some p) (some prev) = numbers.is_at_least p prev
  rose _ _ = true

  abbrev technical_rows : Chart F → List (TechnicalPoint F)
  technical_rows chart =
      map_from
        (λ i d. record {
          date = d;
          price = get_elem? chart.prices i;
          sma_50 = point (or_empty chart.sma_50) i;
          sma_200 = point (or_empty chart.sma_200) i;
          volume = or_nil (get_elem? (or_empty chart.volume) i);
          is_up = rose (get_elem? chart.prices i) (previous chart.prices i);
        })
        0 chart.dates

  unfoldable pub technical_chart_data : Option (Charted F) → List (TechnicalPoint F)
  technical_chart_data none = []
  technical_chart_data (some stock) = elim stock.chart [
    | none ↦ []
    | some chart ↦ technical_rows chart
  ]
