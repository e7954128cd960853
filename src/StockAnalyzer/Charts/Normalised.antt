-- ===== src/StockAnalyzer/Charts/Normalised.antt =====
-- The comparison of stocks in frontend/src/domains/equity/components/tabs/StockAnalyzerTab.tsx: every
-- series in percent of its first price. A row keeps its date apart from the values by symbol.
use Prim.Native.Nat.{min}
use finance_buddy.Prelude.{
  Bool, List, Option, Text, [], codes, false, get_elem?, if◌then◌else◌, length, max, none, some,
  suc, text_eq, true, ℕ, ◌-◌, ◌∷◌,
}
use finance_buddy.StockAnalyzer.Charts.{
  ChartNumbers, Charted, point, chart_prices, Chart, map_from, chart_dates, or_empty,
}

pub record ComparedPoint (F : Type 0) : Type 0 where
  pub date : Text
  pub values : List (Text × F)

-- `xs.find((v) => v != null)`
abbrev pub first_value : {A : Type 0} → List (Option A) → Option A
first_value [] = none
first_value (none ∷ xs) = first_value xs
first_value (some a ∷ xs) = some a

-- `xs.indexOf(d)`, from an index on.
abbrev pub index_from : Text → ℕ → List Text → Option ℕ
index_from d i [] = none
index_from d i (x ∷ xs) = let rest = index_from d (suc i) xs in if text_eq x d then some i else rest

-- `row[key] = value`
abbrev pub put_value : {A : Type 0} → Text → A → List (Text × A) → List (Text × A)
put_value key value [] = (key, value) ∷ []
put_value key value ((k, v) ∷ rest) =
    let more = put_value key value rest in
    if text_eq k key then (k, value) ∷ rest else (k, v) ∷ more

module _ {F : Type 0} (numbers : ChartNumbers F) where
  -- `n || other`
  abbrev pub or_number : Option F → F → F
  or_number none other = other
  or_number (some n) other = if numbers.is_nil n then other else n

  abbrev pub percent : F → F → F
  percent start p =
      numbers.round (numbers.times (numbers.over (numbers.minus p start) start) numbers.hundred)

  -- The price of a compared stock on the date, or near its place in the chart.
  abbrev pub compared_price : Charted F → Text → ℕ → ℕ → F
  compared_price comp d i total =
      let prices = chart_prices comp.chart in
      let start = or_number (get_elem? prices 0) numbers.one in
      elim (index_from d 0 (chart_dates comp.chart)) [
        | some k ↦ or_number (get_elem? prices k) start
        | none ↦
            or_number
              (get_elem? prices
                (min (length prices - 1) (numbers.scaled i total (length prices - 1))))
              start
      ]

  abbrev pub put_compared : List (Charted F) → Text → ℕ → ℕ → List (Text × F) → List (Text × F)
  put_compared [] d i total row = row
  put_compared (comp ∷ comps) d i total row =
      let start = or_number (get_elem? (chart_prices comp.chart) 0) numbers.one in
      put_compared comps d i total
        (put_value comp.symbol (percent start (compared_price comp d i total)) row)

  abbrev pub put_benchmark : Bool → List (Option F) → ℕ → List (Text × F) → List (Text × F)
  put_benchmark false bm i row = row
  put_benchmark true bm i row = elim (first_value bm) [
    | none ↦ row
    | some start ↦ elim (point bm i) [
      | none ↦ row
      | some here ↦ put_value (codes "NIFTY 50") (percent start here) row
    ]
  ]

  abbrev pub compared_row : Bool → List (Charted F) → Text → Chart F → ℕ → Text → ComparedPoint F
  compared_row with_benchmark comps symbol chart i d =
      let start = or_number (get_elem? chart.prices 0) numbers.one in
      let own = percent start (or_number (get_elem? chart.prices i) start) in
      record {
        date = d;
        values =
            put_benchmark with_benchmark (or_empty chart.benchmark) i
              (put_compared comps d i (max 1 (length chart.dates - 1)) ((symbol, own) ∷ []));
      }

  unfoldable pub compare_data :
      Bool → List (Charted F) → Option (Charted F) → List (ComparedPoint F)
  compare_data with_benchmark comps none = []
  compare_data with_benchmark comps (some stock) = elim stock.chart [
    | none ↦ []
    | some chart ↦ map_from (compared_row with_benchmark comps stock.symbol chart) 0 chart.dates
  ]
