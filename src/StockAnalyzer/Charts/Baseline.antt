-- ===== src/StockAnalyzer/Charts/Baseline.antt =====
-- Where the series of the comparison start, and which days of the technical chart are up.
use finance_buddy.Prelude.{
  All, Bool, Bool-cases, List, Option, Option-cases, Text, [], arith, codes, false, get_elem?, inl,
  inr, none, refl, some, take, text_eq, true, ℕ, ◌∷◌, ◌≡◌, length, max, ◌-◌,
}
use finance_buddy.StockAnalyzer.Charts.{
  ChartNumbers, Charted, point, Chart, chart_dates, or_empty, chart_prices, map_from,
}
use finance_buddy.StockAnalyzer.Charts.Normalised.{
  compare_data, percent, or_number, put_value, index_from, put_benchmark, first_value, put_compared,
  compared_price, compared_row,
}

abbrev pub AreNil : {F : Type 0} → ChartNumbers F → List (Text × F) → Type 0
AreNil numbers row = All (λ kv. kv.1 ≡ numbers.nil) row

-- What is asked of the numbers.
pub record IsArithmetic {F : Type 0} (numbers : ChartNumbers F) : Type 0 where
  pub minus_self : (x : F) → numbers.minus x x ≡ numbers.nil
  pub nil_over : (x : F) → numbers.is_nil x ≡ false → numbers.over numbers.nil x ≡ numbers.nil
  pub nil_times : (x : F) → numbers.times numbers.nil x ≡ numbers.nil
  pub round_nil : numbers.round numbers.nil ≡ numbers.nil
  pub one_is_some : numbers.is_nil numbers.one ≡ false

module _ {F : Type 0} (numbers : ChartNumbers F) (laws : IsArithmetic numbers) where
  percent_self : (x : F) → numbers.is_nil x ≡ false → percent numbers x x ≡ numbers.nil
  percent_self x h =
      rw (percent, laws.minus_self, laws.nil_over x h, laws.nil_times, laws.round_nil) refl

  or_number-one : (o : Option F) → numbers.is_nil (or_number numbers o numbers.one) ≡ false
  or_number-one none = laws.one_is_some
  or_number-one (some n) = elim (Bool-cases (numbers.is_nil n)) [
    | inl k ↦ rw k laws.one_is_some
    | inr k ↦ rw k k
  ]

  or_number_again :
      (o : Option F) (other : F)
      → or_number numbers o (or_number numbers o other) ≡ or_number numbers o other
  or_number_again none other = refl
  or_number_again (some n) other = ground arith

  AreNil-put_value :
      (key : Text) (v : F) (row : List (Text × F))
      → v ≡ numbers.nil
      → AreNil numbers row
      → AreNil numbers (put_value key v row)
  AreNil-put_value key v [] e h = (e, tt)
  AreNil-put_value key v ((k, w) ∷ row) e h = elim (Bool-cases (text_eq k key)) [
    | inl b ↦ rw b (e, h.1)
    | inr b ↦ rw b (h.0, AreNil-put_value key v row e h.1)
  ]

  AreNil-put_compared :
      (comps : List (Charted F)) (d : Text) (total : ℕ) (row : List (Text × F))
      → All (λ comp. index_from d 0 (chart_dates comp.chart) ≡ some 0) comps
      → AreNil numbers row
      → AreNil numbers (put_compared numbers comps d 0 total row)
  AreNil-put_compared [] d total row starts h = h
  AreNil-put_compared (comp ∷ comps) d total row starts h =
      let first = get_elem? (chart_prices comp.chart) 0 in
      AreNil-put_compared comps d total _ starts.1 (
        AreNil-put_value comp.symbol _ row
          (rw (compared_price, starts.0, or_number_again first numbers.one)
            (percent_self _ (or_number-one first)))
          h)

  AreNil-put_benchmark :
      (bm : List (Option F)) (row : List (Text × F))
      → ((b : F) → point bm 0 ≡ some b → numbers.is_nil b ≡ false)
      → AreNil numbers row
      → AreNil numbers (put_benchmark numbers true bm 0 row)
  AreNil-put_benchmark [] row some_first h = h
  AreNil-put_benchmark (some b ∷ bm) row some_first h =
      AreNil-put_value (codes "NIFTY 50") _ row (percent_self b (some_first b refl)) h
  AreNil-put_benchmark (none ∷ bm) row some_first h = elim (Option-cases (first_value bm)) [
    | inl k ↦ rw (put_benchmark, k) h
    | inr (b, k) ↦ rw (put_benchmark, k) h
  ]

  AreNil-compared_row :
      (with_benchmark : Bool) (comps : List (Charted F)) (symbol : Text) (chart : Chart F)
      (d : Text)
      → All (λ comp. index_from d 0 (chart_dates comp.chart) ≡ some 0) comps
      → ((b : F) → point (or_empty chart.benchmark) 0 ≡ some b → numbers.is_nil b ≡ false)
      → AreNil numbers (compared_row numbers with_benchmark comps symbol chart 0 d).values
  AreNil-compared_row with_benchmark comps symbol chart d starts bm =
      with_or_without with_benchmark _ (
        AreNil-put_compared comps d (max 1 (length chart.dates - 1)) _ starts
          (rw (or_number_again first numbers.one) (percent_self _ (or_number-one first)), tt))
    where
      first : Option F
      first = get_elem? chart.prices 0

      with_or_without :
          (b : Bool) (row : List (Text × F))
          → AreNil numbers row
          → AreNil numbers (put_benchmark numbers b (or_empty chart.benchmark) 0 row)
      with_or_without false row h = h
      with_or_without true row h = AreNil-put_benchmark (or_empty chart.benchmark) row bm h

All-first_of_map :
    {A B : Type 0} (P : B → Type 0) (f : ℕ → A → B) (xs : List A) (x : A) (rest : List A)
    → xs ≡ x ∷ rest
    → P (f 0 x)
    → All P (take 1 (map_from f 0 xs))
All-first_of_map P f xs x rest e h = rw e (h, tt)

-- In the first row of the comparison every series stands at zero: the stock, the benchmark, if it
-- is not zero on the first date, and every compared stock whose chart starts on the same date.
pub compared_series_start_at_nil :
    {F : Type 0} (numbers : ChartNumbers F) (with_benchmark : Bool) (comps : List (Charted F))
    (stock : Charted F) (chart : Chart F) (d : Text) (ds : List Text)
    → IsArithmetic numbers
    → stock.chart ≡ some chart
    → chart.dates ≡ d ∷ ds
    → All (λ comp. index_from d 0 (chart_dates comp.chart) ≡ some 0) comps
    → ((b : F) → point (or_empty chart.benchmark) 0 ≡ some b → numbers.is_nil b ≡ false)
    → All
        (λ row. AreNil numbers row.values)
        (take 1 (compare_data numbers with_benchmark comps (some stock)))
unfolding compare_data
compared_series_start_at_nil numbers with_benchmark comps stock chart d ds laws e f starts bm =
    rw e (
      All-first_of_map _ (compared_row numbers with_benchmark comps stock.symbol chart) chart.dates
        d ds f
        (AreNil-compared_row numbers laws with_benchmark comps stock.symbol chart d starts bm))
