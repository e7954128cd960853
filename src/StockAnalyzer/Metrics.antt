-- ===== src/StockAnalyzer/Metrics.antt =====
-- The choices of the stock analyzer's tab, in
-- frontend/src/domains/equity/components/tabs/StockAnalyzerTab.tsx: the metrics of its three statements,
-- and the stocks that can be compared. `upper` is `toUpperCase`.
use finance_buddy.Prelude.{
  Bool, Bool-cases, List, Option, Text, [], any, any-append, arith, false, filter, if◌then◌else◌,
  inl, inr, length, length-append, ltb, ltb→lt, none, not, refl, some, text_eq, text_eq_iff, ◌&&◌,
  ◌++◌, ◌∷◌, ◌≡◌, ◌≤◌,
}
use finance_buddy.StockAnalyzer.{SearchResult, Stock}
use finance_buddy.Store.{given}

-- `toggleCfMetric`, `toggleIncMetric` and `toggleBsMetric`
unfoldable pub toggle_metric : Text → List Text → List Text
toggle_metric key prev =
    if any (text_eq key) prev
    then (if ltb 1 (length prev) then filter (λ k. not (text_eq k key)) prev else prev)
    else prev ++ (key ∷ [])

abbrev pub is_symbol : (Text → Text) → Text → Option Stock → Bool
is_symbol upper symbol none = false
is_symbol upper symbol (some stock) = text_eq (upper symbol) (upper stock.symbol)

-- `compareOptions`
unfoldable pub compare_options :
    (Text → Text) → Option Stock → List Stock → Option (List SearchResult) → List SearchResult
compare_options upper stock compared results =
    filter
      (λ s.
        not (is_symbol upper s.symbol stock)
        && not (any (λ x. text_eq (upper x.symbol) (upper s.symbol)) compared))
      (given results [])

-- No metric is chosen twice.
abbrev pub AreApart : List Text → Type 0
AreApart [] = Unit
AreApart (k ∷ ks) = (any (text_eq k) ks ≡ false) × AreApart ks

abbrev pub AreMetrics : List Text → Type 0
AreMetrics keys = (1 ≤ length keys) × AreApart keys

any-filter_none :
    (q p : Text → Bool) (ks : List Text) → any q ks ≡ false → any q (filter p ks) ≡ false
any-filter_none q p [] h = refl
any-filter_none q p (k ∷ ks) h = ground (arith, any-filter_none q p ks)

AreApart-filter : (p : Text → Bool) (ks : List Text) → AreApart ks → AreApart (filter p ks)
AreApart-filter p [] d = tt
AreApart-filter p (k ∷ ks) d = elim (Bool-cases (p k)) [
  | inl e ↦ rw e (any-filter_none (text_eq k) p ks d.0, AreApart-filter p ks d.1)
  | inr e ↦ rw e (AreApart-filter p ks d.1)
]

AreApart-snoc :
    (ks : List Text) (key : Text)
    → any (text_eq key) ks ≡ false
    → AreApart ks
    → AreApart (ks ++ (key ∷ []))
AreApart-snoc [] key h d = (refl, tt)
AreApart-snoc (k ∷ ks) key h d = (
  ground (arith, any-append (text_eq k) ks (key ∷ []), text_eq_iff k key, text_eq_iff key k),
  AreApart-snoc ks key ground arith d.1,
)

-- Of two metrics that differ one is left.
one_is_left :
    (key : Text) (ks : List Text)
    → 2 ≤ length ks
    → AreApart ks
    → 1 ≤ length (filter (λ k. not (text_eq k key)) ks)
one_is_left key [] l d = omega (arith, l)
one_is_left key (a ∷ []) l d = omega (arith, l)
one_is_left key (a ∷ (b ∷ ks)) l d =
    ground (arith, text_eq_iff a key, text_eq_iff b key, text_eq_iff a b)

-- From metrics of which none is chosen twice and one at least, every toggle leads to such again.
pub toggle_metric-AreMetrics :
    (key : Text) (keys : List Text) → AreMetrics keys → AreMetrics (toggle_metric key keys)
unfolding toggle_metric
toggle_metric-AreMetrics key keys m = elim (Bool-cases (any (text_eq key) keys)) [
  | inl h ↦ elim (Bool-cases (ltb 1 (length keys))) [
    | inl l ↦
        rw (h, l)
          (
            one_is_left key keys (ltb→lt 1 (length keys) l) m.1,
            AreApart-filter (λ k. not (text_eq k key)) keys m.1,
          )
    | inr l ↦ rw (h, l) m
  ]
  | inr h ↦ rw h (omega (arith, length-append keys (key ∷ [])), AreApart-snoc keys key h m.1)
]
