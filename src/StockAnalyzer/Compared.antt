-- ===== src/StockAnalyzer/Compared.antt =====
-- The comparison list: its length, and its symbols in upper case.
use finance_buddy.Prelude.{
  Bool, List, Text, [], any, arith, false, filter, length, refl, sym, text_eq, text_eq_iff, ◌++◌,
  ◌∷◌, ◌≡◌, ◌≤◌, Bool-cases, any-append, inl, inr, Dict, drop, if◌then◌else◌, leb, length-append,
  length-drop, length-filter_le, not,
}
use finance_buddy.StockAnalyzer.{
  Stock, add_compare_stock, remove_compare_stock, AnalyzerState, set_query, clearing_compared,
  set_compare_benchmark, adding, clear_compare_stocks, toggle_watchlist, set_analysis_error,
  set_active_sub_tab, initial_analyzer, set_active_timeframe, Action, set_impact, clearing,
  set_chart_type, set_impact_amount, removing, set_stock, run, toggling, clear, set_selected_stock,
  act,
}

abbrev pub has_symbol : (Text → Text) → Text → List Stock → Bool
has_symbol upper sym stocks = any (λ x. text_eq (upper x.symbol) (upper sym)) stocks

-- No two symbols are equal in upper case.
abbrev pub AreDistinct : (Text → Text) → List Stock → Type 0
AreDistinct upper [] = Unit
AreDistinct upper (x ∷ xs) = (has_symbol upper x.symbol xs ≡ false) × AreDistinct upper xs

abbrev pub IsValid : (Text → Text) → List Stock → Type 0
IsValid upper stocks = AreDistinct upper stocks × (length stocks ≤ 4)

module _ (upper : Text → Text) where
  text_eq_sym : (a b : Text) → text_eq a b ≡ text_eq b a
  text_eq_sym a b = ground (arith, text_eq_iff a b, text_eq_iff b a)

  AreDistinct-snoc :
      (xs : List Stock) (new : Stock)
      → AreDistinct upper xs
      → has_symbol upper new.symbol xs ≡ false
      → AreDistinct upper (xs ++ (new ∷ []))
  AreDistinct-snoc [] new d h = (refl, tt)
  AreDistinct-snoc (x ∷ xs) new d h = (
    ground (
      arith,
      any-append (λ y. text_eq (upper y.symbol) (upper x.symbol)) xs (new ∷ []),
      text_eq_sym (upper x.symbol) (upper new.symbol),
    ),
    AreDistinct-snoc xs new d.1 ground arith,
  )

  any-filter_stays :
      (q p : Stock → Bool) (xs : List Stock) → any q xs ≡ false → any q (filter p xs) ≡ false
  any-filter_stays q p [] h = refl
  any-filter_stays q p (x ∷ xs) h = ground (arith, any-filter_stays q p xs)

  AreDistinct-filter :
      (p : Stock → Bool) (xs : List Stock) → AreDistinct upper xs → AreDistinct upper (filter p xs)
  AreDistinct-filter p [] d = tt
  AreDistinct-filter p (x ∷ xs) d = elim (Bool-cases (p x)) [
    | inl e ↦ rw e (
      any-filter_stays (λ y. text_eq (upper y.symbol) (upper x.symbol)) p xs d.0,
      AreDistinct-filter p xs d.1,
    )
    | inr e ↦ rw e (AreDistinct-filter p xs d.1)
  ]

  AreDistinct-drop : (xs : List Stock) → AreDistinct upper xs → AreDistinct upper (drop 1 xs)
  AreDistinct-drop [] d = tt
  AreDistinct-drop (x ∷ xs) d = d.1

  any-drop_stays :
      (q : Stock → Bool) (xs : List Stock) → any q xs ≡ false → any q (drop 1 xs) ≡ false
  any-drop_stays q [] h = refl
  any-drop_stays q (x ∷ xs) h = ground arith

  IsValid-appended :
      (xs : List Stock) (new : Stock)
      → AreDistinct upper xs
      → has_symbol upper new.symbol xs ≡ false
      → length xs ≤ 3
      → IsValid upper (xs ++ (new ∷ []))
  IsValid-appended xs new d h l =
      (AreDistinct-snoc xs new d h, omega (arith, length-append xs (new ∷ []), l))

  IsValid-add :
      (new : Stock) (s : AnalyzerState)
      → IsValid upper s.compare_stocks
      → IsValid upper (add_compare_stock upper new s).compare_stocks
  unfolding add_compare_stock
  IsValid-add new s v = elim (Bool-cases (has_symbol upper new.symbol s.compare_stocks)) [
    | inl e ↦ rw e v
    | inr e ↦ rw e (elim (Bool-cases (leb 4 (length s.compare_stocks))) [
      | inl m ↦ rw m (
          IsValid-appended (drop 1 s.compare_stocks) new (AreDistinct-drop s.compare_stocks v.0)
            (any-drop_stays (λ x. text_eq (upper x.symbol) (upper new.symbol)) s.compare_stocks e)
            (omega (arith, length-drop 1 s.compare_stocks, v.1)))
      | inr m ↦ rw m (IsValid-appended s.compare_stocks new v.0 e (ground arith))
    ])
  ]

  IsValid-remove :
      (sym : Text) (s : AnalyzerState)
      → IsValid upper s.compare_stocks
      → IsValid upper (remove_compare_stock upper sym s).compare_stocks
  unfolding remove_compare_stock
  IsValid-remove sym s v = (
    AreDistinct-filter _ s.compare_stocks v.0,
    omega (
      arith,
      length-filter_le (λ x. not (text_eq (upper x.symbol) (upper sym))) s.compare_stocks,
      v.1,
    ),
  )

module _ (upper : Text → Text) (json : List Text → Text) (blocked : Bool) where
  IsValid-act :
      (a : Action) (w : AnalyzerState × Dict Text)
      → IsValid upper w.0.compare_stocks
      → IsValid upper (act upper json blocked a w).0.compare_stocks
  unfolding act toggle_watchlist clear clear_compare_stocks
  IsValid-act (set_query x) w v = v
  IsValid-act (set_impact_amount x) w v = v
  IsValid-act (set_selected_stock x) w v = v
  IsValid-act (set_impact x) w v = v
  IsValid-act (set_analysis_error x) w v = v
  IsValid-act (set_stock x) w v = v
  IsValid-act (set_active_sub_tab x) w v = v
  IsValid-act (set_active_timeframe x) w v = v
  IsValid-act (set_chart_type x) w v = v
  IsValid-act (set_compare_benchmark x) w v = v
  IsValid-act (adding x) w v = IsValid-add upper x w.0 v
  IsValid-act (removing x) w v = IsValid-remove upper x w.0 v
  IsValid-act (toggling x) w v = v
  IsValid-act clearing_compared w v = (tt, omega arith)
  IsValid-act clearing w v = (tt, omega arith)

  IsValid-run :
      (actions : List Action) (w : AnalyzerState × Dict Text)
      → IsValid upper w.0.compare_stocks
      → IsValid upper (run upper json blocked actions w).0.compare_stocks
  unfolding run
  IsValid-run [] w v = v
  IsValid-run (a ∷ actions) w v =
      IsValid-run actions (act upper json blocked a w) (IsValid-act a w v)

-- After any actions from the start, the stocks that are compared are at most four and no two
-- symbols are equal in upper case.
pub run_from_start-IsValid :
    (upper : Text → Text) (json : List Text → Text) (blocked : Bool) (watchlist : List Text)
    (storage : Dict Text) (actions : List Action)
    → IsValid upper
        (run upper json blocked actions (initial_analyzer watchlist, storage)).0.compare_stocks
unfolding initial_analyzer
run_from_start-IsValid upper json blocked watchlist storage actions =
    IsValid-run upper json blocked actions (initial_analyzer watchlist, storage) (tt, omega arith)

any-filter_symbol :
    (upper : Text → Text) (sym other : Text) (xs : List Stock)
    → has_symbol upper other (filter (λ x. not (text_eq (upper x.symbol) (upper sym))) xs)
      ≡ (if text_eq (upper sym) (upper other) then false else has_symbol upper other xs)
any-filter_symbol upper sym other [] = ground arith
any-filter_symbol upper sym other (x ∷ xs) = ground (
  arith,
  text_eq_iff (upper x.symbol) (upper sym),
  text_eq_iff (upper x.symbol) (upper other),
  text_eq_iff (upper sym) (upper other),
  any-filter_symbol upper sym other xs,
)

-- After a symbol is removed from the comparison, none that equals it in upper case is left and
-- every other is there exactly if it was.
has_symbol-remove :
    (upper : Text → Text) (sym other : Text) (s : AnalyzerState)
    → has_symbol upper other (remove_compare_stock upper sym s).compare_stocks ≡ (
        if text_eq (upper sym) (upper other)
        then false
        else has_symbol upper other s.compare_stocks)
unfolding remove_compare_stock
has_symbol-remove upper sym other s = any-filter_symbol upper sym other s.compare_stocks
