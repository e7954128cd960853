-- ===== src/Queries/Equity/Placeholder.antt =====
-- Which rows stay on screen while the next ones are fetched.
use finance_buddy.Prelude.{
  Bool, Option, Text, false, if◌then◌else◌, none, refl, some, text_eq, true, ◌∷◌, ◌≡◌,
}
use finance_buddy.Queries.Equity.{
  query, use_equity_performance, use_equity_holdings, placeholder_data, is_same_id,
}
use finance_buddy.Queries.Key.{Part, Key, name, id_part}
use finance_buddy.Store.{AppState}

abbrev pub is_same : Option Text → Option Text → Bool
is_same none none = true
is_same (some a) (some b) = text_eq a b
is_same _ _ = false

is_same_id-key :
    (previous sid : Option Text) (root second : Part) (rest : Key)
    → is_same_id (root ∷ second ∷ id_part previous ∷ rest) sid ≡ is_same previous sid
is_same_id-key none none root second rest = refl
is_same_id-key none (some b) root second rest = refl
is_same_id-key (some a) none root second rest = refl
is_same_id-key (some a) (some b) root second rest = refl

-- Rows of the holdings or the performance of one state stay on screen in another exactly if both
-- states have the same equity session.
placeholder_is_of_session :
    {A : Type 0} (encode : Text → Text) (s s' : AppState) (sort_by : Option Text)
    (ascending : Option Bool) (period benchmark : Text) (rows : Option A)
    → (placeholder_data s'.equity_session_id
          (query encode s (use_equity_holdings sort_by ascending)).key
          rows
        ≡ (if is_same s.equity_session_id s'.equity_session_id then rows else none))
      × (placeholder_data s'.equity_session_id
            (query encode s (use_equity_performance period benchmark)).key
            rows
          ≡ (if is_same s.equity_session_id s'.equity_session_id then rows else none))
unfolding placeholder_data query
placeholder_is_of_session encode s s' sort_by ascending period benchmark rows = (
  rw (is_same_id-key s.equity_session_id s'.equity_session_id (name "equity") (name "holdings") _)
      refl,
  rw
      (is_same_id-key s.equity_session_id s'.equity_session_id (name "equity") (name "performance")
        _)
      refl,
)
