-- ===== src/Queries/BudgetFilters/Errors.antt =====
-- What a failed query of the budget does to the session on show, and whether it is repeated.
use finance_buddy.Prelude.{
  Text, codes, false, is_number, not, suc, ℕ, ◌↔◌, ◌≡◌, ◌⊎◌, arith, text_eq_iff,
}
use finance_buddy.Queries.BudgetFilters.{QueryError, reset_session_on_missing, retry}

-- After an error, the session on show stays exactly if the error is no 404 or the session is the
-- consolidated one; resetting twice is resetting once; and a failed query is repeated once, unless
-- the error is a 404.
pub missing_session_is_left :
    (e : QueryError) (session_id : Text) (n : ℕ)
    → ((reset_session_on_missing e session_id ≡ session_id)
        ↔ ((is_number e.status 404 ≡ false) ⊎ (session_id ≡ codes "overall")))
      × (reset_session_on_missing e (reset_session_on_missing e session_id)
          ≡ reset_session_on_missing e session_id)
      × (retry 0 e ≡ not (is_number e.status 404))
      × (retry (suc n) e ≡ false)
unfolding reset_session_on_missing retry
missing_session_is_left e session_id n = (
  ground (arith, text_eq_iff session_id (codes "overall")),
  ground (arith, text_eq_iff session_id (codes "overall")),
  ground arith,
  ground arith,
)
