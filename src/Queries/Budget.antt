-- ===== src/Queries/Budget.antt =====
-- The queries of frontend/src/domains/budget/hooks/useBudget.ts. `lower` is `toLowerCase` and
-- `encode` the client's `encodeURIComponent`.
use finance_buddy.Api.Budget
use finance_buddy.Api.Budget.{
  get_budget_anomalies, get_budget_transactions, get_budget_forecast, get_budget_envelopes,
  get_budget_accounts, get_budget_categories, get_budget_sessions, get_budget_transfers,
  get_budget_overview, get_budget_recurring, get_budget_sankey, get_budget_reconciliation,
  get_budget_coverage, request,
}
use finance_buddy.Api.Request.{Request, num}
use finance_buddy.Prelude.{
  Bool, List, Option, String, Text, [], insert, is_empty, not, some, true, ℕ, ◌&&◌, ◌∷◌,
}
use finance_buddy.Queries.BudgetFilters.{BudgetFilters, to_query_params}
use finance_buddy.Queries.Key.{Part, Query, name, str, fields}
use finance_buddy.Store.{given}

pub data Hook : Type 0 where
  use_budget_sessions : Hook
  use_budget_overview use_budget_categories : (session_id : Text) (filters : BudgetFilters) → Hook
  use_budget_transactions : (session_id : Text) (filters : BudgetFilters) (limit : Option ℕ) → Hook
  use_budget_accounts : (session_id : Text) → Hook
  use_budget_transfers use_budget_recurring use_budget_forecast use_budget_anomalies
        use_budget_reconciliation use_budget_coverage use_budget_sankey use_budget_envelopes :
      (session_id : Text) (enabled : Option Bool) → Hook

abbrev pub transactions_page_size : ℕ
transactions_page_size = 1000

abbrev query_of : String → Text → List Part → Bool → Request → Query
query_of root session_id rest enabled request = record {
  key = name "budget" ∷ name root ∷ str session_id ∷ rest;
  request = request;
  enabled = enabled && not (is_empty session_id);
}

-- The queries that take a session id and an optional `enabled`.
abbrev insight : String → Text → Option Bool → Request → Query
insight root session_id enabled request = query_of root session_id [] (given enabled true) request

unfoldable pub query : (Text → Text) → (Text → Text) → Hook → Query
unfolding to_query_params insert Budget.request
query lower encode use_budget_sessions = record {
  key = name "budget" ∷ name "sessions" ∷ [];
  request = Budget.request encode get_budget_sessions;
  enabled = true;
}
query lower encode (use_budget_overview sid filters) =
    let params = to_query_params lower (some filters) in
    query_of "overview" sid (fields params ∷ []) true
      (Budget.request encode (get_budget_overview sid params))
query lower encode (use_budget_categories sid filters) =
    let params = to_query_params lower (some filters) in
    query_of "categories" sid (fields params ∷ []) true
      (Budget.request encode (get_budget_categories sid params))
query lower encode (use_budget_transactions sid filters limit) =
    let n = given limit transactions_page_size in
    let params = insert "limit" (num n) (to_query_params lower (some filters)) in
    query_of "transactions" sid (fields params ∷ []) true
      (Budget.request encode (get_budget_transactions sid params))
query lower encode (use_budget_accounts sid) =
    query_of "accounts" sid [] true (Budget.request encode (get_budget_accounts (some sid)))
query lower encode (use_budget_transfers sid enabled) =
    insight "transfers" sid enabled (Budget.request encode (get_budget_transfers sid))
query lower encode (use_budget_recurring sid enabled) =
    insight "recurring" sid enabled (Budget.request encode (get_budget_recurring sid))
query lower encode (use_budget_forecast sid enabled) =
    insight "forecast" sid enabled (Budget.request encode (get_budget_forecast sid))
query lower encode (use_budget_anomalies sid enabled) =
    insight "anomalies" sid enabled (Budget.request encode (get_budget_anomalies sid))
query lower encode (use_budget_reconciliation sid enabled) =
    insight "reconciliation" sid enabled (Budget.request encode (get_budget_reconciliation sid))
query lower encode (use_budget_coverage sid enabled) =
    insight "coverage" sid enabled (Budget.request encode (get_budget_coverage sid))
query lower encode (use_budget_sankey sid enabled) =
    insight "sankey" sid enabled (Budget.request encode (get_budget_sankey sid))
query lower encode (use_budget_envelopes sid enabled) =
    insight "envelopes" sid enabled (Budget.request encode (get_budget_envelopes sid))
