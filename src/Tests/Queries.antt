-- ===== src/Tests/Queries.antt =====
-- The query hooks.
use finance_buddy.Queries
use finance_buddy.Queries.Budget
use finance_buddy.Queries.Tax
use finance_buddy.Queries.MutualFunds
use finance_buddy.Api.Request.{text}
use finance_buddy.Prelude.{
  All, Bool, [], codes, false, is_number, lookup, none, not, refl, some, text_eq, true, ◌&&◌, ◌↔◌,
  ◌∷◌, ◌≡◌, ◌⊎◌,
}
use finance_buddy.Queries.{budget, mutual_funds, tax_expert}
use finance_buddy.Queries.Budget.{use_budget_transactions}
use finance_buddy.Queries.BudgetFilters.{
  BudgetFilters, QueryError, to_query_params, reset_session_on_missing, retry,
}
use finance_buddy.Queries.BudgetFilters.Errors.{missing_session_is_left}
use finance_buddy.Queries.BudgetFilters.Sent.{wanted, lookup-to_query_params}
use finance_buddy.Queries.Invalidation.{
  reaches, invalidate_budget_analytics, ComparesPrefix, invalidate_module_queries,
  invalidate_session_queries,
}
use finance_buddy.Queries.Invalidation.Modules.{belongs_to, module_names, reaches-query}
use finance_buddy.Queries.Invalidation.Scoped.{
  shows_categories, is_computed, is_session, reaches-tax_session, reaches-analytics,
}
use finance_buddy.Queries.Key.{Key, str}
use finance_buddy.Queries.Keyed.{IsPlainHook, same_key_same_request}
use finance_buddy.Queries.MutualFunds.{use_holdings}
use finance_buddy.Queries.Seen.{IsPlain-single, seen_key, seen_request}
use finance_buddy.Queries.Tax.{use_tax_expert_summary}
use finance_buddy.Tests.App.{same_case}
use finance_buddy.Tests.Samples.{signed_in}

-- A concrete comparison of a filter's key with a query's.
abbrev starts_key : Key → Key → Bool
starts_key [] key = true
starts_key (str a ∷ prefix) (str b ∷ key) = text_eq a b && starts_key prefix key
starts_key _ _ = false

starts_key-ComparesPrefix : ComparesPrefix starts_key
starts_key-ComparesPrefix = record {
  matches_nil = λ key. refl;
  matches_str = λ a b prefix key. refl;
  matches_nothing = λ a prefix key. refl;
  matches_short = λ a prefix. refl;
}

abbrev summary_hook : Queries.Hook
summary_hook = tax_expert (use_tax_expert_summary none)

reaches-query_example :
    All
      (λ m.
        reaches starts_key
          (invalidate_module_queries m)
          (Queries.query same_case same_case signed_in summary_hook).key
        ≡ belongs_to m summary_hook)
      module_names
reaches-query_example =
    reaches-query starts_key starts_key-ComparesPrefix same_case same_case signed_in summary_hook

reaches-tax_session_example :
    reaches starts_key
      (invalidate_session_queries (some (codes "t1")))
      (Tax.query signed_in (use_tax_expert_summary none)).key
    ≡ (is_computed (use_tax_expert_summary none)
        && is_session (codes "t1") signed_in.tax_session_id)
reaches-tax_session_example =
    reaches-tax_session starts_key starts_key-ComparesPrefix (codes "t1") signed_in
      (use_tax_expert_summary none) refl

abbrev groceries : BudgetFilters
groceries = record {
  bank = some (codes "all");
  account_type = none;
  txn_type = some [];
  date_range = none;
  from_date = some (codes "2024-01-01");
  to_date = none;
  amount_bracket = none;
  payment_mode = none;
  category = some (codes "food");
  search = some (codes " milk ");
  flow = none;
}

abbrev transactions_hook : Budget.Hook
transactions_hook = use_budget_transactions (codes "overall") groceries none

reaches-analytics_example :
    reaches starts_key invalidate_budget_analytics
      (Queries.query same_case same_case signed_in (budget transactions_hook)).key
    ≡ shows_categories (budget transactions_hook)
reaches-analytics_example =
    reaches-analytics starts_key same_case same_case signed_in (budget transactions_hook)

abbrev holdings_hook : Queries.Hook
holdings_hook = mutual_funds (use_holdings (("sort", text (codes "value")) ∷ []))

holdings_hook-IsPlainHook : IsPlainHook holdings_hook
holdings_hook-IsPlainHook = IsPlain-single "sort" (text (codes "value")) (λ e. cc)

same_key_same_request_example :
    seen_request (Queries.query same_case same_case signed_in holdings_hook).request
    ≡ seen_request
        (Queries.query same_case same_case (record signed_in { pan = none }) holdings_hook).request
unfolding Queries.query MutualFunds.query
same_key_same_request_example =
    same_key_same_request seen_key same_case same_case signed_in (record signed_in { pan = none })
      holdings_hook holdings_hook (λ k k' e. e) holdings_hook-IsPlainHook holdings_hook-IsPlainHook
      refl

to_query_params_test :
    to_query_params same_case (some groceries)
    ≡ ("category", text (codes "food"))
      ∷ ("from_date", text (codes "2024-01-01"))
      ∷ ("search", text (codes "milk"))
      ∷ []
unfolding to_query_params
to_query_params_test = refl

lookup-to_query_params_example :
    All
      (λ entry. lookup entry.0 (to_query_params same_case (some groceries)) ≡ entry.1)
      (wanted same_case groceries)
lookup-to_query_params_example = lookup-to_query_params same_case groceries

abbrev not_found : QueryError
not_found = record { status = some 404; detail = none; message = none }

missing_session_is_left_test :
    ((reset_session_on_missing not_found (codes "s1") ≡ codes "s1")
      ↔ ((is_number not_found.status 404 ≡ false) ⊎ (codes "s1" ≡ codes "overall")))
    × (reset_session_on_missing not_found (reset_session_on_missing not_found (codes "s1"))
        ≡ reset_session_on_missing not_found (codes "s1"))
    × (retry 0 not_found ≡ not (is_number not_found.status 404))
    × (retry 1 not_found ≡ false)
missing_session_is_left_test = missing_session_is_left not_found (codes "s1") 0
