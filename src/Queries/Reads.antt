-- ===== src/Queries/Reads.antt =====
-- The verbs and bodies of the requests that the hooks make.
use finance_buddy.Queries
use finance_buddy.Queries.MutualFunds
use finance_buddy.Queries.Equity
use finance_buddy.Queries.Tax
use finance_buddy.Queries.Budget
use finance_buddy.Queries.Market
use finance_buddy.Api.Request.{Request, get, no_body}
use finance_buddy.Prelude.{Text, [], refl, ◌≡◌}
use finance_buddy.Queries.{budget, query, mutual_funds, market, Hook, equity, tax_expert}
use finance_buddy.Queries.Budget.{
  use_budget_accounts, use_budget_anomalies, use_budget_categories, use_budget_coverage,
  use_budget_envelopes, use_budget_forecast, use_budget_overview, use_budget_reconciliation,
  use_budget_recurring, use_budget_sankey, use_budget_sessions, use_budget_transactions,
  use_budget_transfers,
}
use finance_buddy.Queries.Equity.{
  use_equity_allocation, use_equity_holdings, use_equity_insights, use_equity_performance,
  use_equity_pnl, use_equity_summary, use_stock_analysis, use_stock_search,
}
use finance_buddy.Queries.Market.{use_market_config, use_market_summary}
use finance_buddy.Queries.MutualFunds.{
  use_allocation, use_benchmark_overlay, use_fund_insights, use_holdings, use_insights, use_journey,
  use_mandate_overlap, use_overview, use_performance, use_rebalance_plan, use_sip_attribution,
  use_sip_projection, use_summary, use_tax_harvest, use_transactions, use_what_if, use_xirr_by_fy,
}
use finance_buddy.Queries.Tax.{
  use_itr_data, use_tax_expert_capital_gains, use_tax_expert_income, use_tax_expert_summary,
  use_tax_regime_comparison, use_tax_rules,
}
use finance_buddy.Store.{AppState}

-- A GET request without a body and with no header of its own.
pub IsRead : Request → Type 0
IsRead r = (r.verb ≡ get) × (r.body ≡ no_body) × (r.headers ≡ [])

mutual_funds-IsRead : (s : AppState) (h : MutualFunds.Hook) → IsRead (MutualFunds.query s h).request
unfolding IsRead MutualFunds.query
mutual_funds-IsRead s (use_summary benchmark) = (refl, refl, refl)
mutual_funds-IsRead s (use_overview period benchmark) = (refl, refl, refl)
mutual_funds-IsRead s (use_benchmark_overlay period benchmarks) = (refl, refl, refl)
mutual_funds-IsRead s (use_holdings extra) = (refl, refl, refl)
mutual_funds-IsRead s use_allocation = (refl, refl, refl)
mutual_funds-IsRead s (use_performance period extra) = (refl, refl, refl)
mutual_funds-IsRead s (use_rebalance_plan profile) = (refl, refl, refl)
mutual_funds-IsRead s use_tax_harvest = (refl, refl, refl)
mutual_funds-IsRead s (use_sip_projection params) = (refl, refl, refl)
mutual_funds-IsRead s use_xirr_by_fy = (refl, refl, refl)
mutual_funds-IsRead s use_sip_attribution = (refl, refl, refl)
mutual_funds-IsRead s (use_what_if params enabled) = (refl, refl, refl)
mutual_funds-IsRead s use_mandate_overlap = (refl, refl, refl)
mutual_funds-IsRead s use_insights = (refl, refl, refl)
mutual_funds-IsRead s use_journey = (refl, refl, refl)
mutual_funds-IsRead s (use_fund_insights isin fund_name) = (refl, refl, refl)
mutual_funds-IsRead s (use_transactions fund) = (refl, refl, refl)

equity-IsRead :
    (encode : Text → Text) (s : AppState) (h : Equity.Hook)
    → IsRead (Equity.query encode s h).request
unfolding IsRead Equity.query
equity-IsRead encode s use_equity_summary = (refl, refl, refl)
equity-IsRead encode s use_equity_allocation = (refl, refl, refl)
equity-IsRead encode s (use_equity_holdings sort_by ascending) = (refl, refl, refl)
equity-IsRead encode s use_equity_pnl = (refl, refl, refl)
equity-IsRead encode s (use_equity_performance period benchmark) = (refl, refl, refl)
equity-IsRead encode s use_equity_insights = (refl, refl, refl)
equity-IsRead encode s (use_stock_search typed) = (refl, refl, refl)
equity-IsRead encode s (use_stock_analysis symbol) = (refl, refl, refl)

tax_expert-IsRead : (s : AppState) (h : Tax.Hook) → IsRead (Tax.query s h).request
unfolding IsRead Tax.query
tax_expert-IsRead s use_itr_data = (refl, refl, refl)
tax_expert-IsRead s (use_tax_expert_summary regime) = (refl, refl, refl)
tax_expert-IsRead s use_tax_expert_income = (refl, refl, refl)
tax_expert-IsRead s use_tax_expert_capital_gains = (refl, refl, refl)
tax_expert-IsRead s use_tax_regime_comparison = (refl, refl, refl)
tax_expert-IsRead s use_tax_rules = (refl, refl, refl)

budget-IsRead :
    (lower encode : Text → Text) (h : Budget.Hook) → IsRead (Budget.query lower encode h).request
unfolding IsRead Budget.query
budget-IsRead lower encode use_budget_sessions = (refl, refl, refl)
budget-IsRead lower encode (use_budget_overview sid filters) = (refl, refl, refl)
budget-IsRead lower encode (use_budget_categories sid filters) = (refl, refl, refl)
budget-IsRead lower encode (use_budget_transactions sid filters limit) = (refl, refl, refl)
budget-IsRead lower encode (use_budget_accounts sid) = (refl, refl, refl)
budget-IsRead lower encode (use_budget_transfers sid enabled) = (refl, refl, refl)
budget-IsRead lower encode (use_budget_recurring sid enabled) = (refl, refl, refl)
budget-IsRead lower encode (use_budget_forecast sid enabled) = (refl, refl, refl)
budget-IsRead lower encode (use_budget_anomalies sid enabled) = (refl, refl, refl)
budget-IsRead lower encode (use_budget_reconciliation sid enabled) = (refl, refl, refl)
budget-IsRead lower encode (use_budget_coverage sid enabled) = (refl, refl, refl)
budget-IsRead lower encode (use_budget_sankey sid enabled) = (refl, refl, refl)
budget-IsRead lower encode (use_budget_envelopes sid enabled) = (refl, refl, refl)

market-IsRead : (h : Market.Hook) → IsRead (Market.query h).request
unfolding IsRead Market.query
market-IsRead (use_market_summary enabled) = (refl, refl, refl)
market-IsRead use_market_config = (refl, refl, refl)

-- Every hook's query is a GET request without a body and without headers of its own.
query-IsRead :
    (lower encode : Text → Text) (s : AppState) (h : Queries.Hook)
    → IsRead (Queries.query lower encode s h).request
unfolding Queries.query
query-IsRead lower encode s (mutual_funds h) = mutual_funds-IsRead s h
query-IsRead lower encode s (equity h) = equity-IsRead encode s h
query-IsRead lower encode s (tax_expert h) = tax_expert-IsRead s h
query-IsRead lower encode s (budget h) = budget-IsRead lower encode h
query-IsRead lower encode s (market h) = market-IsRead h
