-- ===== src/Queries/Decode.antt =====
-- The request that a key stands for, read off what is seen of the key.
use finance_buddy.Api.MutualFunds
use finance_buddy.Api.Tax
use finance_buddy.Api.Equity
use finance_buddy.Api.Budget
use finance_buddy.Api.Budget.{
  get_budget_sessions, get_budget_overview, get_budget_categories, get_budget_transactions,
  get_budget_accounts, get_budget_transfers, get_budget_recurring, get_budget_forecast,
  get_budget_anomalies, get_budget_coverage, get_budget_reconciliation, request, get_budget_sankey,
  get_budget_envelopes,
}
use finance_buddy.Api.Equity.{
  get_equity_summary, get_equity_allocation, get_equity_holdings, get_equity_pnl,
  get_equity_performance, get_equity_insights, search_stocks, analyze_stock,
}
use finance_buddy.Api.MutualFunds.{
  get_mandate_overlap, get_benchmark_overlay, get_summary, get_holdings, get_what_if,
  get_fund_insights, get_allocation, get_journey, get_market_summary, get_insights,
  get_sip_attribution, get_sip_projection, get_market_config, get_rebalance_plan, get_performance,
  get_overview, get_transactions, get_tax_harvest, get_xirr_by_fy,
}
use finance_buddy.Api.Request.{Request, text, plain, get, flag}
use finance_buddy.Api.Tax.{
  get_itr_data, get_tax_expert_summary, get_tax_expert_income, get_tax_expert_capital_gains,
  compare_tax_regimes, get_tax_rules,
}
use finance_buddy.Prelude.{
  Bool, Text, [], codes, false, if◌then◌else◌, some, starts_with, suc, text_eq, zero, ℕ, ◌||◌, ◌∷◌,
}
use finance_buddy.Queries.Seen.{
  Fields, SeenKey, SeenPart, SeenRequest, merged, read, seen_boolean, seen_fields, seen_nothing,
  seen_request, seen_str,
}

abbrev pub part_text : SeenPart → Text
part_text (seen_str t) = t
part_text seen_nothing = codes "null"
part_text _ = []

abbrev pub part_fields : SeenPart → Fields
part_fields (seen_fields f) = f
part_fields _ = read []

abbrev pub part_flag : SeenPart → Bool
part_flag (seen_boolean b) = b
part_flag _ = false

abbrev pub at : ℕ → SeenKey → SeenPart
at n [] = seen_nothing
at zero (part ∷ key) = part
at (suc n) (part ∷ key) = at n key

abbrev pub tail : SeenKey → SeenKey
tail [] = []
tail (part ∷ key) = key

abbrev pub asking : Fields → Request → SeenRequest
asking f r = record (seen_request r) { fields = f }

unfoldable pub decode_mutual_funds : Text → Text → SeenKey → SeenRequest
unfolding MutualFunds.request
decode_mutual_funds root id rest =
    if text_eq root (codes "summary")
    then seen_request
        (MutualFunds.request (get_summary id (("benchmark", text (part_text (at 0 rest))) ∷ [])))
    else if text_eq root (codes "overview")
    then seen_request (
        MutualFunds.request (
          get_overview id (
            ("period", text (part_text (at 0 rest)))
            ∷ ("benchmark", text (part_text (at 1 rest)))
            ∷ [])))
    else if text_eq root (codes "benchmark-overlay")
    then seen_request (
        MutualFunds.request (
          get_benchmark_overlay id (
            ("period", text (part_text (at 0 rest)))
            ∷ ("benchmarks", text (part_text (at 1 rest)))
            ∷ [])))
    else if text_eq root (codes "holdings")
    then asking (merged (part_fields (at 0 rest)) (part_fields (at 1 rest)))
        (MutualFunds.request (get_holdings id []))
    else if text_eq root (codes "allocation")
    then asking (part_fields (at 0 rest)) (MutualFunds.request (get_allocation id []))
    else if text_eq root (codes "performance")
    then asking
        (merged
          (merged (part_fields (at 1 rest)) (read (("period", text (part_text (at 0 rest))) ∷ [])))
          (part_fields (at 2 rest)))
        (MutualFunds.request (get_performance id []))
    else if text_eq root (codes "rebalance")
    then seen_request (
        MutualFunds.request
          (get_rebalance_plan id (("profile", text (part_text (at 0 rest))) ∷ [])))
    else if text_eq root (codes "tax-harvest")
    then seen_request (MutualFunds.request (get_tax_harvest id))
    else if text_eq root (codes "sip-projection")
    then asking (part_fields (at 0 rest)) (MutualFunds.request (get_sip_projection id []))
    else if text_eq root (codes "xirr-by-fy")
    then seen_request (MutualFunds.request (get_xirr_by_fy id))
    else if text_eq root (codes "sip-attribution")
    then seen_request (MutualFunds.request (get_sip_attribution id))
    else if text_eq root (codes "what-if")
    then asking (part_fields (at 0 rest)) (MutualFunds.request (get_what_if id []))
    else if text_eq root (codes "mandate-overlap")
    then seen_request (MutualFunds.request (get_mandate_overlap id))
    else if text_eq root (codes "insights")
    then seen_request
        (MutualFunds.request (get_insights id (("benchmark", text (part_text (at 0 rest))) ∷ [])))
    else if text_eq root (codes "journey")
    then seen_request (MutualFunds.request (get_journey id))
    else if text_eq root (codes "fund-insights")
    then seen_request (
        MutualFunds.request (
          get_fund_insights id (part_text (at 0 rest))
            (("name", text (part_text (at 1 rest))) ∷ [])))
    else if text_eq root (codes "transactions")
    then seen_request
        (MutualFunds.request (get_transactions id (("fund", text (part_text (at 0 rest))) ∷ [])))
    else seen_request (plain get [])

unfoldable pub decode_tax : Text → Text → SeenKey → SeenRequest
unfolding Tax.request
decode_tax root id rest =
    if text_eq root (codes "tax-expert-itr")
    then seen_request (Tax.request (get_itr_data id))
    else if text_eq root (codes "tax-expert-summary")
    then seen_request (Tax.request (get_tax_expert_summary id (some (part_text (at 0 rest)))))
    else if text_eq root (codes "tax-expert-income")
    then seen_request (Tax.request (get_tax_expert_income id))
    else if text_eq root (codes "tax-expert-capital-gains")
    then seen_request (Tax.request (get_tax_expert_capital_gains id))
    else if text_eq root (codes "tax-expert-compare")
    then seen_request (Tax.request (compare_tax_regimes id))
    else if text_eq root (codes "tax-rules")
    then seen_request (Tax.request (get_tax_rules))
    else seen_request (plain get [])

unfoldable pub decode_equity : (Text → Text) → Text → Text → SeenKey → SeenRequest
unfolding Equity.request
decode_equity encode root id rest =
    if text_eq root (codes "summary")
    then seen_request (Equity.request encode (get_equity_summary id))
    else if text_eq root (codes "allocation")
    then seen_request (Equity.request encode (get_equity_allocation id))
    else if text_eq root (codes "holdings")
    then seen_request (
        Equity.request encode (
          get_equity_holdings id (
            ("sort_by", text (part_text (at 0 rest)))
            ∷ ("ascending", flag (part_flag (at 1 rest)))
            ∷ [])))
    else if text_eq root (codes "pnl")
    then seen_request (Equity.request encode (get_equity_pnl id))
    else if text_eq root (codes "performance")
    then seen_request (
        Equity.request encode (
          get_equity_performance id (
            ("period", text (part_text (at 0 rest)))
            ∷ ("benchmark", text (part_text (at 1 rest)))
            ∷ [])))
    else if text_eq root (codes "insights")
    then seen_request (Equity.request encode (get_equity_insights id))
    else if text_eq root (codes "stock-search")
    then seen_request (Equity.request encode (search_stocks id))
    else if text_eq root (codes "stock-analysis")
    then seen_request (Equity.request encode (analyze_stock id))
    else seen_request (plain get [])

unfoldable pub decode_budget : (Text → Text) → Text → Text → SeenKey → SeenRequest
unfolding Budget.request
decode_budget encode root id rest =
    if text_eq root (codes "sessions")
    then seen_request (Budget.request encode (get_budget_sessions))
    else if text_eq root (codes "overview")
    then asking (part_fields (at 0 rest)) (Budget.request encode (get_budget_overview id []))
    else if text_eq root (codes "categories")
    then asking (part_fields (at 0 rest)) (Budget.request encode (get_budget_categories id []))
    else if text_eq root (codes "transactions")
    then asking (part_fields (at 0 rest)) (Budget.request encode (get_budget_transactions id []))
    else if text_eq root (codes "accounts")
    then seen_request (Budget.request encode (get_budget_accounts (some id)))
    else if text_eq root (codes "transfers")
    then seen_request (Budget.request encode (get_budget_transfers id))
    else if text_eq root (codes "recurring")
    then seen_request (Budget.request encode (get_budget_recurring id))
    else if text_eq root (codes "forecast")
    then seen_request (Budget.request encode (get_budget_forecast id))
    else if text_eq root (codes "anomalies")
    then seen_request (Budget.request encode (get_budget_anomalies id))
    else if text_eq root (codes "reconciliation")
    then seen_request (Budget.request encode (get_budget_reconciliation id))
    else if text_eq root (codes "coverage")
    then seen_request (Budget.request encode (get_budget_coverage id))
    else if text_eq root (codes "sankey")
    then seen_request (Budget.request encode (get_budget_sankey id))
    else if text_eq root (codes "envelopes")
    then seen_request (Budget.request encode (get_budget_envelopes id))
    else seen_request (plain get [])

unfoldable pub decode_market : Text → SeenRequest
unfolding MutualFunds.request
decode_market root =
    if text_eq root (codes "market-summary")
    then seen_request (MutualFunds.request get_market_summary)
    else seen_request (MutualFunds.request get_market_config)

unfoldable pub decode : (Text → Text) → SeenKey → SeenRequest
unfolding decode_mutual_funds decode_tax decode_equity decode_budget decode_market
decode encode [] = seen_request (plain get [])
decode encode (root ∷ rest) =
    let r = part_text root in
    if text_eq r (codes "equity")
    then decode_equity encode (part_text (at 0 rest)) (part_text (at 1 rest)) (tail (tail rest))
    else if text_eq r (codes "budget")
    then decode_budget encode (part_text (at 0 rest)) (part_text (at 1 rest)) (tail (tail rest))
    else if starts_with r (codes "market-")
    then decode_market r
    else if starts_with r (codes "tax-expert-") || text_eq r (codes "tax-rules")
    then decode_tax r (part_text (at 0 rest)) (tail rest)
    else decode_mutual_funds r (part_text (at 0 rest)) (tail rest)
