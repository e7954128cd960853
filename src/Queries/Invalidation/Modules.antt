-- ===== src/Queries/Invalidation/Modules.antt =====
-- Which hooks `invalidateModuleQueries` makes fetch again.
use finance_buddy.Queries
use finance_buddy.Queries.MutualFunds
use finance_buddy.Queries.Equity
use finance_buddy.Queries.Tax
use finance_buddy.Queries.Budget
use finance_buddy.Queries.Market
use finance_buddy.Prelude.{
  Bool, List, String, Text, [], any, arith, codes, false, if◌then◌else◌, map, refl, text_eq, true,
  ◌==◌, ◌||◌, ◌∷◌, ◌≡◌, All,
}
use finance_buddy.Queries.{mutual_funds, budget, market, equity, tax_expert}
use finance_buddy.Queries.Budget.{
  use_budget_accounts, use_budget_anomalies, use_budget_categories, use_budget_coverage,
  use_budget_envelopes, use_budget_forecast, use_budget_overview, use_budget_reconciliation,
  use_budget_recurring, use_budget_sankey, use_budget_sessions, use_budget_transactions,
  use_budget_transfers,
}
use finance_buddy.Queries.Equity.{
  use_equity_allocation, use_equity_holdings, use_equity_insights, use_equity_performance,
  use_equity_pnl, use_equity_summary, use_stock_analysis, use_stock_search,
}
use finance_buddy.Queries.Invalidation.{
  mf_root_keys, query_key, invalidate_budget_queries, tax_root_keys, ComparesPrefix,
  invalidate_equity_queries, invalidate_module_queries, invalidate_mutual_fund_queries, reaches,
  invalidate_tax_queries, is_mf_key, predicate,
}
use finance_buddy.Queries.Key.{Key, name, str}
use finance_buddy.Queries.Market.{use_market_config, use_market_summary}
use finance_buddy.Queries.MutualFunds.{
  use_allocation, use_benchmark_overlay, use_fund_insights, use_holdings, use_insights, use_journey,
  use_mandate_overlap, use_overview, use_performance, use_rebalance_plan, use_sip_attribution,
  use_sip_projection, use_summary, use_tax_harvest, use_transactions, use_what_if, use_xirr_by_fy,
}
use finance_buddy.Queries.Tax.{
  use_itr_data, use_tax_expert_capital_gains, use_tax_expert_income, use_tax_expert_summary,
  use_tax_regime_comparison, use_tax_rules,
}
use finance_buddy.Store.{AppState}

-- The names of modules that the switch distinguishes.
abbrev pub module_names : List String
module_names = "mutual_funds" ∷ "equity" ∷ "indian_stocks" ∷ "tax_expert" ∷ "budget" ∷ []

-- The hooks of a module that depend on what was uploaded: all but the tax rules.
abbrev pub belongs_to : String → Queries.Hook → Bool
belongs_to m (mutual_funds h) = m == "mutual_funds"
belongs_to m (equity h) = (m == "equity") || (m == "indian_stocks")
belongs_to m (tax_expert use_tax_rules) = false
belongs_to m (tax_expert h) = m == "tax_expert"
belongs_to m (budget h) = m == "budget"
belongs_to m (market h) = false

-- What the filters come to for a key that begins with a text.
abbrev root_is_reached : String → Text → Bool
root_is_reached m root =
    if m == "mutual_funds"
    then any (text_eq root) mf_root_keys
    else if (m == "equity") || (m == "indian_stocks")
    then text_eq (codes "equity") root
    else if m == "tax_expert"
    then any (λ r. text_eq (codes r) root) tax_root_keys
    else if m == "budget"
    then text_eq (codes "budget") root
    else true

module _ (matches : Key → Key → Bool) (laws : ComparesPrefix matches) where
  reaches-predicate : (p : Key → Bool) (key : Key) → reaches matches (predicate p ∷ []) key ≡ p key
  unfolding reaches
  reaches-predicate p key = ground arith

  reaches-name :
      (r : String) (root : Text) (rest : Key)
      → reaches matches (query_key (name r ∷ []) ∷ []) (str root ∷ rest) ≡ text_eq (codes r) root
  unfolding reaches
  reaches-name r root rest =
      ground (arith, laws.matches_str (codes r) root [] rest, laws.matches_nil rest)

  reaches-roots :
      (roots : List String) (root : Text) (rest : Key)
      → reaches matches (map (λ r. query_key (name r ∷ [])) roots) (str root ∷ rest)
        ≡ any (λ r. text_eq (codes r) root) roots
  unfolding reaches
  reaches-roots [] root rest = refl
  reaches-roots (r ∷ roots) root rest = ground (
    arith,
    laws.matches_str (codes r) root [] rest,
    laws.matches_nil rest,
    reaches-roots roots root rest,
  )

  reaches-root :
      (root : Text) (rest : Key)
      → All
          (λ m.
            reaches matches (invalidate_module_queries m) (str root ∷ rest)
            ≡ root_is_reached m root)
          module_names
  unfolding reaches invalidate_module_queries invalidate_mutual_fund_queries
      invalidate_equity_queries invalidate_tax_queries invalidate_budget_queries
  reaches-root root rest = (
    reaches-predicate is_mf_key (str root ∷ rest),
    (
      reaches-name "equity" root rest,
      (
        reaches-name "equity" root rest,
        (reaches-roots tax_root_keys root rest, (reaches-name "budget" root rest, tt)),
      ),
    ),
  )

  reaches-mutual_funds :
      (s : AppState) (h : MutualFunds.Hook)
      → All
          (λ m.
            reaches matches (invalidate_module_queries m) (MutualFunds.query s h).key
            ≡ belongs_to m (mutual_funds h))
          module_names
  unfolding MutualFunds.query
  reaches-mutual_funds s (use_summary benchmark) = reaches-root (codes "summary") _
  reaches-mutual_funds s (use_overview period benchmark) = reaches-root (codes "overview") _
  reaches-mutual_funds s (use_benchmark_overlay period benchmarks) =
      reaches-root (codes "benchmark-overlay") _
  reaches-mutual_funds s (use_holdings extra) = reaches-root (codes "holdings") _
  reaches-mutual_funds s use_allocation = reaches-root (codes "allocation") _
  reaches-mutual_funds s (use_performance period extra) = reaches-root (codes "performance") _
  reaches-mutual_funds s (use_rebalance_plan profile) = reaches-root (codes "rebalance") _
  reaches-mutual_funds s use_tax_harvest = reaches-root (codes "tax-harvest") _
  reaches-mutual_funds s (use_sip_projection params) = reaches-root (codes "sip-projection") _
  reaches-mutual_funds s use_xirr_by_fy = reaches-root (codes "xirr-by-fy") _
  reaches-mutual_funds s use_sip_attribution = reaches-root (codes "sip-attribution") _
  reaches-mutual_funds s (use_what_if params enabled) = reaches-root (codes "what-if") _
  reaches-mutual_funds s use_mandate_overlap = reaches-root (codes "mandate-overlap") _
  reaches-mutual_funds s use_insights = reaches-root (codes "insights") _
  reaches-mutual_funds s use_journey = reaches-root (codes "journey") _
  reaches-mutual_funds s (use_fund_insights isin fund_name) = reaches-root (codes "fund-insights") _
  reaches-mutual_funds s (use_transactions fund) = reaches-root (codes "transactions") _

  reaches-equity :
      (encode : Text → Text) (s : AppState) (h : Equity.Hook)
      → All
          (λ m.
            reaches matches (invalidate_module_queries m) (Equity.query encode s h).key
            ≡ belongs_to m (equity h))
          module_names
  unfolding Equity.query
  reaches-equity encode s use_equity_summary = reaches-root (codes "equity") _
  reaches-equity encode s use_equity_allocation = reaches-root (codes "equity") _
  reaches-equity encode s (use_equity_holdings sort_by ascending) = reaches-root (codes "equity") _
  reaches-equity encode s use_equity_pnl = reaches-root (codes "equity") _
  reaches-equity encode s (use_equity_performance period benchmark) =
      reaches-root (codes "equity") _
  reaches-equity encode s use_equity_insights = reaches-root (codes "equity") _
  reaches-equity encode s (use_stock_search typed) = reaches-root (codes "equity") _
  reaches-equity encode s (use_stock_analysis symbol) = reaches-root (codes "equity") _

  reaches-tax_expert :
      (s : AppState) (h : Tax.Hook)
      → All
          (λ m.
            reaches matches (invalidate_module_queries m) (Tax.query s h).key
            ≡ belongs_to m (tax_expert h))
          module_names
  unfolding Tax.query
  reaches-tax_expert s use_itr_data = reaches-root (codes "tax-expert-itr") _
  reaches-tax_expert s (use_tax_expert_summary regime) = reaches-root (codes "tax-expert-summary") _
  reaches-tax_expert s use_tax_expert_income = reaches-root (codes "tax-expert-income") _
  reaches-tax_expert s use_tax_expert_capital_gains =
      reaches-root (codes "tax-expert-capital-gains") _
  reaches-tax_expert s use_tax_regime_comparison = reaches-root (codes "tax-expert-compare") _
  reaches-tax_expert s use_tax_rules = reaches-root (codes "tax-rules") _

  reaches-budget :
      (lower encode : Text → Text) (h : Budget.Hook)
      → All
          (λ m.
            reaches matches (invalidate_module_queries m) (Budget.query lower encode h).key
            ≡ belongs_to m (budget h))
          module_names
  unfolding Budget.query
  reaches-budget lower encode use_budget_sessions = reaches-root (codes "budget") _
  reaches-budget lower encode (use_budget_overview sid filters) = reaches-root (codes "budget") _
  reaches-budget lower encode (use_budget_categories sid filters) = reaches-root (codes "budget") _
  reaches-budget lower encode (use_budget_transactions sid filters limit) =
      reaches-root (codes "budget") _
  reaches-budget lower encode (use_budget_accounts sid) = reaches-root (codes "budget") _
  reaches-budget lower encode (use_budget_transfers sid enabled) = reaches-root (codes "budget") _
  reaches-budget lower encode (use_budget_recurring sid enabled) = reaches-root (codes "budget") _
  reaches-budget lower encode (use_budget_forecast sid enabled) = reaches-root (codes "budget") _
  reaches-budget lower encode (use_budget_anomalies sid enabled) = reaches-root (codes "budget") _
  reaches-budget lower encode (use_budget_reconciliation sid enabled) =
      reaches-root (codes "budget") _
  reaches-budget lower encode (use_budget_coverage sid enabled) = reaches-root (codes "budget") _
  reaches-budget lower encode (use_budget_sankey sid enabled) = reaches-root (codes "budget") _
  reaches-budget lower encode (use_budget_envelopes sid enabled) = reaches-root (codes "budget") _

  reaches-market :
      (h : Market.Hook)
      → All
          (λ m.
            reaches matches (invalidate_module_queries m) (Market.query h).key
            ≡ belongs_to m (market h))
          module_names
  unfolding Market.query
  reaches-market (use_market_summary enabled) = reaches-root (codes "market-summary") _
  reaches-market use_market_config = reaches-root (codes "market-config") _

  -- If key filters are compared by their beginning: for each of the five module names,
  -- invalidateModuleQueries reaches a hook's key exactly when the hook belongs to the module,
  -- where the tax rules and the market belong to none.
  pub reaches-query :
      (lower encode : Text → Text) (s : AppState) (h : Queries.Hook)
      → All
          (λ m.
            reaches matches (invalidate_module_queries m) (Queries.query lower encode s h).key
            ≡ belongs_to m h)
          module_names
  unfolding Queries.query
  reaches-query lower encode s (mutual_funds h) = reaches-mutual_funds s h
  reaches-query lower encode s (equity h) = reaches-equity encode s h
  reaches-query lower encode s (tax_expert h) = reaches-tax_expert s h
  reaches-query lower encode s (budget h) = reaches-budget lower encode h
  reaches-query lower encode s (market h) = reaches-market h
