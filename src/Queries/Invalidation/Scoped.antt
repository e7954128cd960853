-- ===== src/Queries/Invalidation/Scoped.antt =====
-- The narrower invalidations: the analytics of the budget, and one session of the tax expert.
use finance_buddy.Queries
use finance_buddy.Queries.Budget
use finance_buddy.Queries.MutualFunds
use finance_buddy.Queries.Equity
use finance_buddy.Queries.Market
use finance_buddy.Queries.Tax
use finance_buddy.Prelude.{
  Bool, Option, String, Text, [], arith, codes, false, is_empty, none, not, refl, some, text_eq,
  true, ◌&&◌, ◌∷◌, ◌≡◌, List, any, map,
}
use finance_buddy.Queries.{mutual_funds, equity, tax_expert, budget, market}
use finance_buddy.Queries.Budget.{
  use_budget_sessions, use_budget_overview, use_budget_categories, use_budget_transactions,
  use_budget_accounts, use_budget_transfers, use_budget_recurring, use_budget_forecast,
  use_budget_anomalies, use_budget_reconciliation, use_budget_coverage, use_budget_sankey,
  use_budget_envelopes,
}
use finance_buddy.Queries.Equity.{
  use_equity_allocation, use_equity_holdings, use_equity_insights, use_equity_performance,
  use_equity_pnl, use_equity_summary, use_stock_analysis, use_stock_search,
}
use finance_buddy.Queries.Invalidation.{
  invalidate_session_queries, ComparesPrefix, invalidate_budget_analytics, reaches, query_key,
  session_root_keys,
}
use finance_buddy.Queries.Key.{nothing, Key, name, str, id_part}
use finance_buddy.Queries.Market.{use_market_config, use_market_summary}
use finance_buddy.Queries.MutualFunds.{
  use_allocation, use_benchmark_overlay, use_fund_insights, use_holdings, use_insights, use_journey,
  use_mandate_overlap, use_overview, use_performance, use_rebalance_plan, use_sip_attribution,
  use_sip_projection, use_summary, use_tax_harvest, use_transactions, use_what_if, use_xirr_by_fy,
}
use finance_buddy.Queries.Tax.{
  use_itr_data, use_tax_expert_summary, use_tax_expert_income, use_tax_expert_capital_gains,
  use_tax_regime_comparison, use_tax_rules,
}
use finance_buddy.Store.{AppState}

-- What a changed category shows in.
abbrev pub shows_categories : Queries.Hook → Bool
shows_categories (budget (use_budget_overview sid filters)) = true
shows_categories (budget (use_budget_categories sid filters)) = true
shows_categories (budget (use_budget_transactions sid filters limit)) = true
shows_categories _ = false

-- What the server computes from the overrides and the costs.
abbrev pub is_computed : Tax.Hook → Bool
is_computed (use_tax_expert_summary regime) = true
is_computed use_tax_expert_income = true
is_computed use_tax_expert_capital_gains = true
is_computed use_tax_regime_comparison = true
is_computed _ = false

abbrev pub is_session : Text → Option Text → Bool
is_session sid none = false
is_session sid (some t) = text_eq sid t

module _ (matches : Key → Key → Bool) where
  analytics-budget :
      (lower encode : Text → Text) (h : Budget.Hook)
      → reaches matches invalidate_budget_analytics (Budget.query lower encode h).key
        ≡ shows_categories (budget h)
  unfolding reaches invalidate_budget_analytics Budget.query
  analytics-budget lower encode use_budget_sessions = refl
  analytics-budget lower encode (use_budget_overview sid filters) = refl
  analytics-budget lower encode (use_budget_categories sid filters) = refl
  analytics-budget lower encode (use_budget_transactions sid filters limit) = refl
  analytics-budget lower encode (use_budget_accounts sid) = refl
  analytics-budget lower encode (use_budget_transfers sid enabled) = refl
  analytics-budget lower encode (use_budget_recurring sid enabled) = refl
  analytics-budget lower encode (use_budget_forecast sid enabled) = refl
  analytics-budget lower encode (use_budget_anomalies sid enabled) = refl
  analytics-budget lower encode (use_budget_reconciliation sid enabled) = refl
  analytics-budget lower encode (use_budget_coverage sid enabled) = refl
  analytics-budget lower encode (use_budget_sankey sid enabled) = refl
  analytics-budget lower encode (use_budget_envelopes sid enabled) = refl

  analytics-mutual_funds :
      (s : AppState) (h : MutualFunds.Hook)
      → reaches matches invalidate_budget_analytics (MutualFunds.query s h).key ≡ false
  unfolding reaches invalidate_budget_analytics MutualFunds.query
  analytics-mutual_funds s (use_summary benchmark) = refl
  analytics-mutual_funds s (use_overview period benchmark) = refl
  analytics-mutual_funds s (use_benchmark_overlay period benchmarks) = refl
  analytics-mutual_funds s (use_holdings extra) = refl
  analytics-mutual_funds s use_allocation = refl
  analytics-mutual_funds s (use_performance period extra) = refl
  analytics-mutual_funds s (use_rebalance_plan profile) = refl
  analytics-mutual_funds s use_tax_harvest = refl
  analytics-mutual_funds s (use_sip_projection params) = refl
  analytics-mutual_funds s use_xirr_by_fy = refl
  analytics-mutual_funds s use_sip_attribution = refl
  analytics-mutual_funds s (use_what_if params enabled) = refl
  analytics-mutual_funds s use_mandate_overlap = refl
  analytics-mutual_funds s use_insights = refl
  analytics-mutual_funds s use_journey = refl
  analytics-mutual_funds s (use_fund_insights isin fund_name) = refl
  analytics-mutual_funds s (use_transactions fund) = refl

  analytics-equity :
      (encode : Text → Text) (s : AppState) (h : Equity.Hook)
      → reaches matches invalidate_budget_analytics (Equity.query encode s h).key ≡ false
  unfolding reaches invalidate_budget_analytics Equity.query
  analytics-equity encode s use_equity_summary = refl
  analytics-equity encode s use_equity_allocation = refl
  analytics-equity encode s (use_equity_holdings sort_by ascending) = refl
  analytics-equity encode s use_equity_pnl = refl
  analytics-equity encode s (use_equity_performance period benchmark) = refl
  analytics-equity encode s use_equity_insights = refl
  analytics-equity encode s (use_stock_search typed) = refl
  analytics-equity encode s (use_stock_analysis symbol) = refl

  analytics-tax_expert :
      (s : AppState) (h : Tax.Hook)
      → reaches matches invalidate_budget_analytics (Tax.query s h).key ≡ false
  unfolding reaches invalidate_budget_analytics Tax.query
  analytics-tax_expert s use_itr_data = refl
  analytics-tax_expert s (use_tax_expert_summary regime) = refl
  analytics-tax_expert s use_tax_expert_income = refl
  analytics-tax_expert s use_tax_expert_capital_gains = refl
  analytics-tax_expert s use_tax_regime_comparison = refl
  analytics-tax_expert s use_tax_rules = refl

  analytics-market :
      (h : Market.Hook) → reaches matches invalidate_budget_analytics (Market.query h).key ≡ false
  unfolding reaches invalidate_budget_analytics Market.query
  analytics-market (use_market_summary enabled) = refl
  analytics-market use_market_config = refl

  -- Of all the hooks of the program, in every state of the store, the invalidation after a change of
  -- categories reaches exactly the overview, the categories and the transactions of the budget; a
  -- session id is never mistaken for the name of one of them.
  pub reaches-analytics :
      (lower encode : Text → Text) (s : AppState) (h : Queries.Hook)
      → reaches matches invalidate_budget_analytics (Queries.query lower encode s h).key
        ≡ shows_categories h
  unfolding Queries.query
  reaches-analytics lower encode s (mutual_funds h) = analytics-mutual_funds s h
  reaches-analytics lower encode s (equity h) = analytics-equity encode s h
  reaches-analytics lower encode s (tax_expert h) = analytics-tax_expert s h
  reaches-analytics lower encode s (budget h) = analytics-budget lower encode h
  reaches-analytics lower encode s (market h) = analytics-market h

module _ (matches : Key → Key → Bool) (laws : ComparesPrefix matches) where
  matches-pair :
      (root : String) (sid : Text) (a : Text) (id : Option Text) (rest : Key)
      → matches (name root ∷ str sid ∷ []) (str a ∷ id_part id ∷ rest)
        ≡ (text_eq (codes root) a && is_session sid id)
  matches-pair root sid a none rest = ground (
    arith,
    laws.matches_str (codes root) a (str sid ∷ []) (nothing ∷ rest),
    laws.matches_nothing sid [] rest,
  )
  matches-pair root sid a (some t) rest = ground (
    arith,
    laws.matches_str (codes root) a (str sid ∷ []) (str t ∷ rest),
    laws.matches_str sid t [] rest,
    laws.matches_nil rest,
  )

  reaches-pairs :
      (roots : List String) (sid a : Text) (id : Option Text) (rest : Key)
      → reaches matches
          (map (λ r. query_key (name r ∷ str sid ∷ [])) roots)
          (str a ∷ id_part id ∷ rest)
        ≡ (any (λ r. text_eq (codes r) a) roots && is_session sid id)
  unfolding reaches
  reaches-pairs [] sid a id rest = refl
  reaches-pairs (r ∷ roots) sid a id rest =
      ground (arith, matches-pair r sid a id rest, reaches-pairs roots sid a id rest)

  reaches-short :
      (roots : List String) (sid a : Text)
      → reaches matches (map (λ r. query_key (name r ∷ str sid ∷ [])) roots) (str a ∷ []) ≡ false
  unfolding reaches
  reaches-short [] sid a = refl
  reaches-short (r ∷ roots) sid a = ground (
    arith,
    laws.matches_str (codes r) a (str sid ∷ []) [],
    laws.matches_short sid [],
    reaches-short roots sid a,
  )

  -- If key filters are compared by their beginning: for a session id that is not empty, its
  -- invalidation reaches the key of a tax hook exactly when the server computes the hook's data
  -- from the overrides and the store's tax session is that session.
  pub reaches-tax_session :
      (sid : Text) (s : AppState) (h : Tax.Hook)
      → not (is_empty sid) ≡ true
      → reaches matches (invalidate_session_queries (some sid)) (Tax.query s h).key
        ≡ (is_computed h && is_session sid s.tax_session_id)
  unfolding Tax.query invalidate_session_queries
  reaches-tax_session [] s h ne = cc
  reaches-tax_session (c ∷ sid) s use_itr_data ne =
      reaches-pairs session_root_keys (c ∷ sid) (codes "tax-expert-itr") s.tax_session_id _
  reaches-tax_session (c ∷ sid) s (use_tax_expert_summary regime) ne =
      reaches-pairs session_root_keys (c ∷ sid) (codes "tax-expert-summary") s.tax_session_id _
  reaches-tax_session (c ∷ sid) s use_tax_expert_income ne =
      reaches-pairs session_root_keys (c ∷ sid) (codes "tax-expert-income") s.tax_session_id _
  reaches-tax_session (c ∷ sid) s use_tax_expert_capital_gains ne =
      reaches-pairs session_root_keys (c ∷ sid) (codes "tax-expert-capital-gains") s.tax_session_id
        _
  reaches-tax_session (c ∷ sid) s use_tax_regime_comparison ne =
      reaches-pairs session_root_keys (c ∷ sid) (codes "tax-expert-compare") s.tax_session_id _
  reaches-tax_session (c ∷ sid) s use_tax_rules ne =
      reaches-short session_root_keys (c ∷ sid) (codes "tax-rules")
