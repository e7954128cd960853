-- ===== src/Queries/Keyed.antt =====
-- The keys of the query hooks against their requests.
use finance_buddy.Queries
use finance_buddy.Queries.MutualFunds
use finance_buddy.Queries.Equity
use finance_buddy.Queries.Tax
use finance_buddy.Queries.Budget
use finance_buddy.Queries.Market
use finance_buddy.Api.MutualFunds.{get_holdings, get_performance, request}
use finance_buddy.Api.Request.{Params, text}
use finance_buddy.Prelude.{Option, Text, ap, none, refl, some, sym, ◌∙◌, ◌≡◌, [], ◌∷◌}
use finance_buddy.Queries.{mutual_funds, equity, tax_expert, budget, market}
use finance_buddy.Queries.Budget.{
  use_budget_accounts, use_budget_anomalies, use_budget_categories, use_budget_coverage,
  use_budget_envelopes, use_budget_forecast, use_budget_overview, use_budget_reconciliation,
  use_budget_recurring, use_budget_sankey, use_budget_sessions, use_budget_transactions,
  use_budget_transfers,
}
use finance_buddy.Queries.Decode.{asking, part_text, decode}
use finance_buddy.Queries.Equity.{
  use_equity_allocation, use_equity_holdings, use_equity_insights, use_equity_performance,
  use_equity_pnl, use_equity_summary, use_stock_analysis, use_stock_search,
}
use finance_buddy.Queries.Key.{Key, id_part, forced, spread}
use finance_buddy.Queries.Market.{use_market_config, use_market_summary}
use finance_buddy.Queries.MutualFunds.{
  use_filter_params, use_allocation, use_benchmark_overlay, use_fund_insights, use_holdings,
  use_insights, use_journey, use_mandate_overlap, use_overview, use_performance, use_rebalance_plan,
  use_sip_attribution, use_sip_projection, use_summary, use_tax_harvest, use_transactions,
  use_what_if, use_xirr_by_fy,
}
use finance_buddy.Queries.Seen.{
  IsPlain, IsPlain-single, merged, merged-spread, read, seen_key, seen_part, seen_request,
}
use finance_buddy.Queries.Tax.{
  use_itr_data, use_tax_expert_capital_gains, use_tax_expert_income, use_tax_expert_summary,
  use_tax_regime_comparison, use_tax_rules,
}
use finance_buddy.Store.{AppState, session_id}

-- The fields that a caller adds to those of the filters.
abbrev extra_of : MutualFunds.Hook → Params
extra_of (use_holdings extra) = extra
extra_of (use_performance period extra) = extra
extra_of _ = []

-- A caller gives each field once and none `undefined`.
abbrev pub IsPlainHook : Queries.Hook → Type 0
IsPlainHook (mutual_funds h) = IsPlain (extra_of h)
IsPlainHook _ = Unit

part_text-id_part : (id : Option Text) → part_text (seen_part (id_part id)) ≡ forced id
part_text-id_part none = refl
part_text-id_part (some t) = refl

decode-mutual_funds :
    (encode : Text → Text) (s : AppState) (h : MutualFunds.Hook)
    → IsPlain (extra_of h)
    → decode encode (seen_key (MutualFunds.query s h).key)
      ≡ seen_request (MutualFunds.query s h).request
unfolding decode MutualFunds.query
decode-mutual_funds encode s (use_summary benchmark) plain = rw (part_text-id_part (session_id s))
decode-mutual_funds encode s (use_overview period benchmark) plain =
    rw (part_text-id_part (session_id s))
decode-mutual_funds encode s (use_benchmark_overlay period benchmarks) plain =
    rw (part_text-id_part (session_id s))
decode-mutual_funds encode s (use_holdings extra) plain = rw (part_text-id_part (session_id s)) (
    ap (λ f. asking f (request (get_holdings (forced (session_id s)) [])))
      (merged-spread (use_filter_params s) extra plain))
decode-mutual_funds encode s use_allocation plain = rw (part_text-id_part (session_id s))
decode-mutual_funds encode s (use_performance period extra) plain =
    let p = use_filter_params s in
    let q : Params = ("period", text period) ∷ [] in
    rw (part_text-id_part (session_id s)) (
      ap (λ f. asking f (request (get_performance (forced (session_id s)) [])))
        (ap (λ f. merged f (read extra))
            (merged-spread p q (IsPlain-single "period" (text period) (λ e. cc)))
          ∙ merged-spread (spread p q) extra plain))
decode-mutual_funds encode s (use_rebalance_plan profile) plain =
    rw (part_text-id_part (session_id s))
decode-mutual_funds encode s use_tax_harvest plain = rw (part_text-id_part (session_id s))
decode-mutual_funds encode s (use_sip_projection params) plain =
    rw (part_text-id_part (session_id s))
decode-mutual_funds encode s use_xirr_by_fy plain = rw (part_text-id_part (session_id s))
decode-mutual_funds encode s use_sip_attribution plain = rw (part_text-id_part (session_id s))
decode-mutual_funds encode s (use_what_if params enabled) plain =
    rw (part_text-id_part (session_id s))
decode-mutual_funds encode s use_mandate_overlap plain = rw (part_text-id_part (session_id s))
decode-mutual_funds encode s use_insights plain = rw (part_text-id_part (session_id s))
decode-mutual_funds encode s use_journey plain = rw (part_text-id_part (session_id s))
decode-mutual_funds encode s (use_fund_insights isin fund_name) plain =
    rw (part_text-id_part (session_id s))
decode-mutual_funds encode s (use_transactions fund) plain = rw (part_text-id_part (session_id s))

decode-equity :
    (encode : Text → Text) (s : AppState) (h : Equity.Hook)
    → decode encode (seen_key (Equity.query encode s h).key)
      ≡ seen_request (Equity.query encode s h).request
unfolding decode Equity.query
decode-equity encode s use_equity_summary = rw (part_text-id_part s.equity_session_id)
decode-equity encode s use_equity_allocation = rw (part_text-id_part s.equity_session_id)
decode-equity encode s (use_equity_holdings sort_by ascending) =
    rw (part_text-id_part s.equity_session_id)
decode-equity encode s use_equity_pnl = rw (part_text-id_part s.equity_session_id)
decode-equity encode s (use_equity_performance period benchmark) =
    rw (part_text-id_part s.equity_session_id)
decode-equity encode s use_equity_insights = rw (part_text-id_part s.equity_session_id)
decode-equity encode s (use_stock_search typed) = refl
decode-equity encode s (use_stock_analysis symbol) = rw (part_text-id_part symbol)

decode-tax_expert :
    (encode : Text → Text) (s : AppState) (h : Tax.Hook)
    → decode encode (seen_key (Tax.query s h).key) ≡ seen_request (Tax.query s h).request
unfolding decode Tax.query
decode-tax_expert encode s use_itr_data = rw (part_text-id_part s.tax_session_id)
decode-tax_expert encode s (use_tax_expert_summary regime) = rw (part_text-id_part s.tax_session_id)
decode-tax_expert encode s use_tax_expert_income = rw (part_text-id_part s.tax_session_id)
decode-tax_expert encode s use_tax_expert_capital_gains = rw (part_text-id_part s.tax_session_id)
decode-tax_expert encode s use_tax_regime_comparison = rw (part_text-id_part s.tax_session_id)
decode-tax_expert encode s use_tax_rules = refl

decode-budget :
    (lower encode : Text → Text) (h : Budget.Hook)
    → decode encode (seen_key (Budget.query lower encode h).key)
      ≡ seen_request (Budget.query lower encode h).request
unfolding decode Budget.query
decode-budget lower encode use_budget_sessions = refl
decode-budget lower encode (use_budget_overview sid filters) = refl
decode-budget lower encode (use_budget_categories sid filters) = refl
decode-budget lower encode (use_budget_transactions sid filters limit) = refl
decode-budget lower encode (use_budget_accounts sid) = refl
decode-budget lower encode (use_budget_transfers sid enabled) = refl
decode-budget lower encode (use_budget_recurring sid enabled) = refl
decode-budget lower encode (use_budget_forecast sid enabled) = refl
decode-budget lower encode (use_budget_anomalies sid enabled) = refl
decode-budget lower encode (use_budget_reconciliation sid enabled) = refl
decode-budget lower encode (use_budget_coverage sid enabled) = refl
decode-budget lower encode (use_budget_sankey sid enabled) = refl
decode-budget lower encode (use_budget_envelopes sid enabled) = refl

decode-market :
    (encode : Text → Text) (h : Market.Hook)
    → decode encode (seen_key (Market.query h).key) ≡ seen_request (Market.query h).request
unfolding decode Market.query
decode-market encode (use_market_summary enabled) = refl
decode-market encode use_market_config = refl

decode-query :
    (lower encode : Text → Text) (s : AppState) (h : Queries.Hook)
    → IsPlainHook h
    → decode encode (seen_key (Queries.query lower encode s h).key)
      ≡ seen_request (Queries.query lower encode s h).request
unfolding Queries.query
decode-query lower encode s (mutual_funds h) plain = decode-mutual_funds encode s h plain
decode-query lower encode s (equity h) plain = decode-equity encode s h
decode-query lower encode s (tax_expert h) plain = decode-tax_expert encode s h
decode-query lower encode s (budget h) plain = decode-budget lower encode h
decode-query lower encode s (market h) plain = decode-market encode h

-- If keys of the same hash differ at most in the order and the `undefined` fields of their objects,
-- and the fields that a caller adds are each given once and none is `undefined`: two hooks, in the
-- same or in two states of the store, whose queries have keys of the same hash make the same
-- request, but for the order of its parameters and for those that are `undefined`.
pub same_key_same_request :
    {H : Type 0} (hash : Key → H) (lower encode : Text → Text) (s s' : AppState)
    (h h' : Queries.Hook)
    → ((k k' : Key) → hash k ≡ hash k' → seen_key k ≡ seen_key k')
    → IsPlainHook h
    → IsPlainHook h'
    → hash (Queries.query lower encode s h).key ≡ hash (Queries.query lower encode s' h').key
    → seen_request (Queries.query lower encode s h).request
      ≡ seen_request (Queries.query lower encode s' h').request
same_key_same_request hash lower encode s s' h h' tells plain plain' e =
    sym (decode-query lower encode s h plain)
    ∙ ap (decode encode) (tells _ _ e)
    ∙ decode-query lower encode s' h' plain'
