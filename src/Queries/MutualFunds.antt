-- ===== src/Queries/MutualFunds.antt =====
-- frontend/src/domains/mutual-funds/hooks/useData.ts: each hook as the query that it makes of the
-- store. An argument with a default value is an option.
use finance_buddy.Api.MutualFunds
use finance_buddy.Api.MutualFunds.{
  get_summary, get_overview, get_benchmark_overlay, get_holdings, get_what_if, get_tax_harvest,
  get_xirr_by_fy, get_mandate_overlap, get_insights, get_fund_insights, request, get_transactions,
  get_rebalance_plan, Call, get_performance, get_sip_projection, get_journey, get_sip_attribution,
  get_allocation,
}
use finance_buddy.Api.Request.{Params, text, num}
use finance_buddy.Prelude.{
  Bool, List, Option, String, Text, [], codes, false, is_empty, not, text_eq, true, truthy, ◌&&◌,
  ◌∷◌,
}
use finance_buddy.Queries.Key.{fields, Part, Query, spread, join, name, id_part, str, forced}
use finance_buddy.Store.{Plan, AppState, session_id, all, given, direct, regular}

pub data Hook : Type 0 where
  use_summary : (benchmark : Option Text) → Hook
  use_overview : (period : Text) (benchmark : Option Text) → Hook
  use_benchmark_overlay : (period : Text) (benchmarks : List Text) → Hook
  use_holdings : (extra : Params) → Hook
  use_allocation use_tax_harvest use_xirr_by_fy use_sip_attribution use_mandate_overlap use_insights
        use_journey :
      Hook
  use_performance : (period : Text) (extra : Params) → Hook
  use_rebalance_plan : (profile : Text) → Hook
  use_sip_projection : (params : Params) → Hook
  use_what_if : (params : Params) (enabled : Bool) → Hook
  use_fund_insights : (isin : Text) (fund_name : Option Text) → Hook
  use_transactions : (fund : Option Text) → Hook

abbrev plan_text : Plan → Text
plan_text all = codes "All"
plan_text direct = codes "Direct"
plan_text regular = codes "Regular"

unfoldable pub use_filter_params : AppState → Params
use_filter_params s =
    ("benchmark", text (codes s.filters.benchmark))
    ∷ ("category", text (join s.filters.categories))
    ∷ ("amc", text (join s.filters.amcs))
    ∷ ("plan", text (plan_text s.filters.plan))
    ∷ ("min_alloc", num s.filters.min_alloc)
    ∷ []

abbrev query_of : Option Text → String → List Part → MutualFunds.Call → Query
query_of sid root rest call = record {
  key = name root ∷ id_part sid ∷ rest;
  request = MutualFunds.request call;
  enabled = truthy sid;
}

abbrev is_nonempty_list : List Text → Bool
is_nonempty_list [] = false
is_nonempty_list (t ∷ ts) = true

unfoldable pub query : AppState → Hook → Query
unfolding session_id use_filter_params spread MutualFunds.request
query s (use_summary benchmark) =
    let b = given benchmark (codes "Nifty 50") in
    let sid = session_id s in
    query_of sid "summary" (str b ∷ []) (get_summary (forced sid) (("benchmark", text b) ∷ []))
query s (use_overview period benchmark) =
    let b = given benchmark (codes "Nifty 50") in
    let sid = session_id s in
    query_of sid "overview" (str period ∷ str b ∷ [])
      (get_overview (forced sid) (("period", text period) ∷ ("benchmark", text b) ∷ []))
query s (use_benchmark_overlay period benchmarks) =
    let bs = join benchmarks in
    let sid = session_id s in
    record (query_of sid "benchmark-overlay" (str period ∷ str bs ∷ []) (
      get_benchmark_overlay (forced sid)
        (("period", text period) ∷ ("benchmarks", text bs) ∷ []))) {
          enabled = truthy sid && is_nonempty_list benchmarks;
        }
query s (use_holdings extra) =
    let sid = session_id s in
    let p = use_filter_params s in
    query_of sid "holdings" (fields p ∷ fields extra ∷ [])
      (get_holdings (forced sid) (spread p extra))
query s use_allocation =
    let sid = session_id s in
    let p = use_filter_params s in
    query_of sid "allocation" (fields p ∷ []) (get_allocation (forced sid) p)
query s (use_performance period extra) =
    let sid = session_id s in
    let p = use_filter_params s in
    query_of sid "performance" (str period ∷ fields p ∷ fields extra ∷ [])
      (get_performance (forced sid) (spread (spread p (("period", text period) ∷ [])) extra))
query s (use_rebalance_plan profile) =
    let sid = session_id s in
    query_of sid "rebalance" (str profile ∷ [])
      (get_rebalance_plan (forced sid) (("profile", text profile) ∷ []))
query s use_tax_harvest =
    let sid = session_id s in query_of sid "tax-harvest" [] (get_tax_harvest (forced sid))
query s (use_sip_projection params) =
    let sid = session_id s in
    query_of sid "sip-projection" (fields params ∷ []) (get_sip_projection (forced sid) params)
query s use_xirr_by_fy =
    let sid = session_id s in query_of sid "xirr-by-fy" [] (get_xirr_by_fy (forced sid))
query s use_sip_attribution =
    let sid = session_id s in query_of sid "sip-attribution" [] (get_sip_attribution (forced sid))
query s (use_what_if params enabled) =
    let sid = session_id s in
    record (query_of sid "what-if" (fields params ∷ []) (get_what_if (forced sid) params)) {
      enabled = truthy sid && enabled;
    }
query s use_mandate_overlap =
    let sid = session_id s in query_of sid "mandate-overlap" [] (get_mandate_overlap (forced sid))
query s use_insights =
    let sid = session_id s in
    let b = codes s.filters.benchmark in
    query_of sid "insights" (str b ∷ []) (get_insights (forced sid) (("benchmark", text b) ∷ []))
query s use_journey = let sid = session_id s in query_of sid "journey" [] (get_journey (forced sid))
query s (use_fund_insights isin fund_name) =
    let n = given fund_name [] in
    let sid = session_id s in
    record (query_of sid "fund-insights" (str isin ∷ str n ∷ [])
      (get_fund_insights (forced sid) isin (("name", text n) ∷ []))) {
        enabled = truthy sid && not (is_empty isin) && not (text_eq isin (codes "N/A"));
      }
query s (use_transactions fund) =
    let f = given fund [] in
    let sid = session_id s in
    query_of sid "transactions" (str f ∷ []) (get_transactions (forced sid) (("fund", text f) ∷ []))
