-- ===== src/Queries/Equity.antt =====
-- The queries of frontend/src/domains/equity/hooks/useEquityData.ts. `encode` is the client's
-- `encodeURIComponent`.
pub mod Placeholder
use finance_buddy.Api.Equity
use finance_buddy.Api.Equity.{
  get_equity_summary, get_equity_allocation, get_equity_holdings, get_equity_pnl, analyze_stock,
  get_equity_performance, Call, request, search_stocks, get_equity_insights,
}
use finance_buddy.Api.Request.{text, flag}
use finance_buddy.Prelude.{
  Bool, List, Option, String, Text, [], codes, false, if◌then◌else◌, is_number, leb, length, none,
  some, text_eq, trim, true, truthy, ℕ, ◌∷◌,
}
use finance_buddy.Queries.Key.{Part, Key, Query, str, name, nothing, id_part, forced, boolean}
use finance_buddy.Store.{AppState, clear_session, given}

pub data Hook : Type 0 where
  use_equity_summary use_equity_allocation use_equity_pnl use_equity_insights : Hook
  use_equity_holdings : (sort_by : Option Text) (ascending : Option Bool) → Hook
  use_equity_performance : (period benchmark : Text) → Hook
  use_stock_search : (query : Text) → Hook
  use_stock_analysis : (symbol : Option Text) → Hook

abbrev query_of : (Text → Text) → Option Text → String → List Part → Equity.Call → Query
query_of encode sid root rest call = record {
  key = name "equity" ∷ name root ∷ id_part sid ∷ rest;
  request = Equity.request encode call;
  enabled = truthy sid;
}

unfoldable pub query : (Text → Text) → AppState → Hook → Query
unfolding trim Equity.request
query encode s use_equity_summary =
    let sid = s.equity_session_id in
    query_of encode sid "summary" [] (get_equity_summary (forced sid))
query encode s use_equity_allocation =
    let sid = s.equity_session_id in
    query_of encode sid "allocation" [] (get_equity_allocation (forced sid))
query encode s (use_equity_holdings sort_by ascending) =
    let sid = s.equity_session_id in
    let by = given sort_by (codes "current_value") in
    let up = given ascending false in
    query_of encode sid "holdings" (str by ∷ boolean up ∷ [])
      (get_equity_holdings (forced sid) (("sort_by", text by) ∷ ("ascending", flag up) ∷ []))
query encode s use_equity_pnl =
    let sid = s.equity_session_id in query_of encode sid "pnl" [] (get_equity_pnl (forced sid))
query encode s (use_equity_performance period benchmark) =
    let sid = s.equity_session_id in
    query_of encode sid "performance" (str period ∷ str benchmark ∷ []) (
      get_equity_performance (forced sid)
        (("period", text period) ∷ ("benchmark", text benchmark) ∷ []))
query encode s use_equity_insights =
    let sid = s.equity_session_id in
    query_of encode sid "insights" [] (get_equity_insights (forced sid))
query encode s (use_stock_search typed) =
    let trimmed = trim typed in
    record (query_of encode (some trimmed) "stock-search" [] (search_stocks trimmed)) {
      enabled = leb 2 (length trimmed);
    }
query encode s (use_stock_analysis symbol) =
    query_of encode symbol "stock-analysis" [] (analyze_stock (forced symbol))

-- `prevQuery?.queryKey?.[2] === sid ? prev : undefined`: which rows stay on screen while the next
-- answer of `useEquityHoldings` and `useEquityPerformance` is on its way.
abbrev pub is_same_id : List Part → Option Text → Bool
is_same_id (_ ∷ (_ ∷ (str t ∷ _))) (some sid) = text_eq t sid
is_same_id (_ ∷ (_ ∷ (nothing ∷ _))) none = true
is_same_id _ _ = false

unfoldable pub placeholder_data : {A : Type 0} → Option Text → Key → Option A → Option A
placeholder_data sid previous_key previous = if is_same_id previous_key sid then previous else none

-- `useClearSessionOnMissing`: its effect on the store, `now` being the time.
unfoldable pub clear_session_on_missing : ℕ → Option ℕ → AppState → AppState
unfolding clear_session
clear_session_on_missing now status s =
    if is_number status 404 then clear_session now (some "equity") s else s
