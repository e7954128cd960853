-- ===== src/Api/MutualFunds.antt =====
-- The methods of `apiClient` for mutual funds and the market, client.ts, one constructor each; the
-- arguments that TypeScript fills in by default are options.
use finance_buddy.Api.Request.{
  Params, decimal, Request, with_header, with_body, form, file, text, plain, post, get, with_params,
  around, num,
}
use finance_buddy.Prelude.{Option, Text, [], codes, ℕ, ◌++◌, ◌∷◌}
use finance_buddy.Store.{given}

pub data Call : Type 0 where
  parse_file : (file password : Text) (upload_type : Option Text) → Call
  get_history : (upload_type : Option Text) → Call
  get_summary get_overview get_benchmark_overlay get_holdings get_allocation get_performance
        get_rebalance_plan get_sip_projection get_what_if get_insights get_transactions :
      (sid : Text) (params : Params) → Call
  sync_portfolio get_tax_harvest get_xirr_by_fy get_sip_attribution get_mandate_overlap
        get_journey :
      (sid : Text) → Call
  get_fund_insights : (sid isin : Text) (params : Params) → Call
  get_category_peers : (category : Text) → Call
  search_ticker : (q : Text) → Call
  get_benchmark_history : (ticker : Text) (days : Option ℕ) → Call
  get_rolling_returns : (sid isin : Text) (window : Option ℕ) → Call
  get_market_summary get_market_config : Call
  update_market_config : (ttl : ℕ) → Call

unfoldable pub request : Call → Request
unfolding decimal
request (parse_file f password upload_type) =
    with_header "X-Upload-Type" (given upload_type (codes "mutual_funds")) (
      with_body (form (("file", file f) ∷ ("password", text password) ∷ []))
        (plain post (codes "/mutual-funds/portfolio/parse")))
request (get_history upload_type) =
    with_header "X-Upload-Type" (given upload_type (codes "mutual_funds"))
      (plain get (codes "/history/"))
request (get_summary sid params) =
    with_params params (plain get (around "/mutual-funds/overview/" sid "/summary"))
request (sync_portfolio sid) = plain post (around "/mutual-funds/portfolio/" sid "/sync")
request (get_overview sid params) =
    with_params params (plain get (around "/mutual-funds/overview/" sid "/overview"))
request (get_benchmark_overlay sid params) =
    with_params params (plain get (around "/mutual-funds/overview/" sid "/benchmark-overlay"))
request (get_holdings sid params) =
    with_params params (plain get (around "/mutual-funds/holdings/" sid "/holdings"))
request (get_allocation sid params) =
    with_params params (plain get (around "/mutual-funds/overview/" sid "/allocation"))
request (get_performance sid params) =
    with_params params (plain get (around "/mutual-funds/performance/" sid "/performance"))
request (get_rebalance_plan sid params) =
    with_params params (plain get (around "/mutual-funds/rebalance/" sid "/plan"))
request (get_tax_harvest sid) = plain get (around "/mutual-funds/planning/" sid "/tax-harvest")
request (get_sip_projection sid params) =
    with_params params (plain get (around "/mutual-funds/planning/" sid "/sip-projection"))
request (get_xirr_by_fy sid) = plain get (around "/mutual-funds/planning/" sid "/xirr-by-fy")
request (get_sip_attribution sid) =
    plain get (around "/mutual-funds/planning/" sid "/sip-attribution")
request (get_what_if sid params) =
    with_params params (plain get (around "/mutual-funds/planning/" sid "/what-if"))
request (get_mandate_overlap sid) =
    plain get (around "/mutual-funds/planning/" sid "/mandate-overlap")
request (get_insights sid params) =
    with_params params (plain get (around "/mutual-funds/insights/" sid "/insights"))
request (get_journey sid) = plain get (around "/mutual-funds/journey/" sid "")
request (get_fund_insights sid isin params) =
    with_params params
      (plain get (codes "/mutual-funds/holdings/" ++ sid ++ around "/fund-insights/" isin ""))
request (get_transactions sid params) =
    with_params params (plain get (around "/mutual-funds/holdings/" sid "/transactions"))
request (get_category_peers category) =
    with_params (("category", text category) ∷ []) (plain get (codes "/mutual-funds/compare/peers"))
request (search_ticker q) =
    with_params (("q", text q) ∷ []) (plain get (codes "/mutual-funds/compare/search"))
request (get_benchmark_history ticker days) =
    with_params (("ticker", text ticker) ∷ ("days", num (given days 365)) ∷ [])
      (plain get (codes "/mutual-funds/compare/history"))
request (get_rolling_returns sid isin window) =
    with_params (("window", num (given window 3)) ∷ [])
      (plain get (codes "/mutual-funds/performance/" ++ sid ++ around "/rolling/" isin ""))
request get_market_summary = plain get (codes "/market/summary")
request get_market_config = plain get (codes "/market/config")
request (update_market_config ttl) = plain post (codes "/market/config?ttl=" ++ decimal ttl)
