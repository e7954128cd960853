-- ===== src/Api/Equity.antt =====
-- The methods of `apiClient` for stocks, client.ts. `encode` is `encodeURIComponent`.
use finance_buddy.Api.Request.{
  Params, Request, file, with_body, form, plain, post, get, text, around, with_params, object,
  passed, optional, any, num, with_header, delete,
}
use finance_buddy.Prelude.{Option, Text, [], codes, none, some, ℕ, ◌∷◌}
use finance_buddy.Store.{given}

pub data Call : Type 0 where
  parse_equity_csv : (holdings_file : Text) (tradebook_file : Option Text) → Call
  get_kite_login_url get_market_indices get_equity_history get_equity_research_strategies : Call
  connect_kite : (request_token state : Text) → Call
  sync_equity get_equity_summary get_equity_allocation get_equity_pnl get_equity_insights
        delete_history_session :
      (sid : Text) → Call
  get_equity_holdings get_equity_performance : (sid : Text) (params : Params) → Call
  search_stocks : (q : Text) → Call
  analyze_stock : (symbol : Text) → Call
  stock_portfolio_impact : (symbol : Text) (amount : ℕ) (session_id : Option Text) → Call
  scan_equity_research : (body : Text) → Call
  evaluate_equity_research_symbol : (symbol : Text) (strategy : Option Text) → Call

abbrev tradebook : Option Text → Params
tradebook none = []
tradebook (some f) = ("tradebook", file f) ∷ []

unfoldable pub request : (Text → Text) → Call → Request
request encode (parse_equity_csv f trades) =
    with_body (form (("file", file f) ∷ tradebook trades))
      (plain post (codes "/equity/portfolio/parse"))
request encode get_kite_login_url = plain get (codes "/equity/portfolio/kite/login-url")
request encode (connect_kite request_token state) =
    with_body (form (("request_token", text request_token) ∷ ("state", text state) ∷ []))
      (plain post (codes "/equity/portfolio/kite/connect"))
request encode (sync_equity sid) = plain post (around "/equity/portfolio/" sid "/sync")
request encode (get_equity_summary sid) = plain get (around "/equity/overview/" sid "/summary")
request encode (get_equity_allocation sid) =
    plain get (around "/equity/overview/" sid "/allocation")
request encode (get_equity_holdings sid params) =
    with_params params (plain get (around "/equity/holdings/" sid "/holdings"))
request encode (get_equity_pnl sid) = plain get (around "/equity/holdings/" sid "/pnl")
request encode (get_equity_performance sid params) =
    with_params params (plain get (around "/equity/performance/" sid "/performance"))
request encode (get_equity_insights sid) = plain get (around "/equity/insights/" sid "/insights")
request encode get_market_indices = plain get (codes "/equity/analyzer/indices")
request encode (search_stocks q) =
    with_params (("q", text q) ∷ []) (plain get (codes "/equity/analyzer/search"))
request encode (analyze_stock symbol) = plain get (around "/equity/analyzer/analyze/" symbol "")
request encode (stock_portfolio_impact symbol amount session_id) =
    with_body
      (object (
        ("symbol", text symbol)
        ∷ ("amount", num amount)
        ∷ ("session_id", optional session_id)
        ∷ []))
      (plain post (codes "/equity/analyzer/impact"))
request encode get_equity_history =
    with_header "x-upload-type" (codes "equity") (plain get (codes "/history/"))
request encode get_equity_research_strategies = plain get (codes "/equity/research/strategies")
request encode (scan_equity_research body) =
    with_body (passed (any body)) (plain post (codes "/equity/research/scan"))
request encode (evaluate_equity_research_symbol symbol strategy) =
    with_params (("strategy", text (given strategy (codes "minervini_vcp"))) ∷ [])
      (plain get (around "/equity/research/symbol/" (encode symbol) ""))
request encode (delete_history_session sid) = plain delete (around "/history/" sid "")
