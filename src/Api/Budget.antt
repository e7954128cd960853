-- ===== src/Api/Budget.antt =====
-- The methods of `apiClient` for the budget, client.ts. `encode` is `encodeURIComponent`.
pub mod Page
use finance_buddy.Api.Request.{
  patch, num, null, any, flag, post, form, object, delete, file, get, with_params, Params, plain,
  text, with_body, passed, Request, around, put, Value,
}
use finance_buddy.Prelude.{Option, Text, [], codes, none, some, ℕ, ◌∷◌}
use finance_buddy.Store.{given}

pub data Call : Type 0 where
  upload_budget_statement : (file : Text) (bank account_type : Option Text) → Call
  get_budget_overview get_budget_categories get_budget_transactions :
      (sid : Text) (params : Params) → Call
  update_budget_transactions : (updates : Text) → Call
  get_budget_sessions get_budget_rules apply_budget_rules get_budget_match_types : Call
  get_budget_accounts : (sid : Option Text) → Call
  update_budget_account : (account_key patch : Text) → Call
  get_budget_transfers get_budget_recurring get_budget_forecast get_budget_anomalies
        get_budget_reconciliation get_budget_coverage get_budget_sankey get_budget_envelopes
        delete_budget_session :
      (sid : Text) → Call
  flag_budget_transfer : (txn_id : Text) (flag : Option Text) → Call
  set_budget_envelope : (category : Text) (monthly_cap : Option ℕ) → Call
  rename_budget_merchant : (description display_name : Text) → Call
  create_budget_rule : (rule : Text) → Call
  delete_budget_rule : (rule_id : Text) → Call
  test_budget_rule : (rule description : Text) → Call

abbrev or_null : Option Text → Value
or_null none = null
or_null (some t) = text t

abbrev cap_or_null : Option ℕ → Value
cap_or_null none = null
cap_or_null (some n) = num n

unfoldable pub request : (Text → Text) → Call → Request
request encode (upload_budget_statement f bank account_type) =
    with_body
      (form (
        ("file", file f)
        ∷ ("bank", text (given bank (codes "auto")))
        ∷ ("account_type", text (given account_type (codes "auto")))
        ∷ []))
      (plain post (codes "/budget/portfolio/upload"))
request encode (get_budget_overview sid params) =
    with_params params (plain get (around "/budget/analytics/" sid "/overview"))
request encode (get_budget_categories sid params) =
    with_params params (plain get (around "/budget/analytics/" sid "/categories"))
request encode (get_budget_transactions sid params) =
    with_params params (plain get (around "/budget/analytics/" sid "/transactions"))
request encode (update_budget_transactions updates) =
    with_body (passed (any updates)) (plain put (codes "/budget/analytics/transactions/update"))
request encode get_budget_sessions = plain get (codes "/budget/portfolio/sessions")
request encode (get_budget_accounts sid) =
    with_params (("session_id", text (given sid (codes "overall"))) ∷ [])
      (plain get (codes "/budget/accounts"))
request encode (update_budget_account account_key patch') =
    with_body (passed (any patch')) (plain put (around "/budget/accounts/" (encode account_key) ""))
request encode (get_budget_transfers sid) = plain get (around "/budget/insights/" sid "/transfers")
request encode (flag_budget_transfer txn_id flag') =
    with_body (object (("txn_id", text txn_id) ∷ ("flag", or_null flag') ∷ []))
      (plain post (codes "/budget/insights/transfers/flag"))
request encode (get_budget_recurring sid) = plain get (around "/budget/insights/" sid "/recurring")
request encode (get_budget_forecast sid) = plain get (around "/budget/insights/" sid "/forecast")
request encode (get_budget_anomalies sid) = plain get (around "/budget/insights/" sid "/anomalies")
request encode (get_budget_reconciliation sid) =
    plain get (around "/budget/insights/" sid "/reconciliation")
request encode (get_budget_coverage sid) = plain get (around "/budget/insights/" sid "/coverage")
request encode (get_budget_sankey sid) = plain get (around "/budget/insights/" sid "/sankey")
request encode (get_budget_envelopes sid) = plain get (around "/budget/insights/" sid "/envelopes")
request encode (set_budget_envelope category monthly_cap) =
    with_body (object (("category", text category) ∷ ("monthly_cap", cap_or_null monthly_cap) ∷ []))
      (plain put (codes "/budget/insights/envelopes"))
request encode (rename_budget_merchant description display_name) =
    with_body
      (object (("description", text description) ∷ ("display_name", text display_name) ∷ []))
      (plain put (codes "/budget/insights/merchants/alias"))
request encode (delete_budget_session sid) =
    plain delete (around "/budget/portfolio/sessions/" sid "")
request encode get_budget_rules = plain get (codes "/budget/rules")
request encode (create_budget_rule rule) =
    with_body (passed (any rule)) (plain post (codes "/budget/rules"))
request encode (delete_budget_rule rule_id) = plain delete (around "/budget/rules/" rule_id "")
request encode apply_budget_rules = plain post (codes "/budget/rules/apply-all")
request encode (test_budget_rule rule description) =
    with_params (("description", text description) ∷ [])
      (with_body (passed (any rule)) (plain post (codes "/budget/rules/test")))
request encode get_budget_match_types = plain get (codes "/budget/rules/match-types")
