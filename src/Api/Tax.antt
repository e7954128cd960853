-- ===== src/Api/Tax.antt =====
-- The methods of `apiClient` for the tax expert and for the signed-in account, client.ts.
use finance_buddy.Api.Request.{
  Request, with_body, form, file, plain, post, around, get, delete, with_params, put, object, text,
  any, num, passed,
}
use finance_buddy.Prelude.{Option, Text, [], codes, none, some, ℕ, ◌++◌, ◌∷◌}
use finance_buddy.Store.{given}

pub data Call : Type 0 where
  parse_ais : (file : Text) → Call
  reconcile_broker_file upload_itr : (sid file : Text) → Call
  get_accounts_summary purge_account export_account get_me clear_system_caches get_tax_rules : Call
  get_tax_history : (limit offset : Option ℕ) → Call
  delete_tax_session get_itr_data get_tax_expert_income get_tax_expert_capital_gains
        compare_tax_regimes :
      (sid : Text) → Call
  update_profile : (payload : Text) → Call
  set_profile_pan : (pan : Text) → Call
  get_tax_expert_summary : (sid : Text) (regime : Option Text) → Call
  update_transaction_cost : (sid category : Text) (sr new_cost : ℕ) → Call
  post_tax_overrides : (sid overrides : Text) (regime : Option Text) → Call
  get_tax_details : (sid bucket : Text) (offset limit : Option ℕ) → Call

-- `regime ? '?regime=…' : ''`
abbrev regime_query : Option Text → Text
regime_query none = []
regime_query (some []) = []
regime_query (some (c ∷ s)) = codes "?regime=" ++ c ∷ s

unfoldable pub request : Call → Request
request (parse_ais f) =
    with_body (form (("file", file f) ∷ [])) (plain post (codes "/tax-expert/parse-ais"))
request (reconcile_broker_file sid f) =
    with_body (form (("broker_file", file f) ∷ []))
      (plain post (around "/tax-expert/" sid "/tax/reconcile-broker"))
request get_accounts_summary = plain get (codes "/accounts/summary")
request purge_account = plain delete (codes "/accounts/me")
request export_account = plain get (codes "/accounts/me/export")
request (get_tax_history limit offset) =
    with_params (("limit", num (given limit 200)) ∷ ("offset", num (given offset 0)) ∷ [])
      (plain get (codes "/tax-expert/tax-history"))
request (delete_tax_session sid) = plain delete (around "/tax-expert/tax-history/" sid "")
request get_me = plain get (codes "/auth/me")
request (update_profile payload) =
    with_body (passed (any payload)) (plain put (codes "/auth/profile"))
request (set_profile_pan pan) =
    with_body (object (("pan", text pan) ∷ [])) (plain put (codes "/auth/profile/pan"))
request clear_system_caches = plain post (codes "/accounts/clear_caches")
request (upload_itr sid f) =
    with_body (form (("file", file f) ∷ [])) (plain post (around "/tax-expert/" sid "/tax/itr"))
request (get_itr_data sid) = plain get (around "/tax-expert/" sid "/tax/itr")
request (get_tax_expert_summary sid regime) =
    with_params (("regime", text (given regime (codes "new"))) ∷ [])
      (plain get (around "/tax-expert/" sid "/tax/summary"))
request (get_tax_expert_income sid) = plain get (around "/tax-expert/" sid "/tax/income")
request (get_tax_expert_capital_gains sid) =
    plain get (around "/tax-expert/" sid "/tax/capital-gains")
request (update_transaction_cost sid category sr new_cost) =
    with_body
      (object (("category", text category) ∷ ("sr", num sr) ∷ ("new_cost", num new_cost) ∷ []))
      (plain post (around "/tax-expert/" sid "/tax/capital-gains/transaction"))
request (post_tax_overrides sid overrides regime) =
    with_body (passed (any overrides))
      (plain post (around "/tax-expert/" sid "/tax/recalculate" ++ regime_query regime))
request (compare_tax_regimes sid) = plain get (around "/tax-expert/" sid "/tax/compare-regimes")
request get_tax_rules = plain get (codes "/tax-expert/rules")
request (get_tax_details sid bucket offset limit) =
    with_params (("offset", num (given offset 0)) ∷ ("limit", num (given limit 200)) ∷ [])
      (plain get (codes "/tax-expert/" ++ sid ++ around "/tax/details/" bucket ""))
