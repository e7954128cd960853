-- ===== src/Api/Admin.antt =====
-- The methods of `apiClient` for access control and for the fund data of the administrator,
-- client.ts.
use finance_buddy.Api.Request.{
  Body, passed, any, get, post, patch, plain, Params, Request, delete, with_body, around, object,
  with_params, text, num,
}
use finance_buddy.Prelude.{
  Option, String, Text, [], codes, if◌then◌else◌, is_empty, none, some, text_eq, ℕ, ◌++◌, ◌||◌, ◌∷◌,
}
use finance_buddy.Store.{given}

pub data AccessCall : Type 0 where
  get_access_requests get_app_users : AccessCall
  approve_access_request : (request_id : Text) (payload : Option Text) → AccessCall
  reject_access_request : (request_id : Text) → AccessCall
  invite_user : (payload : Text) → AccessCall
  suspend_user : (email : Text) → AccessCall
  update_app_user : (user_id payload : Text) → AccessCall
  delete_app_user : (user_id : Text) → AccessCall

pub data SyncCall : Type 0 where
  get_mf_sync_status get_synced_amcs : SyncCall
  trigger_mf_sync : (payload : Option Text) → SyncCall
  purge_mf_snapshots : (params : Params) → SyncCall
  search_mf_schemes :
      (query : Option Text) (limit offset : Option ℕ) (amc category : Option Text) → SyncCall

-- `{ method: 'invite' }` and `{}` stand for a payload that is left out.
abbrev payload_or : Params → Option Text → Body
payload_or d none = object d
payload_or d (some payload) = passed (any payload)

-- `if (amc && amc !== 'All') params.amc = amc`
abbrev filter_param : String → Option Text → Params
filter_param name none = []
filter_param name (some t) =
    if is_empty t || text_eq t (codes "All") then [] else (name, text t) ∷ []

unfoldable pub access_request : AccessCall → Request
access_request get_access_requests = plain get (codes "/auth/access-requests")
access_request (approve_access_request request_id payload) =
    with_body (payload_or (("method", text (codes "invite")) ∷ []) payload)
      (plain post (around "/auth/access-requests/" request_id "/approve"))
access_request (reject_access_request request_id) =
    plain post (around "/auth/access-requests/" request_id "/reject")
access_request (invite_user payload) =
    with_body (passed (any payload)) (plain post (codes "/auth/invites"))
access_request (suspend_user email) =
    with_body (object (("email", text email) ∷ [])) (plain post (codes "/auth/users/suspend"))
access_request get_app_users = plain get (codes "/auth/users")
access_request (update_app_user user_id payload) =
    with_body (passed (any payload)) (plain patch (around "/auth/users/" user_id ""))
access_request (delete_app_user user_id) = plain delete (around "/auth/users/" user_id "")

unfoldable pub mf_sync_request : SyncCall → Request
mf_sync_request get_mf_sync_status = plain get (codes "/admin/mf-sync/status")
mf_sync_request get_synced_amcs = plain get (codes "/admin/mf-sync/amcs")
mf_sync_request (trigger_mf_sync payload) =
    with_body (payload_or [] payload) (plain post (codes "/admin/mf-sync/trigger"))
mf_sync_request (purge_mf_snapshots params) =
    with_params params (plain delete (codes "/admin/mf-sync/purge"))
mf_sync_request (search_mf_schemes query limit offset amc category) =
    with_params
      (("q", text (given query []))
        ∷ ("limit", num (given limit 50))
        ∷ ("offset", num (given offset 0))
        ∷ (filter_param "amc" amc ++ filter_param "category" category))
      (plain get (codes "/admin/mf-sync/schemes"))
