-- ===== src/Logout.antt =====
-- The `logout` action of frontend/src/shared/store/appStore.ts, with nothing running between its
-- steps. `server` is how the server and the network answer `POST /auth/logout`, `reply` what the
-- provider answers if the token for that request has to be fetched, `settled` how its own sign-out
-- ends.
pub mod Forgets
use finance_buddy.Api.Unauthorized.{on_error}
use finance_buddy.Auth.Notice.{clear_auth_landing_cache}
use finance_buddy.Auth.SignOut.{Settled, sign_out}
use finance_buddy.Auth.Token.{SessionReply, get_access_token}
use finance_buddy.Browser.{World, Action, attempt, ◌>>=◌, ◌>>◌, remove_local, clear_session_storage}
use finance_buddy.Prelude.{Bool, Option, String, Text, if◌then◌else◌, truthy, ℕ, ◌||◌}
use finance_buddy.Store.{reset_on_logout}

-- A response, or an error with its status if there is one.
pub data ServerReply : Type 0 where
  accepted : ServerReply
  refused : Option ℕ → ServerReply

abbrev pub storage_name : String
storage_name = "finance-buddy-storage"

-- The body of the outer `try`, after the request.
unfoldable pub end_session : Bool → Settled → Action (Unit {0})
end_session configured settled = do
  sign_out configured settled
  remove_local storage_name
  clear_session_storage
  clear_auth_landing_cache

module _ (read_exp : Text → Option ℕ) (configured : Bool) where
  -- `api.post('/auth/logout')` with its two interceptors; an error is logged.
  unfoldable pub post_logout : ℕ → SessionReply → ServerReply → World → World
  post_logout now reply accepted w = (get_access_token read_exp configured now reply w).1
  post_logout now reply (refused status) w =
      on_error configured status (get_access_token read_exp configured now reply w).1

  unfoldable pub logout : ℕ → SessionReply → ServerReply → Settled → World → World
  unfolding post_logout end_session
  logout now reply server settled w =
      let w₁ =
        if truthy w.state.user_id || truthy w.state.pan
        then post_logout now reply server w
        else w in
      let w₂ = attempt (end_session configured settled) w₁ in
      record w₂ { state = reset_on_logout now w₂.state }
