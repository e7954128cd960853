-- ===== src/App.antt =====
-- The root component, frontend/src/App.tsx: the handler of sign-in events, which asks the server
-- who the user is, the periodic check of the session, and the choice of the page.
pub mod Identity
pub mod Pages
pub mod Refusal
pub mod Setup
use finance_buddy.Auth.Access.{AccessNotice, is_requested, lookup_access_notice_for_emails}
use finance_buddy.Auth.Notice.{
  AccessStatus, Json, read_access_request_email, AuthNotice, write_auth_notice, not_requested,
}
use finance_buddy.Auth.PasswordSetup.{is_password_setup_required, is_text}
use finance_buddy.Auth.SignOut.{Settled, sign_out}
use finance_buddy.Auth.Token.{check_session_health, SessionReply}
use finance_buddy.Browser.{World, Result, Action, ok, pure, threw, ◌>>◌, ◌>>=◌}
use finance_buddy.Prelude.{
  Bool, Option, String, Text, [], codes, false, if◌then◌else◌, is_empty, is_none, is_number, none,
  not, or_else, some, text_eq, true, truthy, ℕ, ◌&&◌, ◌||◌, ◌∷◌,
}
use finance_buddy.Store.{
  Status, IdentityUpdate, AppState, clear_identity, is_authenticated, Role, set_identity, given,
}

-- `AuthUser` of authClient.ts.
pub record AuthUser : Type 0 where
  pub id : Text
  pub email : Option Text

-- What `GET /auth/me` answers.
pub record Me : Type 0 where
  pub email : Option Text
  pub pan : Option Text
  pub display_name : Option Text
  pub status : Status
  pub role : Role

-- An error of a request, with what of the response is read, if there was one.
pub record Failure : Type 0 where
  pub status : Option ℕ
  pub detail : Option Text
  pub message : Option Text
  pub access_request_status : Option AccessStatus

pub data MeReply : Type 0 where
  known : Me → MeReply
  failed : Failure → MeReply

-- The world and the state of the mounted component.
pub record Mounted : Type 0 where
  pub world : World
  pub cancelled : Bool
  pub resolving_session : Bool
  pub needs_password_setup : Bool

unfoldable pub parse_not_authorized_error : Failure → Option (Text × AccessStatus)
parse_not_authorized_error f =
    if is_number f.status 403 && is_text f.detail (codes "not_authorized")
    then some (
      or_else f.message (codes "You do not have access yet."),
      given f.access_request_status not_requested,
    )
    else none

-- The identity that a session alone gives.
abbrev session_identity : AuthUser → IdentityUpdate
session_identity user = record {
  user_id = some user.id;
  email = some user.email;
  display_name = none;
  pan = none;
  status = none;
  role = none;
}

-- `a ?? b`
abbrev pub or_other {ℓ} : {A : Type ℓ} → Option A → Option A → Option A
or_other none b = b
or_other (some a) b = some a

-- A PAN from the server, else the one that is there, unless it belongs to another account.
abbrev keep_pan : AuthUser → Me → AppState → Option Text
keep_pan user me prev =
    or_other me.pan
      (if is_text prev.user_id user.id || is_none prev.user_id then prev.pan else none)

abbrev me_identity : AuthUser → Me → AppState → IdentityUpdate
me_identity user me prev = record {
  user_id = some user.id;
  email = some (or_other me.email user.email);
  display_name = some me.display_name;
  pan = some (keep_pan user me prev);
  status = some (some me.status);
  role = some (some me.role);
}

abbrev pub set_state : (AppState → AppState) → Mounted → Mounted
set_state f m = record m { world = record (m.world) { state = f m.world.state } }

-- The handler up to the request: with a user it goes on to ask the server, and otherwise it is
-- done. `isPasswordSetupRequired` throws where storage is blocked; then nothing else is done.
abbrev greet : Option AuthUser → Mounted → Mounted
greet none m =
    if m.cancelled then m else record (set_state clear_identity m) { resolving_session = false }
greet (some user) m = set_state (set_identity (session_identity user)) m

abbrev with_setup : Result Bool → Option AuthUser → Mounted → Mounted
with_setup (ok required) user m = greet user (record m { needs_password_setup = required })
with_setup threw user m = m

unfoldable pub on_auth_change_start : Option AuthUser → Mounted → Mounted
unfolding is_password_setup_required
on_auth_change_start user m = with_setup (is_password_setup_required m.world).0 user m

-- The notice for a user whom the server refuses.
unfoldable pub refusal_notice : AuthUser → Text × AccessStatus → AccessNotice → AuthNotice
refusal_notice user (message, status) notice =
    if not (is_requested notice.access_request_status) && is_requested status
    then record { message = message; access_request_status = status; email = user.email }
    else record {
      message = if is_empty message then notice.message else message;
      access_request_status = notice.access_request_status;
      email = notice.email;
    }

module _ (json : Json) (access_status : Text → Option (Text × AccessStatus)) (lower : Text → Text)
    (configured : Bool) where
  -- Looking up the notice for a refused user, and storing it.
  abbrev explain : AuthUser → Option (Text × AccessStatus) → Action (Unit {0})
  explain user none = pure tt
  explain user (some unauthorized) = do
    remembered ← read_access_request_email
    write_auth_notice json (
        refusal_notice user unauthorized
          (lookup_access_notice_for_emails access_status lower (user.email ∷ remembered ∷ [])))

  abbrev after_refusal : Result (Unit {0}) × World → Mounted → Mounted
  after_refusal (threw, w) m = record m { world = w }
  after_refusal (ok _, w) m =
      if m.cancelled
      then record m { world = w }
      else record (set_state clear_identity (record m { world = w })) { resolving_session = false }

  -- The rest of the handler: the server has answered. With nothing in between, a refusal is
  -- explained, the user signed out and the identity cleared.
  unfoldable pub on_auth_change_resume : AuthUser → Settled → MeReply → Mounted → Mounted
  unfolding parse_not_authorized_error read_access_request_email write_auth_notice sign_out
  on_auth_change_resume user settled (known me) m =
      if m.cancelled
      then m
      else record (set_state (λ s. set_identity (me_identity user me s) s) m) {
        resolving_session = false;
      }
  on_auth_change_resume user settled (failed f) m =
      if m.cancelled
      then m
      else after_refusal
          ((explain user (parse_not_authorized_error f) >> sign_out configured settled) m.world) m

-- `verifySessionHealth`: a session that has no token left is ended.
module _ (read_exp : Text → Option ℕ) where
  abbrev end_if_dead : Settled → Bool × World → World
  end_if_dead settled (true, w) = w
  end_if_dead settled (false, w) = elim (sign_out true settled w).0 [
    | ok _ ↦ let w' = (sign_out true settled w).1 in record w' { state = clear_identity w'.state }
    | threw ↦ (sign_out true settled w).1
  ]

  -- `is_checking` says that an earlier check has not ended, and then nothing is done.
  unfoldable pub verify_session_health : Bool → ℕ → SessionReply → Settled → World → World
  unfolding check_session_health sign_out
  verify_session_health is_checking now reply settled w =
      if is_checking
      then w
      else end_if_dead settled (check_session_health read_exp true now reply w)

-- What is rendered. `Routes` has two routes, "/" and the rest.
pub data Page : Type 0 where
  tab_fallback suspended_access pending_access landing shell : Page
  account_setup : (require_password require_pan : Bool) → Page
  navigate : String → Page

abbrev is_active : Option Status → Bool
is_active (some Status.active) = true
is_active _ = false

abbrev is_suspended : Option Status → Bool
is_suspended (some Status.suspended) = true
is_suspended _ = false

abbrev is_pending : Option Status → Bool
is_pending (some Status.pending) = true
is_pending _ = false

abbrev routes : Bool → Text → Page
routes signed_in path =
    if text_eq path (codes "/")
    then (if signed_in then navigate "/dashboard" else landing)
    else (if signed_in then shell else navigate "/")

unfoldable pub page : Mounted → Text → Page
unfolding is_authenticated
page m path =
    let s = m.world.state in
    let signed_in = is_authenticated s in
    let require_password = signed_in && m.needs_password_setup in
    let require_pan = signed_in && is_active s.status && not (truthy s.pan) in
    if m.resolving_session
    then tab_fallback
    else if signed_in && is_none s.status
    then tab_fallback
    else if signed_in && is_suspended s.status
    then suspended_access
    else if require_password || require_pan
    then account_setup require_password require_pan
    else if signed_in && is_pending s.status
    then pending_access
    else routes signed_in path
