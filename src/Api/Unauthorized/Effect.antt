-- ===== src/Api/Unauthorized/Effect.antt =====
-- What the handler of one failed response does when nothing runs in between.
use finance_buddy.Api.Unauthorized.{on_error, on_error_start, on_error_resume}
use finance_buddy.Auth.PasswordSetup.{clear_password_setup_required, password_setup_key}
use finance_buddy.Auth.SignOut.{sign_out_start}
use finance_buddy.Browser.{World}
use finance_buddy.Prelude.{
  Bool, Option, false, if◌then◌else◌, lookup, none, refl, some, true, ℕ, ◌≡◌, ◌≢◌, arith,
  lookup-erase,
}
use finance_buddy.Store.{is_authenticated, clear_identity, Module}
use finance_buddy.Store.Sessions.{stored, session_in, session_in-eq-stored}

-- A response that failed for any other reason than a 401, or with no status at all, changes
-- nothing.
on_error_ignores :
    (configured : Bool) (status : Option ℕ) (w : World)
    → status ≢ some 401
    → on_error configured status w ≡ w
unfolding on_error on_error_start
on_error_ignores configured none w other = refl
on_error_ignores configured (some status) w other = ground arith

stored-on_error :
    (configured : Bool) (m : Module) (w : World)
    → is_authenticated w.state ≡ true
    → w.handling_401 ≡ false
    → w.storage_blocked ≡ false
    → stored m (on_error configured (some 401) w).state ≡ none
unfolding on_error on_error_start on_error_resume is_authenticated clear_identity sign_out_start
    clear_password_setup_required
stored-on_error configured m w signed_in free open' = ground arith

-- A 401 for a user who is signed in, in either way, ends the session where storage is open and no
-- other handler is at work: nobody is signed in, no module shows a session, no token is cached,
-- the password flag is gone if a provider is configured, and the lock is free again.
pub on_error_signs_out :
    (configured : Bool) (m : Module) (w : World)
    → is_authenticated w.state ≡ true
    → w.handling_401 ≡ false
    → w.storage_blocked ≡ false
    → let w' = on_error configured (some 401) w in
      (is_authenticated w'.state ≡ false)
      × (session_in m w'.state ≡ none)
      × (w'.cache ≡ none)
      × (w'.handling_401 ≡ false)
      × (lookup password_setup_key w'.session_storage
          ≡ (if configured then none else lookup password_setup_key w.session_storage))
unfolding on_error on_error_start on_error_resume is_authenticated clear_identity sign_out_start
    clear_password_setup_required
on_error_signs_out configured m w signed_in free open' = (
  ground arith,
  rw (session_in-eq-stored m (on_error configured (some 401) w).state)
      (stored-on_error configured m w signed_in free open'),
  ground arith,
  ground arith,
  ground (arith, lookup-erase password_setup_key password_setup_key w.session_storage),
)
