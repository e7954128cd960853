-- ===== src/App/Setup.antt =====
-- The setup panel, frontend/src/shared/components/AccountSetupPrompt.tsx, over the root component that
-- shows it: what is typed, and `handleSubmit`, cut at its awaits. `upper` is `toUpperCase`.
pub mod Done
use finance_buddy.App.{Mounted, Action, ok}
use finance_buddy.Auth.Token.{SessionReply, update_password}
use finance_buddy.Browser.{World, pure, Result, threw}
use finance_buddy.Prelude.{
  Bool, Option, String, Text, [], codes, drop, false, if◌then◌else◌, is_empty, leb, length, ltb,
  nat_eq, none, not, or_else, some, take, text_eq, trim, true, ℕ, ◌&&◌, ◌∷◌,
}
use finance_buddy.Store.{AppState, IdentityUpdate, set_identity}

pub record Setup : Type 0 where
  pub app : Mounted
  pub password : Text
  pub confirm : Text
  pub pan : Text
  pub loading : Bool
  pub error : Option Text

-- An error that is caught, with the texts that are looked for.
pub record SubmitError : Type 0 where
  pub detail : Option Text
  pub message : Option Text

-- How the provider takes a new password, and its session at the time `now`; `failure` is what
-- `updatePassword` throws, if it does.
pub record PasswordAnswer : Type 0 where
  pub accepted : Bool
  pub now : ℕ
  pub session : SessionReply
  pub failure : SubmitError

pub data PanReply : Type 0 where
  saved : Option Text → PanReply
  failed : SubmitError → PanReply

abbrev pub is_upper : ℕ → Bool
is_upper c = leb 65 c && leb c 90

abbrev pub is_decimal_digit : ℕ → Bool
is_decimal_digit c = leb 48 c && leb c 57

abbrev pub all_are : (ℕ → Bool) → Text → Bool
all_are p [] = true
all_are p (c ∷ s) = p c && all_are p s

-- `PAN_PATTERN.test(s)`
unfoldable pub is_pan : Text → Bool
is_pan s =
    nat_eq (length s) 10
    && all_are is_upper (take 5 s)
    && all_are is_decimal_digit (take 4 (drop 5 s))
    && all_are is_upper (drop 9 s)

abbrev pub stopped : String → Setup → Option Text × Setup
stopped message s = (none, record s { error = some (codes message) })

abbrev pub submitting : Text → Setup → Option Text × Setup
submitting pan s = (some pan, record s { loading = true })

module _ (upper : Text → Text) (require_password require_pan : Bool) where
  -- The PAN that is checked and sent; empty if none is asked for.
  abbrev pub pan_value : Setup → Text
  pan_value s = if require_pan then upper (trim s.pan) else []

  -- Up to the first await: the PAN to send, unless what is typed is refused.
  unfoldable pub submit_start : Setup → Option Text × Setup
  submit_start s₀ =
      let s = record s₀ { error = none } in
      if require_password && ltb (length (trim s.password)) 8
      then stopped "Password must be at least 8 characters." s
      else if require_password && not (text_eq s.password s.confirm)
      then stopped "Passwords do not match." s
      else if require_pan && is_empty (pan_value s)
      then stopped "Please enter your 10-character PAN number." s
      else if require_pan && not (is_pan (pan_value s))
      then stopped "Invalid PAN format. Use 5 letters, 4 digits, 1 letter (e.g. ABCDE1234F)." s
      else submitting (pan_value s) s

-- The `catch` and the `finally`.
abbrev pub submit_failed : SubmitError → Setup → Setup
submit_failed e s = record s {
  error = some (or_else e.detail (or_else e.message (codes "Could not save. Please try again.")));
  loading = false;
}

abbrev pub with_world : World → Setup → Setup
with_world w s = record s { app = record s.app { world = w } }

-- The identity that is set with the PAN: who was signed in when the panel was last shown.
abbrev pub pan_identity : AppState → Option Text → IdentityUpdate
pan_identity shown pan = record {
  user_id = shown.user_id;
  email = some shown.email;
  display_name = none;
  pan = some pan;
  status = none;
  role = none;
}

abbrev pub completed : Bool → Setup → Setup
completed require_password s = record s {
  app = record s.app {
    needs_password_setup = if require_password then false else s.app.needs_password_setup;
  };
  loading = false;
}

module _ (require_password require_pan : Bool) where
  -- From the server's answer to the PAN on; `shown` is the store that the panel was shown with.
  abbrev pub pan_answered : AppState → PanReply → Setup → Setup
  pan_answered shown (failed e) s = submit_failed e s
  pan_answered shown (saved pan) s = completed require_password (
      with_world
        (record s.app.world { state = set_identity (pan_identity shown pan) s.app.world.state }) s)

  abbrev pub after_password :
      AppState → PanReply → SubmitError → Result (Unit {0}) × World → Setup → Setup
  after_password shown reply e (threw, w) s = submit_failed e (with_world w s)
  after_password shown reply e (ok _, w) s =
      if require_pan
      then pan_answered shown reply (with_world w s)
      else completed require_password (with_world w s)

module _ (read_exp : Text → Option ℕ) where
  abbrev pub set_password : PasswordAnswer → Text → Action (Unit {0})
  set_password a password = update_password read_exp true a.accepted a.now a.session password

  abbrev pub asked_password : Bool → PasswordAnswer → Setup → Result (Unit {0}) × World
  asked_password false a s = pure tt s.app.world
  asked_password true a s = set_password a s.password s.app.world

  abbrev pub after_start : Bool → Bool → PasswordAnswer → PanReply → Option Text × Setup → Setup
  after_start require_password require_pan a reply (none, s) = s
  after_start require_password require_pan a reply (some pan, s) =
      after_password require_password require_pan s.app.world.state reply a.failure
        (asked_password require_password a s) s

  -- `handleSubmit` with a provider, in one piece.
  unfoldable pub handle_submit :
      (Text → Text) → Bool → Bool → PasswordAnswer → PanReply → Setup → Setup
  unfolding submit_start
  handle_submit upper require_password require_pan a reply s =
      after_start require_password require_pan a reply
        (submit_start upper require_password require_pan s)
