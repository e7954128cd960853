-- ===== src/Auth/PasswordSetup.antt =====
-- The flag of authClient.ts that an invited user still has to choose a password.
use finance_buddy.Prelude.{
  String, Text, codes, text_eq, or_else, lookup, ◌||◌, Bool, true, if◌then◌else◌, Option, none,
  some,
}
use finance_buddy.Browser.{World, Action, ◌>>=◌, ◌>>◌, pure, gets, get_item, set_item, remove_item}

abbrev pub password_setup_key : String
password_setup_key = "fb_must_set_password"

abbrev pub is_text : Option Text → Text → Bool
is_text none t = Bool.false
is_text (some s) t = text_eq s t

unfoldable pub mark_password_setup_required : Action (Unit {0})
mark_password_setup_required = set_item password_setup_key (codes "1")

unfoldable pub clear_password_setup_required : Action (Unit {0})
clear_password_setup_required = remove_item password_setup_key

unfoldable pub is_password_setup_required : Action Bool
is_password_setup_required = do
  value ← get_item password_setup_key
  pure (is_text value (codes "1"))

-- `fromSearch.get(k) || fromHash.get(k) || ''`
abbrev pub url_param : String → World → Text
url_param key w =
    or_else (lookup key w.location.search) (or_else (lookup key w.location.hash) (codes ""))

abbrev is_setup_type : Text → Bool
is_setup_type type =
    text_eq type (codes "invite")
    || text_eq type (codes "recovery")
    || text_eq type (codes "signup")

-- `lower` is `String.prototype.toLowerCase`.
unfoldable pub consume_password_setup_intent_from_url : (Text → Text) → Action Bool
unfolding mark_password_setup_required is_password_setup_required
consume_password_setup_intent_from_url lower = do
  type ← gets (λ w. lower (url_param "type" w))
  if is_setup_type type
      then (mark_password_setup_required >> pure true)
      else is_password_setup_required
