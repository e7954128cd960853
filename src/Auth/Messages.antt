-- ===== src/Auth/Messages.antt =====
-- The texts that authClient.ts shows at sign-in: normalizeAuthMessage, the banners and
-- toAccessRequestMessage. `lower` is `toLowerCase`.
pub mod Normal
use finance_buddy.Auth.Access.{request_access_message}
use finance_buddy.Auth.PasswordSetup.{is_text}
use finance_buddy.Prelude.{
  List, Option, String, Text, [], any, codes, drop, if◌then◌else◌, includes, is_empty, length, ltb,
  map, nat_eq, none, or_else, some, starts_with, take, text_eq, trim, ◌%◌, ◌&&◌, ◌++◌, ◌/◌, ◌∷◌,
}

-- `s.replace(p, r)` for texts: the first occurrence.
unfoldable pub replace_first : Text → Text → Text → Text
replace_first [] p r = if is_empty p then r else []
replace_first (c ∷ s) p r =
    let rest = replace_first s p r in
    if starts_with (c ∷ s) p then r ++ drop (length p) (c ∷ s) else c ∷ rest

-- A message that is exactly its half twice is halved.
unfoldable pub halved : Text → Text
halved msg =
    let half = length msg / 2 in
    if ltb 40 (length msg) && nat_eq (length msg % 2) 0 && text_eq (take half msg) (drop half msg)
    then take half msg
    else msg

unfoldable pub collapsed : Text → Text
unfolding replace_first
collapsed msg =
    let doubled = request_access_message ++ request_access_message in
    if includes msg doubled then replace_first msg doubled request_access_message else msg

unfoldable pub normalize_auth_message : Option Text → Option Text
unfolding trim halved collapsed
normalize_auth_message none = none
normalize_auth_message (some raw) =
    let msg = trim raw in if is_empty msg then none else some (collapsed (halved msg))

pub data Severity : Type 0 where
  info error : Severity

pub record AuthBanner : Type 0 where
  pub title : String
  pub detail : Text
  pub access_request_status : Option String
  pub severity : Severity

unfoldable pub banner_for_access_status : Option Text → AuthBanner
banner_for_access_status status =
    if is_text status (codes "pending")
    then record {
      title = "Request pending";
      detail =
          codes
            "Your access request is waiting for admin approval. You will get an invite once it is approved.";
      access_request_status = some "pending";
      severity = info;
    }
    else if is_text status (codes "approved")
    then record {
      title = "Password not set yet";
      detail =
          codes
            "Your access is approved. Open the invite email we sent, create your password there, then sign in here with that password.";
      access_request_status = some "approved";
      severity = info;
    }
    else record {
      title = "Access required";
      detail = request_access_message;
      access_request_status = some "none";
      severity = info;
    }

unfoldable pub banner_for_error : Text → AuthBanner
unfolding normalize_auth_message
banner_for_error message = record {
  title = "Sign-in failed";
  detail = or_else (normalize_auth_message (some message)) (codes "Please try again.");
  access_request_status = none;
  severity = error;
}

-- `s.replace(/\+/g, ' ')`
abbrev spaces_for_plus : Text → Text
spaces_for_plus s = map (λ c. if nat_eq c 43 then 32 else c) s

abbrev issuer_hints : List String
issuer_hints =
    "issuer" ∷ "no_verifier" ∷ "no identity provider" ∷ "provider not configured" ∷ "invalid_issuer"
    ∷ []

abbrev hints : List String
hints =
    "signup" ∷ "sign up" ∷ "signups not allowed" ∷ "not allowed" ∷ "access_denied" ∷ "access denied"
    ∷ "user not found" ∷ "invalid login" ∷ "invalid credentials" ∷ "email not confirmed"
    ∷ "not authorized" ∷ "not_authorized" ∷ "disabled" ∷ []

unfoldable pub to_access_request_message : (Text → Text) → Option Text → Option Text
to_access_request_message lower none = none
to_access_request_message lower (some []) = none
to_access_request_message lower (some (c ∷ raw)) =
    let t = lower (spaces_for_plus (c ∷ raw)) in
    if any (λ h. includes t (codes h)) issuer_hints
    then some request_access_message
    else if any (λ h. includes t (codes h)) hints
    then some request_access_message
    else none
