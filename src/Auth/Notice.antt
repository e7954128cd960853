-- ===== src/Auth/Notice.antt =====
-- authNotice.ts: the notice that is shown on the landing page after a sign-in was refused, and the
-- email of an access request, both in session storage. `Json` stands for `JSON.stringify` and
-- `JSON.parse` on notices; a text that does not parse, or to no known status, decodes to `none`.
pub mod Once
use finance_buddy.Browser.{Action, set_item, pure, get_item, remove_item, ◌>>=◌, ◌>>◌}
use finance_buddy.Prelude.{Option, String, Text, [], if◌then◌else◌, is_empty, none, some, trim, ◌∷◌}

pub data AccessStatus : Type 0 where
  not_requested pending approved : AccessStatus

pub record AuthNotice : Type 0 where
  pub message : Text
  pub access_request_status : AccessStatus
  pub email : Option Text

pub record Json : Type 0 where
  pub encode : AuthNotice → Text
  pub decode : Text → Option AuthNotice

abbrev pub auth_notice_key : String
auth_notice_key = "fb_auth_notice"

abbrev pub access_request_email_key : String
access_request_email_key = "fb_access_request_email"

abbrev pub oauth_error_key : String
oauth_error_key = "fb_oauth_error_msg"

unfoldable pub write_auth_notice : Json → AuthNotice → Action (Unit {0})
write_auth_notice json notice = set_item auth_notice_key (json.encode notice)

-- A falsy value, missing or empty, is left where it is.
abbrev parse_and_remove : Json → Option Text → Action (Option AuthNotice)
parse_and_remove json none = pure none
parse_and_remove json (some []) = pure none
parse_and_remove json (some (c ∷ raw)) = do
  remove_item auth_notice_key
  pure (json.decode (c ∷ raw))

unfoldable pub read_auth_notice : Json → Action (Option AuthNotice)
read_auth_notice json = do raw ← get_item auth_notice_key; parse_and_remove json raw

-- `lower` is `String.prototype.toLowerCase`.
unfoldable pub remember_access_request_email : (Text → Text) → Text → Action (Unit {0})
remember_access_request_email lower email =
    let trimmed = lower (trim email) in
    if is_empty trimmed then pure tt else set_item access_request_email_key trimmed

unfoldable pub read_access_request_email : Action (Option Text)
read_access_request_email = get_item access_request_email_key

unfoldable pub clear_access_request_email : Action (Unit {0})
clear_access_request_email = remove_item access_request_email_key

unfoldable pub clear_auth_notice : Action (Unit {0})
clear_auth_notice = remove_item auth_notice_key

-- Of authClient.ts.
unfoldable pub clear_oauth_error_cache : Action (Unit {0})
clear_oauth_error_cache = remove_item oauth_error_key

unfoldable pub clear_auth_landing_cache : Action (Unit {0})
unfolding clear_oauth_error_cache clear_access_request_email clear_auth_notice
clear_auth_landing_cache = do clear_oauth_error_cache; clear_access_request_email; clear_auth_notice
