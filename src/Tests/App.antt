-- ===== src/Tests/App.antt =====
-- App.tsx, and the lookups of authClient.ts.
use finance_buddy.App.{
  Mounted, AuthUser, known, account_setup, navigate, failed, Me, Failure, shell,
  on_auth_change_start, page, on_auth_change_resume, parse_not_authorized_error,
}
use finance_buddy.App.Identity.{resume-keeps_pan, resume_after_sign_out, resume_failed_signs_out}
use finance_buddy.App.Pages.{page-shell_iff}
use finance_buddy.App.Refusal.{looked_up, Tells, refused_user_is_told}
use finance_buddy.Auth.Access.{
  unique_emails, is_requested, lookup_access_notice_for_emails, lookup_access_notice,
}
use finance_buddy.Auth.Access.Answer.{lookup_access_notice_for_emails_iff}
use finance_buddy.Auth.Access.Distinct.{IsDistinct, AreCovered, unique_emails-IsDistinct}
use finance_buddy.Auth.Notice.{AuthNotice, AccessStatus, pending, read_auth_notice}
use finance_buddy.Auth.SignOut.{resolved, timed_out}
use finance_buddy.Browser.{ok}
use finance_buddy.Prelude.{
  All, List, Option, Text, [], codes, false, if◌then◌else◌, map, none, refl, some, text_eq, trim,
  true, truthy, ◌↔◌, ◌∷◌, ◌≡◌,
}
use finance_buddy.Store.{active, clear_identity, is_authenticated, user, Status}
use finance_buddy.Tests.Codec.{codec, codec_round, codec_ne}
use finance_buddy.Tests.Samples.{browser, signed_in}
use finance_buddy.Tests.Sessions.{plain_json}

abbrev pub same_case : Text → Text
same_case t = t

abbrev waiting_list : Text → Option (Text × AccessStatus)
waiting_list email = if text_eq email (codes "b@x") then some (codes "Wait.", pending) else none

abbrev three_emails : List (Option Text)
three_emails = some (codes " a@x ") ∷ none ∷ some (codes "b@x") ∷ some (codes "a@x") ∷ []

emails_tests :
    (unique_emails same_case [] three_emails ≡ codes "a@x" ∷ codes "b@x" ∷ [])
    × ((lookup_access_notice_for_emails waiting_list same_case three_emails).message
        ≡ codes "Wait.")
unfolding unique_emails lookup_access_notice_for_emails trim
emails_tests = (refl, refl)

unique_emails-IsDistinct_test :
    IsDistinct (map same_case (unique_emails same_case [] three_emails))
    × AreCovered same_case (map same_case (unique_emails same_case [] three_emails)) three_emails
unique_emails-IsDistinct_test = unique_emails-IsDistinct same_case three_emails

lookup_access_notice_for_emails_example :
    (is_requested
        (lookup_access_notice_for_emails waiting_list same_case three_emails).access_request_status
      ≡ false)
    ↔ All
        (λ e.
          is_requested (lookup_access_notice waiting_list (some e)).access_request_status ≡ false)
        (unique_emails same_case [] three_emails)
lookup_access_notice_for_emails_example =
    lookup_access_notice_for_emails_iff waiting_list same_case three_emails

abbrev mounted : Mounted
mounted = record {
  world = browser;
  cancelled = false;
  resolving_session = false;
  needs_password_setup = false;
}

abbrev account : AuthUser
account = record { id = codes "u1"; email = some (codes "a@b.c") }

abbrev stale : Me
stale = record { email = none; pan = none; display_name = none; status = active; role = user }

abbrev denial : Failure
denial = record {
  status = some 403;
  detail = some (codes "not_authorized");
  message = some (codes "No.");
  access_request_status = some pending;
}

abbrev nobody : Mounted
nobody = record mounted { world = record browser { state = clear_identity signed_in } }

page_tests :
    (page mounted (codes "/equity") ≡ shell)
    × (page (record mounted { needs_password_setup = true }) (codes "/") ≡ account_setup true false)
    × (page nobody (codes "/equity") ≡ navigate "/")
unfolding page clear_identity
page_tests = (refl, refl, refl)

page-shell_iff_example : (page mounted (codes "/equity") ≡ shell) ↔ (
    (false ≡ false)
    × (is_authenticated signed_in ≡ true)
    × (◌≡◌ {A = Option Status} (some active) (some active))
    × (truthy (some (codes "ABCDE1234F")) ≡ true)
    × (false ≡ false)
    × (text_eq (codes "/equity") (codes "/") ≡ false))
page-shell_iff_example = page-shell_iff mounted (codes "/equity")

resume-keeps_pan_test :
    let m' =
      on_auth_change_resume plain_json waiting_list same_case true account resolved
        (known stale)
        mounted in
    (m'.world.state.pan ≡ some (codes "ABCDE1234F"))
    × (m'.world.state.user_id ≡ some (codes "u1"))
    × (m'.world.state.status ≡ some active)
    × (m'.world.state.role ≡ some user)
    × (m'.resolving_session ≡ false)
resume-keeps_pan_test =
    resume-keeps_pan plain_json waiting_list same_case true account resolved stale mounted refl refl

resume_after_sign_out_example :
    let m' =
      on_auth_change_resume plain_json waiting_list same_case true account resolved
        (known stale)
        (on_auth_change_start none (on_auth_change_start (some account) mounted)) in
    (is_authenticated m'.world.state ≡ true) × (m'.world.state.user_id ≡ some (codes "u1"))
resume_after_sign_out_example =
    resume_after_sign_out plain_json waiting_list same_case true account resolved stale mounted refl
      (λ e. cc)

resume_failed_signs_out_test :
    let m' =
      on_auth_change_resume plain_json waiting_list same_case true account timed_out
        (failed denial)
        mounted in
    (m'.world.state ≡ clear_identity signed_in)
    × (m'.world.cache ≡ none)
    × (m'.resolving_session ≡ false)
resume_failed_signs_out_test =
    resume_failed_signs_out plain_json waiting_list same_case true account timed_out denial mounted
      refl refl

refused_user_is_told_example :
    (n : AuthNotice) × ((read_auth_notice codec
        (on_auth_change_resume codec waiting_list same_case true account timed_out
          (failed denial)
          mounted).world).0
      ≡ ok (some n))
    × Tells (codes "No.", pending) (looked_up codec waiting_list same_case true account browser) n
unfolding parse_not_authorized_error
refused_user_is_told_example =
    refused_user_is_told codec waiting_list same_case true account timed_out denial
      (codes "No.", pending) mounted codec_round codec_ne refl refl refl
