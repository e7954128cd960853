-- ===== src/Tests/Sessions.antt =====
-- Tokens, sign-out and failed responses.
use finance_buddy.Auth.Token
use finance_buddy.Api.Unauthorized.Exclusion
use finance_buddy.Api.Unauthorized.{on_error_start, on_error, finished, cleaning}
use finance_buddy.Api.Unauthorized.Effect.{on_error_signs_out}
use finance_buddy.Api.Unauthorized.Exclusion.{cleaners, held, on_error-exclusive}
use finance_buddy.Auth.Notice.{
  Json, AuthNotice, write_auth_notice, pending, read_auth_notice, auth_notice_key,
}
use finance_buddy.Auth.Notice.Once.{read-write_auth_notice}
use finance_buddy.Auth.PasswordSetup.{password_setup_key}
use finance_buddy.Auth.SignOut.{sign_out_start, timed_out, rejected}
use finance_buddy.Auth.Token.{
  token_fresh_until, get_access_token_start, get_access_token, get_access_token_resume, token_exp,
  session, no_session, answered,
}
use finance_buddy.Auth.Token.Steps.{served-before_exp, served_after_sign_out}
use finance_buddy.Browser.{World, ok}
use finance_buddy.Logout.{logout, refused, accepted, storage_name}
use finance_buddy.Logout.Forgets.{logout_clears_storage, logout_forgets}
use finance_buddy.Prelude.{
  [], arith, codes, eq_iff, erase, false, lookup, none, refl, some, true, ◌*◌, ◌+◌, ◌<◌, ◌∷◌, ◌≡◌,
  ◌≤◌,
}
use finance_buddy.Store.{is_authenticated, tax_expert, reset_on_logout}
use finance_buddy.Store.Sessions.{session_in}
use finance_buddy.Tests.Samples.{browser, token, exp_1000, signed_in}

abbrev cached : World
cached = record browser { cache = some (record { token = token; fresh_until = 940000 }) }

token_tests :
    (token_fresh_until exp_1000 token 7 ≡ 940000)
    × (get_access_token exp_1000 true 7 (session (some token)) browser ≡ (some token, cached))
    × (get_access_token exp_1000 true 939999 no_session cached ≡ (some token, cached))
    × (get_access_token exp_1000 true 940000 no_session cached ≡ (none, browser))
unfolding token_fresh_until get_access_token
token_tests = (refl, refl, refl, refl)

abbrev at_start : Token.Steps.Machine
at_start = record { clock = 7; world = browser; reads = [] }

abbrev after_read : Token.Steps.Machine
after_read = record { clock = 7; world = cached; reads = [] }

read_once : Token.Steps.Reach exp_1000 at_start after_read
unfolding get_access_token_start get_access_token_resume token_fresh_until
read_once =
    Token.Steps.Reach.next
      (Token.Steps.Reach.next Token.Steps.Reach.here (Token.Steps.Step.ask refl))
      (Token.Steps.Step.answer [] [] 7 (session (some token)) refl)

served-before_exp_example : 7 + 60000 < 1000 * 1000
unfolding get_access_token_start token_exp
served-before_exp_example =
    served-before_exp exp_1000 at_start after_read 999 token refl refl read_once refl refl

served_after_sign_out_example :
    get_access_token_start exp_1000 true 8
      (get_access_token_resume exp_1000 7 (session (some token)) (sign_out_start true browser).1).1
    ≡ answered (some token)
unfolding token_fresh_until
served_after_sign_out_example =
    served_after_sign_out exp_1000 7 8 token browser (λ e. cc) (omega arith)

abbrev idle : Exclusion.Machine
idle = record { world = browser; handlers = [] }

abbrev two_failed : Exclusion.Machine
two_failed = record {
  world = record browser { handling_401 = true; session_storage = ("other", codes "x") ∷ [] };
  handlers = finished ∷ cleaning (ok tt) ∷ [];
}

fail_twice : Exclusion.Reach true idle two_failed
unfolding on_error_start erase
fail_twice =
    Exclusion.Reach.next
      (Exclusion.Reach.next Exclusion.Reach.here (Exclusion.Step.fail (some 401)))
      (Exclusion.Step.fail (some 401))

on_error-exclusive_example :
    (cleaners two_failed.handlers ≤ 1)
    × (cleaners two_failed.handlers ≡ held two_failed.world.handling_401)
on_error-exclusive_example = on_error-exclusive true idle two_failed refl refl fail_twice

on_error_signs_out_example :
    let w' = on_error true (some 401) browser in
    (is_authenticated w'.state ≡ false)
    × (session_in tax_expert w'.state ≡ none)
    × (w'.cache ≡ none)
    × (w'.handling_401 ≡ false)
    × (lookup password_setup_key w'.session_storage ≡ none)
unfolding is_authenticated
on_error_signs_out_example = on_error_signs_out true tax_expert browser refl refl refl

logout_forgets_example :
    let w' = logout exp_1000 true 9 no_session (refused (some 401)) timed_out browser in
    (w'.state ≡ reset_on_logout 9 signed_in) × (w'.cache ≡ none)
logout_forgets_example =
    logout_forgets exp_1000 true 9 no_session (refused (some 401)) timed_out browser

logout_clears_storage_test :
    let w' = logout exp_1000 true 9 no_session accepted rejected browser in
    (lookup storage_name w'.local_storage ≡ none) × (w'.session_storage ≡ [])
logout_clears_storage_test =
    logout_clears_storage exp_1000 true 9 no_session accepted rejected browser refl

abbrev pub plain_json : Json
plain_json = record {
  encode = λ n. codes "n";
  decode = λ raw.
      some (record { message = codes "wait"; access_request_status = pending; email = none });
}

abbrev notice : AuthNotice
notice = record { message = codes "wait"; access_request_status = pending; email = none }

read-write_auth_notice_example :
    let w₁ = (write_auth_notice plain_json notice browser).1 in
    let w₂ = (read_auth_notice plain_json w₁).1 in
    ((read_auth_notice plain_json w₁).0 ≡ ok (some notice))
    × ((read_auth_notice plain_json w₂).0 ≡ ok none)
    × (lookup "other" w₂.session_storage ≡ lookup "other" browser.session_storage)
read-write_auth_notice_example =
    read-write_auth_notice plain_json notice "other" browser refl (λ e. cc) refl
      (ground (arith, eq_iff "other" auth_notice_key))
