-- ===== src/Tests/Setup.antt =====
-- A user who was invited chooses a password and gives a PAN.
use finance_buddy.App.{Mounted, page, shell}
use finance_buddy.App.Setup.{
  Setup, PasswordAnswer, is_pan, handle_submit, saved, submit_start, PanReply,
}
use finance_buddy.App.Setup.Done.{IsTyped, setup_opens, error_keeps_setup}
use finance_buddy.Auth.PasswordSetup.{clear_password_setup_required}
use finance_buddy.Auth.Token.{no_session, update_password}
use finance_buddy.Prelude.{arith, codes, false, none, refl, some, trim, true, ◌≡◌}
use finance_buddy.Tests.App.{same_case}
use finance_buddy.Tests.Samples.{browser, signed_in, exp_1000}

abbrev invited : Mounted
invited = record {
  world = record browser { state = record signed_in { pan = none } };
  cancelled = false;
  resolving_session = false;
  needs_password_setup = true;
}

abbrev typed : Setup
typed = record {
  app = invited;
  password = codes "longenough";
  confirm = codes "longenough";
  pan = codes " ABCDE1234F";
  loading = false;
  error = none;
}

abbrev taken : PasswordAnswer
taken = record {
  accepted = true;
  now = 5;
  session = no_session;
  failure = record { detail = none; message = none };
}

is_pan_tests :
    (is_pan (codes "ABCDE1234F") ≡ true)
    × (is_pan (codes "ABCDE1234FF") ≡ false)
    × (is_pan (codes "ABCD11234F") ≡ false)
unfolding is_pan
is_pan_tests = (refl, refl, refl)

typed-IsTyped : IsTyped same_case true true typed
unfolding is_pan trim
typed-IsTyped = (λ _. (omega arith, refl), λ _. refl)

setup_opens_example :
    let s' =
      handle_submit exp_1000 same_case true true taken (saved (some (codes "ABCDE1234F"))) typed in
    (page s'.app (codes "/equity") ≡ shell) × (s'.error ≡ none) × (s'.loading ≡ false)
unfolding page
setup_opens_example =
    setup_opens exp_1000 same_case true true taken 65 (codes "BCDE1234F") (codes "/equity") typed
      refl refl typed-IsTyped (refl, λ e. cc, refl)

error_keeps_setup_example :
    let s' =
      handle_submit exp_1000 same_case true true taken (PanReply.failed taken.failure) typed in
    (s'.app.world.state ≡ typed.app.world.state) × (s'.app.needs_password_setup ≡ true)
unfolding handle_submit update_password clear_password_setup_required submit_start is_pan trim
error_keeps_setup_example =
    error_keeps_setup exp_1000 same_case true true taken (PanReply.failed taken.failure) typed refl
