-- ===== src/Tests/Store.antt =====
-- appStore.ts
use finance_buddy.Prelude.{codes, none, refl, some, ◌≡◌}
use finance_buddy.Store.{
  session_id, clear_identity, AppState, set_session, partialize, mutual_funds, tax_expert,
  clear_session, reset_on_logout, set_session_by_id,
}
use finance_buddy.Store.Identity.{reset_on_logout_forgets}
use finance_buddy.Store.Sessions.{session_in, session_in-set_session, session_in-clear_session}
use finance_buddy.Tests.Samples.{signed_in}

set_session_test :
    (session_id (set_session 9 (codes "t2") "tax_expert" none signed_in) ≡ some (codes "t2"))
    × (session_id (clear_session 9 (some "indian_stocks") signed_in) ≡ some (codes "t1"))
    × (session_id (clear_session 9 none signed_in) ≡ none)
unfolding session_id set_session clear_session
set_session_test = (refl, refl, refl)

abbrev other_account : AppState
other_account = record (clear_identity signed_in) { user_id = some (codes "u2") }

reset_on_logout_forgets_test :
    (partialize (reset_on_logout 9 signed_in) ≡ partialize (reset_on_logout 9 other_account))
    × (reset_on_logout 9 signed_in ≡ reset_on_logout 9 other_account)
unfolding clear_identity
reset_on_logout_forgets_test = reset_on_logout_forgets 9 signed_in other_account refl refl

session_in-set_session_test :
    (session_in mutual_funds (set_session 9 (codes "m2") "mutual_funds" none signed_in)
      ≡ some (codes "m2"))
    × (session_in mutual_funds (set_session_by_id 9 (codes "m2") "mutual_funds" signed_in)
        ≡ some (codes "m2"))
session_in-set_session_test =
    session_in-set_session 9 mutual_funds signed_in (codes "m2") "mutual_funds" none

session_in-clear_session_test :
    session_in tax_expert (clear_session 9 (some "tax_expert") signed_in) ≡ none
session_in-clear_session_test = session_in-clear_session 9 tax_expert signed_in (some "tax_expert")
