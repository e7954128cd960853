-- ===== src/Auth/SignOut.antt =====
-- `authClient.signOut`. The provider's own sign-out is raced against two seconds, and an error of
-- it is only logged; `settled` says how the race ended.
use finance_buddy.Auth.PasswordSetup.{clear_password_setup_required}
use finance_buddy.Browser.{Action, ◌>>◌, pure, modify}
use finance_buddy.Prelude.{Bool, if◌then◌else◌, none}

pub data Settled : Type 0 where
  resolved rejected timed_out : Settled

-- What runs before the first `await`: the token cache is dropped, and the setup flag if a provider
-- is configured.
unfoldable pub sign_out_start : Bool → Action (Unit {0})
unfolding clear_password_setup_required
sign_out_start configured = do
  modify (λ w. record w { cache = none })
  if configured then clear_password_setup_required else pure tt

abbrev provider_sign_out : Settled → Action (Unit {0})
provider_sign_out resolved = pure tt
provider_sign_out timed_out = pure tt
provider_sign_out rejected = pure tt

unfoldable pub sign_out : Bool → Settled → Action (Unit {0})
unfolding sign_out_start
sign_out configured settled = do
  sign_out_start configured
  if configured then provider_sign_out settled else pure tt
