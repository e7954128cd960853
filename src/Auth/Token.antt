-- ===== src/Auth/Token.antt =====
-- The soft cache of the access token in authClient.ts: how long a token counts as fresh, and the
-- reads and writes of `_accessTokenCache`. A read that has to ask the provider is two steps, since
-- other code runs while it waits. `read_exp` stands for reading the `exp` claim of a decoded
-- payload (`JSON.parse(atob(payload))?.exp`): `none` if that throws, 0 if there is no number.
pub mod Timely
pub mod Steps
use finance_buddy.Auth.PasswordSetup.{clear_password_setup_required}
use finance_buddy.Browser.{CachedToken, World, Action, pure, throw, modify, ◌>>=◌, ◌>>◌}
use finance_buddy.Prelude.{
  ℕ, ◌+◌, ◌-◌, ◌*◌, max, Text, is_empty, nat_eq, ltb, truthy, trim, length, map, if◌then◌else◌,
  Bool, true, false, ◌&&◌, Option, none, some, [], ◌∷◌,
}

-- `token.split('.')[1]`
abbrev until_dot : Text → Text
until_dot [] = []
until_dot (c ∷ s) = let rest = until_dot s in if nat_eq c b'.' then [] else c ∷ rest

unfoldable pub second_part : Text → Option Text
second_part [] = none
second_part (c ∷ s) = let rest = second_part s in if nat_eq c b'.' then some (until_dot s) else rest

-- `payload.replace(/-/g, '+').replace(/_/g, '/')`
abbrev to_base64 : ℕ → ℕ
to_base64 c = if nat_eq c b'-' then b'+' else if nat_eq c b'_' then b'/' else c

-- How the provider answers `getSession()`: with a session and its access token, with none, with
-- an error, or not at all (it throws, or six seconds pass).
pub data SessionReply : Type 0 where
  session : Option Text → SessionReply
  no_session error unanswered : SessionReply

-- A read is answered from the cache, or waits for the provider since the time given.
pub data Read : Type 0 where
  answered : Option Text → Read
  waiting : ℕ → Read

abbrev fresh_until_exp : Option ℕ → ℕ → ℕ
fresh_until_exp none now = now + 30000
fresh_until_exp (some exp) now = if nat_eq exp 0 then now + 30000 else max now (exp * 1000 - 60000)

module _ (read_exp : Text → Option ℕ) where
  abbrev claim : Option Text → Option ℕ
  claim none = none
  claim (some payload) = if is_empty payload then none else read_exp (map to_base64 payload)

  -- The expiry that a token states, in seconds: `none` if it cannot be read, 0 if it states none.
  unfoldable pub token_exp : Text → Option ℕ
  unfolding second_part
  token_exp token = claim (second_part token)

  -- `_tokenFreshUntilMs`
  unfoldable pub token_fresh_until : Text → ℕ → ℕ
  unfolding token_exp
  token_fresh_until token now = fresh_until_exp (token_exp token) now

  unfoldable pub cache_of : Option Text → ℕ → Option CachedToken
  cache_of none now = none
  cache_of (some token) now =
      if is_empty token
      then none
      else some (record { token = token; fresh_until = token_fresh_until token now })

  -- `getAccessToken` up to the call of the provider.
  unfoldable pub get_access_token_start : Bool → ℕ → World → Read
  get_access_token_start false now w = answered none
  get_access_token_start true now w = elim w.cache [
    | none ↦ waiting now
    | some c ↦ if ltb now c.fresh_until then answered (some c.token) else waiting now
  ]

  -- The rest of it: the provider has answered a read that began at `started`.
  unfoldable pub get_access_token_resume : ℕ → SessionReply → World → Option Text × World
  unfolding cache_of
  get_access_token_resume started (session token) w =
      (token, record w { cache = cache_of token started })
  get_access_token_resume started _ w = (none, record w { cache = none })

  -- Both parts with nothing in between.
  unfoldable pub get_access_token : Bool → ℕ → SessionReply → World → Option Text × World
  unfolding get_access_token_start get_access_token_resume
  get_access_token configured now reply w = elim (get_access_token_start configured now w) [
    | answered token ↦ (token, w)
    | waiting started ↦ get_access_token_resume started reply w
  ]

  -- `checkSessionHealth`
  unfoldable pub check_session_health : Bool → ℕ → SessionReply → World → Bool × World
  unfolding get_access_token
  check_session_health configured now reply w =
      if configured
      then (let (token, w') = get_access_token configured now reply w in (truthy token, w'))
      else (true, w)

  abbrev reload : ℕ → SessionReply → Action (Unit {0})
  reload now (session token) = modify λ w. record w { cache = cache_of token now }
  reload now no_session = pure tt
  reload now error = pure tt
  reload now unanswered = throw

  -- `updatePassword`: `accepted` is the provider's answer to `updateUser`, `now` the time at which
  -- `getSession()` has answered.
  unfoldable pub update_password : Bool → Bool → ℕ → SessionReply → Text → Action (Unit {0})
  unfolding clear_password_setup_required cache_of
  update_password configured accepted now reply password =
      if configured && ltb 7 (length (trim password)) && accepted
      then (do
        clear_password_setup_required
        modify (λ w. record w { cache = none })
        reload now reply)
      else throw
