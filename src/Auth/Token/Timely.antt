-- ===== src/Auth/Token/Timely.antt =====
-- A cached token is handed out only while it is well before its expiry.
use finance_buddy.Auth.PasswordSetup.{clear_password_setup_required}
use finance_buddy.Auth.SignOut.{sign_out_start}
use finance_buddy.Auth.Token.{
  answered, SessionReply, session, token_exp, fresh_until_exp, token_fresh_until, cache_of,
  get_access_token_start, get_access_token_resume, update_password,
}
use finance_buddy.Browser.{CachedToken, World}
use finance_buddy.Prelude.{
  ℕ, ◌+◌, ◌*◌, ◌≤◌, ◌<◌, suc, Text, ◌≡◌, refl, Bool, true, Option, none, some, arith, inl, inr,
  Option-cases, [], ◌∷◌, ap, ◌∙◌, ◌⊎◌,
}

pub sign_out_start-cache :
    (configured : Bool) (w : World) → (sign_out_start configured w).1.cache ≡ none
unfolding sign_out_start clear_password_setup_required
sign_out_start-cache configured w = ground arith

module _ (read_exp : Text → Option ℕ) where
  -- The cache holds nothing, or a token with the freshness that was computed for it at some time
  -- that is not in the future.
  abbrev pub IsTimelyCache : ℕ → Option CachedToken → Type 0
  IsTimelyCache now none = Unit
  IsTimelyCache now (some c) =
      (t : ℕ) × (t ≤ now) × (c.fresh_until ≡ token_fresh_until read_exp c.token t)

  abbrev pub IsTimely : ℕ → World → Type 0
  IsTimely now w = IsTimelyCache now w.cache

  cache_of-IsTimely :
      (token : Option Text) (t now : ℕ) → t ≤ now → IsTimelyCache now (cache_of read_exp token t)
  unfolding cache_of
  cache_of-IsTimely none t now h = tt
  cache_of-IsTimely (some []) t now h = tt
  cache_of-IsTimely (some (c ∷ s)) t now h = (t, h, refl)

  pub resume-IsTimely :
      (t now : ℕ) (reply : SessionReply) (w : World)
      → t ≤ now
      → IsTimely now (get_access_token_resume read_exp t reply w).1
  unfolding get_access_token_resume
  resume-IsTimely t now (session token) w h = cache_of-IsTimely token t now h
  resume-IsTimely t now _ w h = tt

  later-IsTimelyCache :
      (t now : ℕ) (c : Option CachedToken) → t ≤ now → IsTimelyCache t c → IsTimelyCache now c
  later-IsTimelyCache t now none h v = tt
  later-IsTimelyCache t now (some c) h (u, before, same) = (u, omega arith, same)

  pub later-IsTimely : (t now : ℕ) (w : World) → t ≤ now → IsTimely t w → IsTimely now w
  later-IsTimely t now w h v = later-IsTimelyCache t now w.cache h v

  -- What a change of password leaves in the cache.
  abbrev reloaded : ℕ → SessionReply → Option CachedToken
  reloaded now (session token) = cache_of read_exp token now
  reloaded now _ = none

  update_password-cache :
      (configured accepted : Bool) (now : ℕ) (reply : SessionReply) (password : Text) (w : World)
      → let w' = (update_password read_exp configured accepted now reply password w).1 in
        (w'.cache ≡ w.cache) ⊎ (w'.cache ≡ reloaded now reply)
  unfolding update_password clear_password_setup_required
  update_password-cache configured accepted now (session token) password w = ground arith
  update_password-cache configured accepted now _ password w = ground arith

  reloaded-IsTimely : (now : ℕ) (reply : SessionReply) → IsTimelyCache now (reloaded now reply)
  reloaded-IsTimely now (session token) = cache_of-IsTimely token now now (omega arith)
  reloaded-IsTimely now _ = tt

  pub update_password-IsTimely :
      (configured accepted : Bool) (now : ℕ) (reply : SessionReply) (password : Text) (w : World)
      → IsTimely now w
      → IsTimely now (update_password read_exp configured accepted now reply password w).1
  update_password-IsTimely configured accepted now reply password w v =
      elim (update_password-cache configured accepted now reply password w) [
        | inl kept ↦ rw kept v
        | inr fresh ↦ rw fresh (reloaded-IsTimely now reply)
      ]

  answered-before_exp_cached :
      (now exp : ℕ) (c : CachedToken)
      → IsTimelyCache now (some c)
      → now < c.fresh_until
      → token_exp read_exp c.token ≡ some (suc exp)
      → now + 60000 < suc exp * 1000
  unfolding token_fresh_until
  answered-before_exp_cached now exp c (t, before, same) fresh stated =
      let until : c.fresh_until ≡ fresh_until_exp (some (suc exp)) t =
        same ∙ ap (λ x. fresh_until_exp x t) stated in
      ground arith

  -- If the cache is timely, a token that is handed out without asking the provider, and that states
  -- an expiry, still has more than a minute to go.
  pub answered-before_exp :
      (now exp : ℕ) (w : World) (token : Text)
      → IsTimely now w
      → get_access_token_start read_exp true now w ≡ answered (some token)
      → token_exp read_exp token ≡ some (suc exp)
      → now + 60000 < suc exp * 1000
  unfolding get_access_token_start
  answered-before_exp now exp w token v e stated = elim (Option-cases w.cache) [
    | inl empty ↦ ground arith
    | inr (c, held) ↦
        let valid : IsTimelyCache now (some c) = rw held at v in
        let fresh : now < c.fresh_until = ground arith in
        let same : c.token ≡ token = ground arith in
        answered-before_exp_cached now exp c valid fresh (rw same stated)
  ]
