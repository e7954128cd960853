-- ===== src/Logout/Forgets.antt =====
-- Whatever fails on the way, logging out forgets the account.
use finance_buddy.Api.Unauthorized.{on_error, on_error_start, on_error_resume}
use finance_buddy.Auth.Notice.{clear_auth_landing_cache}
use finance_buddy.Auth.PasswordSetup.{clear_password_setup_required}
use finance_buddy.Auth.SignOut.{sign_out, sign_out_start, Settled, resolved, rejected, timed_out}
use finance_buddy.Auth.Token.{
  get_access_token, get_access_token_start, get_access_token_resume, SessionReply,
}
use finance_buddy.Browser.{World, attempt}
use finance_buddy.Logout.{
  end_session, storage_name, post_logout, ServerReply, logout, refused, accepted,
}
use finance_buddy.Prelude.{
  Bool, Option, Text, ap, arith, inl, inr, none, refl, some, ℕ, ◌∙◌, ◌≡◌, ◌⊎◌, Bool-cases, [],
  erase, false, if◌then◌else◌, lookup, lookup-erase, truthy, ◌||◌,
}
use finance_buddy.Store.{reset_on_logout, clear_identity, AppState}

reset-clear_identity :
    (now : ℕ) (s : AppState) → reset_on_logout now (clear_identity s) ≡ reset_on_logout now s
unfolding reset_on_logout clear_identity
reset-clear_identity now s = refl

-- The handler of a failed response leaves the state, or clears the identity.
on_error-state :
    (configured : Bool) (status : Option ℕ) (w : World)
    → ((on_error configured status w).state ≡ w.state)
      ⊎ ((on_error configured status w).state ≡ clear_identity w.state)
unfolding on_error on_error_start on_error_resume sign_out_start clear_password_setup_required
on_error-state configured none w = inl refl
on_error-state configured (some status) w = ground arith

reset-on_error :
    (configured : Bool) (status : Option ℕ) (now : ℕ) (w : World)
    → reset_on_logout now (on_error configured status w).state ≡ reset_on_logout now w.state
reset-on_error configured status now w = elim (on_error-state configured status w) [
  | inl kept ↦ ap (reset_on_logout now) kept
  | inr cleared ↦ ap (reset_on_logout now) cleared ∙ reset-clear_identity now w.state
]

end_session-frame :
    (configured : Bool) (settled : Settled) (w : World)
    → let w' = attempt (end_session configured settled) w in
      (w'.state ≡ w.state) × (w'.cache ≡ none)
unfolding end_session sign_out clear_auth_landing_cache
end_session-frame configured resolved w = ground arith
end_session-frame configured rejected w = ground arith
end_session-frame configured timed_out w = ground arith

end_session-storage :
    (configured : Bool) (settled : Settled) (w : World)
    → w.storage_blocked ≡ false
    → let w' = attempt (end_session configured settled) w in
      (lookup storage_name w'.local_storage ≡ none) × (w'.session_storage ≡ [])
unfolding end_session sign_out clear_auth_landing_cache erase
end_session-storage configured resolved w open' =
    ground (arith, lookup-erase storage_name storage_name w.local_storage)
end_session-storage configured rejected w open' =
    ground (arith, lookup-erase storage_name storage_name w.local_storage)
end_session-storage configured timed_out w open' =
    ground (arith, lookup-erase storage_name storage_name w.local_storage)

on_error-storage_blocked :
    (configured : Bool) (status : Option ℕ) (w : World)
    → (on_error configured status w).storage_blocked ≡ w.storage_blocked
unfolding on_error on_error_start on_error_resume sign_out_start clear_password_setup_required
on_error-storage_blocked configured none w = refl
on_error-storage_blocked configured (some status) w = ground arith

module _ (read_exp : Text → Option ℕ) (configured : Bool) where
  get_access_token-frame :
      (now : ℕ) (reply : SessionReply) (w : World)
      → let w' = (get_access_token read_exp configured now reply w).1 in
        (w'.state ≡ w.state) × (w'.storage_blocked ≡ w.storage_blocked)
  unfolding get_access_token get_access_token_start get_access_token_resume
  get_access_token-frame now reply w = ground arith

  post_logout-frame :
      (now : ℕ) (reply : SessionReply) (server : ServerReply) (w : World)
      → let w' = post_logout read_exp configured now reply server w in
        (reset_on_logout now w'.state ≡ reset_on_logout now w.state)
        × (w'.storage_blocked ≡ w.storage_blocked)
  unfolding post_logout
  post_logout-frame now reply accepted w =
      let (same, blocked) = get_access_token-frame now reply w in
      (ap (reset_on_logout now) same, blocked)
  post_logout-frame now reply (refused status) w =
      let (same, blocked) = get_access_token-frame now reply w in
      let w' = (get_access_token read_exp configured now reply w).1 in
      (
        reset-on_error configured status now w' ∙ ap (reset_on_logout now) same,
        on_error-storage_blocked configured status w' ∙ blocked,
      )

  -- The world in which the session is ended: after the request, or at once if nobody is signed in.
  abbrev requested : ℕ → SessionReply → ServerReply → World → World
  requested now reply server w =
      if truthy w.state.user_id || truthy w.state.pan
      then post_logout read_exp configured now reply server w
      else w

  requested-frame :
      (now : ℕ) (reply : SessionReply) (server : ServerReply) (w : World)
      → (reset_on_logout now (requested now reply server w).state ≡ reset_on_logout now w.state)
        × ((requested now reply server w).storage_blocked ≡ w.storage_blocked)
  requested-frame now reply server w =
      elim (Bool-cases (truthy w.state.user_id || truthy w.state.pan)) [
        | inl asked ↦ rw asked (post_logout-frame now reply server w)
        | inr nobody ↦ rw nobody (refl, refl)
      ]

  -- Whether or not somebody is signed in, and whether the server accepts the request, refuses it
  -- with any status or cannot be reached, the provider answers or not, and storage is open or
  -- blocked: after logging out the store is the reset of the store before, and no token is cached.
  pub logout_forgets :
      (now : ℕ) (reply : SessionReply) (server : ServerReply) (settled : Settled) (w : World)
      → let w' = logout read_exp configured now reply server settled w in
        (w'.state ≡ reset_on_logout now w.state) × (w'.cache ≡ none)
  unfolding logout
  logout_forgets now reply server settled w =
      let (kept, gone) = end_session-frame configured settled (requested now reply server w) in
      (ap (reset_on_logout now) kept ∙ (requested-frame now reply server w).0, gone)

  -- Where storage is open, logging out removes the store's item from local storage and empties
  -- session storage, whatever the server and the provider answer.
  pub logout_clears_storage :
      (now : ℕ) (reply : SessionReply) (server : ServerReply) (settled : Settled) (w : World)
      → w.storage_blocked ≡ false
      → let w' = logout read_exp configured now reply server settled w in
        (lookup storage_name w'.local_storage ≡ none) × (w'.session_storage ≡ [])
  unfolding logout
  logout_clears_storage now reply server settled w open' =
      end_session-storage configured settled (requested now reply server w)
        ((requested-frame now reply server w).1 ∙ open')
