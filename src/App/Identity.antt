-- ===== src/App/Identity.antt =====
-- What a sign-in event does to the identity in the store.
use finance_buddy.App.{
  AuthUser, on_auth_change_resume, MeReply, on_auth_change_start, Failure, Mounted, Me, known,
  failed, or_other, parse_not_authorized_error, explain,
}
use finance_buddy.Auth.Notice.{Json, AccessStatus, read_access_request_email, write_auth_notice}
use finance_buddy.Auth.SignOut.{Settled, sign_out, resolved, rejected, timed_out}
use finance_buddy.Browser.{World, ok}
use finance_buddy.Prelude.{
  Bool, Option, Text, [], arith, false, none, some, text_eq_iff, text_eq_refl, true, ◌≡◌, ◌≢◌, refl,
  truthy, ◌∙◌, ◌∷◌,
}
use finance_buddy.Store.{set_identity, clear_identity, is_authenticated}

truthy_of_ne : (s : Text) → s ≢ [] → truthy (some s) ≡ true
truthy_of_ne [] ne = absurd (ne refl)
truthy_of_ne (c ∷ s) ne = refl

on_auth_change_start-cancelled :
    (user : Option AuthUser) (m : Mounted) → (on_auth_change_start user m).cancelled ≡ m.cancelled
unfolding on_auth_change_start
on_auth_change_start-cancelled user m = ground arith

sign_out-frame :
    (configured : Bool) (settled : Settled) (w : World)
    → w.storage_blocked ≡ false
    → let (r, w') = sign_out configured settled w in
      (r ≡ ok tt) × (w'.state ≡ w.state) × (w'.cache ≡ none)
unfolding sign_out
sign_out-frame configured resolved w open' = ground arith
sign_out-frame configured rejected w open' = ground arith
sign_out-frame configured timed_out w open' = ground arith

module _ (json : Json) (access_status : Text → Option (Text × AccessStatus)) (lower : Text → Text)
    (configured : Bool) where
  abbrev resume : AuthUser → Settled → MeReply → Mounted → Mounted
  resume = on_auth_change_resume json access_status lower configured

  -- While the component is mounted, an answer of `/auth/me` for the account that is signed in
  -- leaves the store's PAN if the server gives none; a PAN that the server gives is taken, also an
  -- empty one. The account and its status and role are then the server's, and the session is resolved.
  pub resume-keeps_pan :
      (user : AuthUser) (settled : Settled) (me : Me) (m : Mounted)
      → m.cancelled ≡ false
      → m.world.state.user_id ≡ some user.id
      → let m' = resume user settled (known me) m in
        (m'.world.state.pan ≡ or_other me.pan m.world.state.pan)
        × (m'.world.state.user_id ≡ some user.id)
        × (m'.world.state.status ≡ some me.status)
        × (m'.world.state.role ≡ some me.role)
        × (m'.resolving_session ≡ false)
  unfolding on_auth_change_resume set_identity
  resume-keeps_pan user settled me m mounted same = ground (arith, text_eq_refl user.id)

  -- While the component is mounted, and another account is in the store, the PAN after the answer
  -- is the server's, or none: the other account's PAN is not taken over.
  resume-drops_other_pan :
      (user : AuthUser) (settled : Settled) (me : Me) (m : Mounted) (other : Text)
      → m.cancelled ≡ false
      → m.world.state.user_id ≡ some other
      → other ≢ user.id
      → (resume user settled (known me) m).world.state.pan ≡ me.pan
  unfolding on_auth_change_resume set_identity
  resume-drops_other_pan user settled me m other mounted differs ne =
      ground (arith, text_eq_iff other user.id)

  -- The answer of `/auth/me` to a sign-in signs the user in again also if the user has signed out
  -- while it was on its way: it is not checked against the sign-out.
  pub resume_after_sign_out :
      (user : AuthUser) (settled : Settled) (me : Me) (m : Mounted)
      → m.cancelled ≡ false
      → user.id ≢ []
      → let m' =
          resume user settled
            (known me)
            (on_auth_change_start none (on_auth_change_start (some user) m)) in
        (is_authenticated m'.world.state ≡ true) × (m'.world.state.user_id ≡ some user.id)
  unfolding on_auth_change_resume set_identity is_authenticated
  resume_after_sign_out user settled me m mounted ne =
      let m₁ = on_auth_change_start (some user) m in
      let left = on_auth_change_start none m₁ in
      let still : left.cancelled ≡ false =
        on_auth_change_start-cancelled none m₁
        ∙ on_auth_change_start-cancelled (some user) m
        ∙ mounted in
      ground (arith, still, truthy_of_ne user.id ne)

  explain-frame :
      (user : AuthUser) (unauthorized : Option (Text × AccessStatus)) (w : World)
      → w.storage_blocked ≡ false
      → let (r, w') = explain json access_status lower configured user unauthorized w in
        (r ≡ ok tt) × (w'.state ≡ w.state) × (w'.storage_blocked ≡ false)
  unfolding read_access_request_email write_auth_notice
  explain-frame user none w open' = (refl, refl, open')
  explain-frame user (some unauthorized) w open' = ground arith

  -- While the component is mounted and storage is open, any failure of `/auth/me` ends the session,
  -- however the provider's sign-out ends: the identity is cleared, no token is cached, and the
  -- session is resolved.
  pub resume_failed_signs_out :
      (user : AuthUser) (settled : Settled) (f : Failure) (m : Mounted)
      → m.cancelled ≡ false
      → m.world.storage_blocked ≡ false
      → let m' = resume user settled (failed f) m in
        (m'.world.state ≡ clear_identity m.world.state)
        × (m'.world.cache ≡ none)
        × (m'.resolving_session ≡ false)
  unfolding on_auth_change_resume
  resume_failed_signs_out user settled f m mounted open' =
      let first = explain-frame user (parse_not_authorized_error f) (m.world) open' in
      let w₁ =
        (explain json access_status lower configured user (parse_not_authorized_error f)
          m.world).1 in
      ground (arith, first, sign_out-frame configured settled w₁)
