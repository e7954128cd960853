-- ===== src/App/Refusal.antt =====
-- What a user is told whom the server refuses.
-- The notice for a refused user says that access was requested exactly when the lookup or the
-- refusal itself says so, and it gives the text of the refusal, unless that is empty.
use finance_buddy.App.{
  refusal_notice, AuthUser, on_auth_change_resume, Mounted, Failure, parse_not_authorized_error,
  failed, explain,
}
use finance_buddy.Auth.Access.{AccessNotice, is_requested, lookup_access_notice_for_emails}
use finance_buddy.Auth.Notice.{
  Json, AccessStatus, AuthNotice, access_request_email_key, auth_notice_key, read_auth_notice,
  read_access_request_email, write_auth_notice,
}
use finance_buddy.Auth.Notice.Once.{read_found}
use finance_buddy.Auth.PasswordSetup.{password_setup_key}
use finance_buddy.Auth.SignOut.{Settled, sign_out, resolved, rejected, timed_out}
use finance_buddy.Browser.{World, ok}
use finance_buddy.Prelude.{
  Bool, Dict, Option, Text, [], arith, eq_iff, eq_refl, erase, false, if◌then◌else◌, insert, lookup,
  is_empty, not, ◌&&◌, lookup-erase, lookup-insert, refl, some, ◌||◌, ◌∷◌, ◌≡◌, ◌≢◌,
}

-- What the notice says of a refusal's text and status, over the notice `looked` of the lookup.
abbrev pub Tells : Text × AccessStatus → AccessNotice → AuthNotice → Type 0
Tells (message, status) looked n =
    (is_requested n.access_request_status
      ≡ (is_requested looked.access_request_status || is_requested status))
    × (n.message ≡ (
        if is_empty message
          && (is_requested looked.access_request_status || not (is_requested status))
        then looked.message
        else message))

refusal_notice-Tells :
    (user : AuthUser) (refusal : Text × AccessStatus) (looked : AccessNotice)
    → Tells refusal looked (refusal_notice user refusal looked)
unfolding refusal_notice
refusal_notice-Tells user ([], status) looked = (ground arith, ground arith)
refusal_notice-Tells user (c ∷ s, status) looked = (ground arith, ground arith)

sign_out-storage :
    (configured : Bool) (settled : Settled) (w : World)
    → w.storage_blocked ≡ false
    → let (r, w') = sign_out configured settled w in
      (r ≡ ok tt)
      × (w'.session_storage
          ≡ (if configured then erase password_setup_key w.session_storage else w.session_storage))
      × (w'.storage_blocked ≡ false)
unfolding sign_out
sign_out-storage configured resolved w open' = ground arith
sign_out-storage configured rejected w open' = ground arith
sign_out-storage configured timed_out w open' = ground arith

module _ (json : Json) (access_status : Text → Option (Text × AccessStatus)) (lower : Text → Text)
    (configured : Bool) where
  -- What the lookup says of the email that signed in and the email of the access request.
  abbrev pub looked_up : AuthUser → World → AccessNotice
  looked_up user w =
      lookup_access_notice_for_emails access_status lower
        (user.email ∷ lookup access_request_email_key w.session_storage ∷ [])

  -- The notice that is stored.
  abbrev told : AuthUser → Text × AccessStatus → World → AuthNotice
  told user unauthorized w = refusal_notice user unauthorized (looked_up user w)

  explain_lem :
      (user : AuthUser) (unauthorized : Text × AccessStatus) (w : World)
      → w.storage_blocked ≡ false
      → explain json access_status lower configured user (some unauthorized) w ≡ (
        ok tt,
        record w {
          session_storage =
              insert auth_notice_key (json.encode (told user unauthorized w)) w.session_storage;
        },
      )
  unfolding read_access_request_email write_auth_notice
  explain_lem user unauthorized w open' = ground arith

  kept_storage :
      (user : AuthUser) (settled : Settled) (unauthorized : Text × AccessStatus) (m : Mounted)
      → m.cancelled ≡ false
      → m.world.storage_blocked ≡ false
      → (f : Failure) → parse_not_authorized_error f ≡ some unauthorized
      → let w' =
          (on_auth_change_resume json access_status lower configured user settled
            (failed f)
            m).world in
        let d =
          insert auth_notice_key
            (json.encode (told user unauthorized m.world))
            m.world.session_storage in
        (w'.session_storage ≡ (if configured then erase password_setup_key d else d))
        × (w'.storage_blocked ≡ false)
  unfolding on_auth_change_resume
  kept_storage user settled unauthorized m mounted open' f refused =
      let told' = explain_lem user unauthorized (m.world) open' in
      let w₁ : World = record (m.world) {
        session_storage =
            insert auth_notice_key (json.encode (told user unauthorized m.world))
              m.world.session_storage;
      } in
      ground (arith, told', sign_out-storage configured settled w₁)

  -- Where the notice's text decodes to the notice and is not empty: while the component is mounted
  -- and storage is open, and `/auth/me` is refused with a 403 that says "not_authorized", the
  -- landing page next reads a notice. It says that access was requested exactly if the refusal does,
  -- or the lookup of the user's email and of the remembered one; its text is the refusal's, unless
  -- that is empty and either the lookup says that access was requested or the refusal does not: then
  -- it is the lookup's.
  pub refused_user_is_told :
      (user : AuthUser) (settled : Settled) (f : Failure) (unauthorized : Text × AccessStatus)
      (m : Mounted)
      → ((n : AuthNotice) → json.decode (json.encode n) ≡ some n)
      → ((n : AuthNotice) → json.encode n ≢ [])
      → m.cancelled ≡ false
      → m.world.storage_blocked ≡ false
      → parse_not_authorized_error f ≡ some unauthorized
      → (n : AuthNotice) × ((read_auth_notice json
            (on_auth_change_resume json access_status lower configured user settled
              (failed f)
              m).world).0
          ≡ ok (some n))
        × Tells unauthorized (looked_up user m.world) n
  refused_user_is_told user settled f unauthorized m round ne mounted open' refused =
      let n = told user unauthorized m.world in
      let d : Dict Text = insert auth_notice_key (json.encode n) m.world.session_storage in
      let w' =
        (on_auth_change_resume json access_status lower configured user settled (failed f)
          m).world in
      let (kept, still) = kept_storage user settled unauthorized m mounted open' f refused in
      let found : lookup auth_notice_key w'.session_storage ≡ some (json.encode n) = rw kept (
        ground (
          arith,
          lookup-erase password_setup_key auth_notice_key d,
          lookup-insert auth_notice_key auth_notice_key (json.encode n) m.world.session_storage,
          eq_refl auth_notice_key,
          eq_iff password_setup_key auth_notice_key,
        )) in
      (
        n,
        rw (read_found json (json.encode n) w' still found (ne n), round n) refl,
        refusal_notice-Tells user unauthorized (looked_up user m.world),
      )
