-- ===== src/Auth/Notice/Once.antt =====
-- A notice is read once.
use finance_buddy.Auth.Notice.{
  Json, clear_auth_landing_cache, AuthNotice, write_auth_notice, oauth_error_key, read_auth_notice,
  access_request_email_key, auth_notice_key,
}
use finance_buddy.Browser.{World, ok}
use finance_buddy.Prelude.{
  String, [], false, if◌then◌else◌, lookup, none, some, ◌==◌, ◌||◌, ◌≡◌, ◌≢◌, Dict, Text, arith,
  eq_iff, eq_refl, erase, insert, lookup-erase, lookup-insert, refl, ◌∷◌,
}

module _ (json : Json) where
  pub read_found :
      (raw : Text) (w : World)
      → w.storage_blocked ≡ false
      → lookup auth_notice_key w.session_storage ≡ some raw
      → raw ≢ []
      → read_auth_notice json w ≡ (
        ok (json.decode raw),
        record w { session_storage = erase auth_notice_key w.session_storage },
      )
  unfolding read_auth_notice
  read_found [] w open' found ne = absurd (ne refl)
  read_found (c ∷ raw) w open' found ne = ground arith

  read_missing :
      (w : World)
      → w.storage_blocked ≡ false
      → lookup auth_notice_key w.session_storage ≡ none
      → read_auth_notice json w ≡ (ok none, w)
  unfolding read_auth_notice
  read_missing w open' missing = ground arith

  write_lem :
      (n : AuthNotice) (w : World)
      → w.storage_blocked ≡ false
      → (write_auth_notice json n w).1
        ≡ record w { session_storage = insert auth_notice_key (json.encode n) w.session_storage }
  unfolding write_auth_notice
  write_lem n w open' = ground arith

  -- Where storage is open, and the notice's text is not empty and decodes to the notice again, a
  -- notice that was written is given by the next read, and the read after that gives none; no item
  -- of session storage under another key is changed by the write and the read.
  pub read-write_auth_notice :
      (n : AuthNotice) (key : String) (w : World)
      → json.decode (json.encode n) ≡ some n
      → json.encode n ≢ []
      → w.storage_blocked ≡ false
      → key ≢ auth_notice_key
      → let w₁ = (write_auth_notice json n w).1 in
        let w₂ = (read_auth_notice json w₁).1 in
        ((read_auth_notice json w₁).0 ≡ ok (some n))
        × ((read_auth_notice json w₂).0 ≡ ok none)
        × (lookup key w₂.session_storage ≡ lookup key w.session_storage)
  read-write_auth_notice n key w round ne open' other =
      let d : Dict Text = insert auth_notice_key (json.encode n) w.session_storage in
      let w₁ : World = record w { session_storage = d } in
      let w₂ : World = record w { session_storage = erase auth_notice_key d } in
      let first = read_found (json.encode n) w₁ open' (simp (lookup-insert, eq_refl)) ne in
      let second = read_missing w₂ open' (simp (lookup-erase, eq_refl)) in
      rw (write_lem n w open', first, second, round)
        (
          refl,
          refl,
          ground (
            arith,
            lookup-erase auth_notice_key key d,
            lookup-insert auth_notice_key key (json.encode n) w.session_storage,
            eq_iff auth_notice_key key,
          ),
        )

-- Clearing the landing cache, where storage is open, drops the sign-in error, the email of the
-- access request and the notice, and leaves every other item of session storage alone.
clear_auth_landing_cache_lem :
    (key : String) (w : World)
    → w.storage_blocked ≡ false
    → lookup key (clear_auth_landing_cache w).1.session_storage ≡ (
        if key == oauth_error_key || key == access_request_email_key || key == auth_notice_key
        then none
        else lookup key w.session_storage)
unfolding clear_auth_landing_cache
clear_auth_landing_cache_lem key w open' = ground (
  arith,
  lookup-erase oauth_error_key key w.session_storage,
  lookup-erase access_request_email_key key (erase oauth_error_key w.session_storage),
  lookup-erase auth_notice_key key
      (erase access_request_email_key (erase oauth_error_key w.session_storage)),
  eq_iff oauth_error_key key,
  eq_iff access_request_email_key key,
  eq_iff auth_notice_key key,
  eq_iff key oauth_error_key,
  eq_iff key access_request_email_key,
  eq_iff key auth_notice_key,
)
