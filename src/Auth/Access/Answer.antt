-- ===== src/Auth/Access/Answer.antt =====
-- What the lookups of several emails answer together.
use finance_buddy.Auth.Access.{
  AccessNotice, is_requested, lookup_access_notice_for_emails, pick_notice, lookup_access_notice,
  unique_emails, last_notice, no_request,
}
use finance_buddy.Auth.Notice.{AccessStatus}
use finance_buddy.Prelude.{
  All, Bool, List, [], arith, false, find, none, refl, ◌↔◌, ◌∷◌, ◌≡◌, Option, Text, some,
  Option-cases, inl, inr, map, true,
}

find-none_iff {ℓ} :
    {A : Type ℓ} (p : A → Bool) (xs : List A) → (find p xs ≡ none) ↔ All (λ x. p x ≡ false) xs
find-none_iff p [] = (λ _. tt, λ _. refl)
find-none_iff p (x ∷ xs) = grind (arith, find-none_iff p xs)

find-some {ℓ} : {A : Type ℓ} (p : A → Bool) (xs : List A) (x : A) → find p xs ≡ some x → p x ≡ true
find-some p [] x h = cc
find-some p (y ∷ ys) x h = ground (arith, find-some p ys x)

All-map_iff {ℓ κ} :
    {A B : Type ℓ} (P : B → Type κ) (f : A → B) (xs : List A)
    → All P (map f xs) ↔ All (λ x. P (f x)) xs
All-map_iff P f [] = (λ h. h, λ h. h)
All-map_iff P f (x ∷ xs) =
    let (to, from) = All-map_iff P f xs in (λ h. (h.0, to h.1), λ h. (h.0, from h.1))

last_notice-requested :
    (d : AccessNotice) (rs : List AccessNotice)
    → is_requested d.access_request_status ≡ false
    → All (λ r. is_requested r.access_request_status ≡ false) rs
    → is_requested (last_notice d rs).access_request_status ≡ false
last_notice-requested d [] h _ = h
last_notice-requested d (r ∷ rs) _ (h, hs) = last_notice-requested r rs h hs

abbrev requested : AccessNotice → Bool
requested r = is_requested r.access_request_status

-- A reply is picked that has a request behind it, if there is one; it is one of the replies.
pick-requested :
    (rs : List AccessNotice)
    → (is_requested (pick_notice rs).access_request_status ≡ false)
      ↔ All (λ r. is_requested r.access_request_status ≡ false) rs
pick-requested rs = elim (Option-cases (find requested rs)) [
  | inl nothing ↦
      let all_blank = (find-none_iff requested rs).0 nothing in
      (λ _. all_blank, λ _. rw nothing (last_notice-requested (no_request none) rs refl all_blank))
  | inr (r, found) ↦
      let asked : requested r ≡ true = find-some requested rs r found in
      (
        λ h. let same : requested r ≡ false = rw found at h in cc,
        λ h. let nothing : find requested rs ≡ none = (find-none_iff requested rs).1 h in cc,
      )
]

module _ (access_status : Text → Option (Text × AccessStatus)) (lower : Text → Text) where
  -- Looking several emails up says that nothing was requested exactly when each of the distinct
  -- emails among them, looked up by itself, says so; a failed lookup counts as nothing requested.
  pub lookup_access_notice_for_emails_iff :
      (emails : List (Option Text))
      → (is_requested
            (lookup_access_notice_for_emails access_status lower emails).access_request_status
          ≡ false)
        ↔ All
            (λ e.
              is_requested (lookup_access_notice access_status (some e)).access_request_status
              ≡ false)
            (unique_emails lower [] emails)
  unfolding lookup_access_notice_for_emails
  lookup_access_notice_for_emails_iff emails =
      let (to, from) =
        pick-requested (
          map (λ e. lookup_access_notice access_status (some e)) (unique_emails lower [] emails)) in
      let (split, join) =
        All-map_iff (λ r. requested r ≡ false) (λ e. lookup_access_notice access_status (some e))
          (unique_emails lower [] emails) in
      (λ h. split (to h), λ h. from (join h))
