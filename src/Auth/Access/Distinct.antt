-- ===== src/Auth/Access/Distinct.antt =====
-- The emails that are looked up.
use finance_buddy.Auth.Access.{contains, unique_emails}
use finance_buddy.Prelude.{
  List, Option, Text, [], arith, false, is_empty, map, or_else, refl, text_eq, text_eq_iff,
  text_eq_refl, trim, true, ◌||◌, ◌∷◌, ◌≡◌, Bool, append-nil, ◌++◌, Bool-cases, any-append, inl,
  inr, subst, sym,
}

abbrev pub IsDistinct : List Text → Type 0
IsDistinct [] = Unit
IsDistinct (k ∷ ks) = (contains ks k ≡ false) × IsDistinct ks

module _ (lower : Text → Text) where
  abbrev keys : List Text → List (Option Text) → List Text
  keys seen emails = map lower (unique_emails lower seen emails)

  keys_unseen :
      (key : Text) (seen : List Text) (emails : List (Option Text))
      → contains seen key ≡ true
      → contains (keys seen emails) key ≡ false
  unfolding unique_emails
  keys_unseen key seen [] h = refl
  keys_unseen key seen (raw ∷ emails) h = ground (
    arith,
    keys_unseen key seen emails h,
    keys_unseen key (lower (trim (or_else raw [])) ∷ seen) emails,
    text_eq_iff (lower (trim (or_else raw []))) key,
  )

  keys-IsDistinct : (seen : List Text) (emails : List (Option Text)) → IsDistinct (keys seen emails)
  unfolding unique_emails
  keys-IsDistinct seen [] = tt
  keys-IsDistinct seen (raw ∷ emails) =
      let key = lower (trim (or_else raw [])) in
      ground (
        arith,
        keys-IsDistinct seen emails,
        keys-IsDistinct (key ∷ seen) emails,
        keys_unseen key (key ∷ seen) emails,
        text_eq_refl key,
      )

  abbrev key_of : Option Text → Text
  key_of raw = lower (trim (or_else raw []))

  abbrev pub is_blank : Option Text → Bool
  is_blank raw = is_empty (trim (or_else raw []))

  -- Every email of the input that is not blank is met among the keys.
  abbrev pub AreCovered : List Text → List (Option Text) → Type 0
  AreCovered ks [] = Unit
  AreCovered ks (raw ∷ emails) =
      ((is_blank raw || contains ks (key_of raw)) ≡ true) × AreCovered ks emails

  AreCovered-mono :
      (ks ls : List Text) (emails : List (Option Text))
      → ((k : Text) → contains ks k ≡ true → contains ls k ≡ true)
      → AreCovered ks emails
      → AreCovered ls emails
  AreCovered-mono ks ls [] more h = tt
  AreCovered-mono ks ls (raw ∷ emails) more (h, hs) =
      (ground (arith, more (key_of raw)), AreCovered-mono ks ls emails more hs)

  contains_move :
      (key : Text) (ks seen : List Text) (k : Text)
      → contains (ks ++ key ∷ seen) k ≡ true
      → contains (key ∷ ks ++ seen) k ≡ true
  contains_move key ks seen k h =
      ground (
        arith,
        any-append (λ x. text_eq x k) ks (key ∷ seen),
        any-append (λ x. text_eq x k) ks seen,
      )

  keys_skip :
      (seen : List Text) (raw : Option Text) (emails : List (Option Text))
      → (is_blank raw || contains seen (key_of raw)) ≡ true
      → keys seen (raw ∷ emails) ≡ keys seen emails
  unfolding unique_emails
  keys_skip seen raw emails skip = rw skip

  keys_keep :
      (seen : List Text) (raw : Option Text) (emails : List (Option Text))
      → (is_blank raw || contains seen (key_of raw)) ≡ false
      → keys seen (raw ∷ emails) ≡ key_of raw ∷ keys (key_of raw ∷ seen) emails
  unfolding unique_emails
  keys_keep seen raw emails keep = rw keep

  -- The same with the keys that were met before.
  AreCovered-from :
      (seen : List Text) (emails : List (Option Text))
      → AreCovered (keys seen emails ++ seen) emails
  AreCovered-from seen [] = tt
  AreCovered-from seen (raw ∷ emails) =
      let key = key_of raw in
      elim (Bool-cases (is_blank raw || contains seen key)) [
        | inl skip ↦
            subst (λ ks. AreCovered (ks ++ seen) (raw ∷ emails))
              (sym (keys_skip seen raw emails skip))
              (
                ground (arith, any-append (λ x. text_eq x key) (keys seen emails) seen),
                AreCovered-from seen emails,
              )
        | inr keep ↦
            subst (λ ks. AreCovered (ks ++ seen) (raw ∷ emails))
              (sym (keys_keep seen raw emails keep))
              (
                ground (arith, text_eq_refl key),
                AreCovered-mono (keys (key ∷ seen) emails ++ key ∷ seen)
                    (key ∷ keys (key ∷ seen) emails ++ seen) emails
                    (contains_move key (keys (key ∷ seen) emails) seen)
                    (AreCovered-from (key ∷ seen) emails),
              )
      ]

-- Of any list of emails, missing and blank ones among them, each that is not blank is looked up
-- once: no two that are looked up are equal up to case, and each that is not blank equals one of
-- them up to case.
pub unique_emails-IsDistinct :
    (lower : Text → Text) (emails : List (Option Text))
    → IsDistinct (map lower (unique_emails lower [] emails))
      × AreCovered lower (map lower (unique_emails lower [] emails)) emails
unique_emails-IsDistinct lower emails = (
  keys-IsDistinct lower [] emails,
  rw (append-nil (map lower (unique_emails lower [] emails))) at (AreCovered-from lower [] emails),
)
