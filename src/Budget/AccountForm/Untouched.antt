-- ===== src/Budget/AccountForm/Untouched.antt =====
-- A dialog that is opened and saved as it is.
use finance_buddy.Budget.AccountForm.{
  FieldNumbers, parse_numeric, same_number, Parsed, parse_day, Account, shown, is_day, or_nothing,
  in_month, is_four_digits, is_negative, is_digit, same_text, validate, changes, handle_save,
  to_form, build_patch, has_no_errors, is_empty_patch, closed,
}
use finance_buddy.Budget.AccountForm.Saved.{is_last4}
use finance_buddy.Prelude.{
  Option, false, is_empty, none, refl, some, trim, true, ◌≡◌, Text, [], arith, ◌||◌, is_space,
  text_eq_refl, ℕ, ◌∷◌,
}
use finance_buddy.Store.{given}

digit_is_visible : (c : ℕ) → is_digit c ≡ true → is_space c ≡ false
unfolding is_space
digit_is_visible c h = ground arith

trim-four_digits : (t : Text) → is_four_digits t ≡ true → trim t ≡ t
unfolding trim
trim-four_digits [] h = refl
trim-four_digits (a ∷ []) h = cc
trim-four_digits (a ∷ (b ∷ [])) h = cc
trim-four_digits (a ∷ (b ∷ (c ∷ []))) h = cc
trim-four_digits (a ∷ (b ∷ (c ∷ (d ∷ [])))) h =
    let va = digit_is_visible a (ground arith) in
    let vb = digit_is_visible b (ground arith) in
    let vc = digit_is_visible c (ground arith) in
    let vd = digit_is_visible d (ground arith) in rw (va, vd, vc, vb, va) refl
trim-four_digits (a ∷ (b ∷ (c ∷ (d ∷ (e ∷ t))))) h = cc

or_nothing-four_digits :
    (t : Text)
    → is_four_digits t ≡ true
    → (or_nothing t ≡ some t) × ((is_empty t || is_four_digits t) ≡ true)
or_nothing-four_digits [] h = cc
or_nothing-four_digits (c ∷ t) h = (refl, h)

or_nothing-given :
    (v : Option Text)
    → is_last4 v ≡ true
    → (or_nothing (trim (given v [])) ≡ v)
      × ((is_empty (trim (given v [])) || is_four_digits (trim (given v []))) ≡ true)
unfolding trim
or_nothing-given none h = (refl, refl)
or_nothing-given (some t) h = rw (trim-four_digits t h) (or_nothing-four_digits t h)

same_text_refl : (v : Option Text) → same_text v v ≡ true
same_text_refl none = refl
same_text_refl (some t) = text_eq_refl t

module _ {F : Type 0} (numbers : FieldNumbers F) where
  -- The number is read back from what is shown of it, and is the same.
  abbrev pub IsShown : Option F → Type 0
  IsShown none = Unit
  IsShown (some n) =
      (is_empty (trim (numbers.show n)) ≡ false)
      × (numbers.number (trim (numbers.show n)) ≡ some n)
      × (numbers.same n n ≡ true)

  parse_numeric-shown :
      (v : Option F)
      → IsShown v
      → ((parse_numeric numbers (shown numbers v)).value ≡ v)
        × ((parse_numeric numbers (shown numbers v)).ok ≡ true)
  unfolding parse_numeric trim
  parse_numeric-shown none h = (refl, refl)
  parse_numeric-shown (some n) h = rw (h.0, h.1) (refl, refl)

  same_number_refl : (v : Option F) → IsShown v → same_number numbers v v ≡ true
  same_number_refl none h = refl
  same_number_refl (some n) h = h.2

  in_month-kept : (p : Parsed F) (v : Option F) → is_day numbers v ≡ true → in_month numbers p v ≡ p
  in_month-kept p none h = refl
  in_month-kept p (some n) h = ground arith

  parse_day-shown :
      (v : Option F)
      → IsShown v
      → is_day numbers v ≡ true
      → ((parse_day numbers (shown numbers v)).value ≡ v)
        × ((parse_day numbers (shown numbers v)).ok ≡ true)
  unfolding parse_day
  parse_day-shown v h d =
      let p = parse_numeric numbers (shown numbers v) in
      let r = parse_numeric-shown v h in rw (r.1, in_month-kept p p.value (rw r.0 d)) r

  -- An account is shown as the dialog would save it.
  abbrev pub IsSettled : Account F → Type 0
  IsSettled a =
      (trim (given a.label []) ≡ given a.label [])
      × (is_empty (given a.label []) ≡ false)
      × (is_last4 a.last4 ≡ true)
      × IsShown a.credit_limit
      × (is_negative numbers a.credit_limit ≡ false)
      × IsShown a.statement_day
      × (is_day numbers a.statement_day ≡ true)
      × IsShown a.due_day
      × (is_day numbers a.due_day ≡ true)
      × IsShown a.opening_balance

  to_form-valid :
      (a : Account F) → IsSettled a → has_no_errors (validate numbers (to_form numbers a)) ≡ true
  unfolding validate to_form
  to_form-valid a h =
      rw
        (
          h.0,
          h.1,
          (or_nothing-given a.last4 h.2).1,
          (parse_numeric-shown a.credit_limit h.3).1,
          (parse_numeric-shown a.credit_limit h.3).0,
          h.4,
          (parse_day-shown a.statement_day h.5 h.6).1,
          (parse_day-shown a.due_day h.7 h.8).1,
          (parse_numeric-shown a.opening_balance h.9).1,
        )
        refl

  changes-to_form :
      (a : Account F) → IsSettled a → is_empty_patch (changes numbers a (to_form numbers a)) ≡ true
  unfolding changes to_form
  changes-to_form a h =
      rw
        (
          h.0,
          text_eq_refl (given a.label []),
          (or_nothing-given a.last4 h.2).0,
          same_text_refl a.last4,
          (parse_numeric-shown a.credit_limit h.3).0,
          same_number_refl a.credit_limit h.3,
          (parse_day-shown a.statement_day h.5 h.6).0,
          same_number_refl a.statement_day h.5,
          (parse_day-shown a.due_day h.7 h.8).0,
          same_number_refl a.due_day h.7,
          (parse_numeric-shown a.opening_balance h.9).0,
          same_number_refl a.opening_balance h.9,
        )
        refl

  -- If the label of an account has no space at its ends and is not empty, the digits of its card are
  -- four, its limit is not negative, its days are integers from 1 to 31, where there are any, and its
  -- numbers are read back from what is shown of them, then a dialog that is opened on it and saved as
  -- it is closes and sends nothing.
  pub handle_save-to_form :
      (a : Account F) → IsSettled a → handle_save numbers a (to_form numbers a) ≡ closed
  unfolding handle_save build_patch
  handle_save-to_form a h = rw (to_form-valid a h, changes-to_form a h) refl
