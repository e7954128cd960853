-- ===== src/Budget/AccountForm/Saved.antt =====
-- What a saved form sends.
use finance_buddy.Budget.AccountForm.{
  changes, unless_same, error_unless, is_four_digits, FieldNumbers, or_nothing, parse_numeric,
  Parsed, parse_day, handle_save, is_day, build_patch, Account, FormState, MetaUpdate, sent,
  has_no_errors, validate, is_empty_patch, in_month, is_negative, same_number, same_text,
}
use finance_buddy.Prelude.{
  Bool, Bool-cases, Option, Option-cases, String, Text, [], arith, false, inl, inr, is_empty,
  is_none, none, refl, some, trim, true, ◌||◌, ◌∷◌, ◌≡◌, not, text_eq,
}
use finance_buddy.Store.{given}

-- A test on the value of a field, if it is sent.
abbrev pub if_sent : {A : Type 0} → (A → Bool) → Option A → Bool
if_sent test none = true
if_sent test (some v) = test v

if_sent-unless_same :
    {A : Type 0} (test : A → Bool) (same : Bool) (v : A)
    → test v ≡ true
    → if_sent test (unless_same same v) ≡ true
if_sent-unless_same test true v h = refl
if_sent-unless_same test false v h = h

error_unless-none :
    (test : Bool) (message : String) → is_none (error_unless test message) ≡ true → test ≡ true
error_unless-none true message h = refl
error_unless-none false message h = cc

abbrev pub is_last4 : Option Text → Bool
is_last4 none = true
is_last4 (some t) = is_four_digits t

or_nothing-is_last4 :
    (t : Text) → (is_empty t || is_four_digits t) ≡ true → is_last4 (or_nothing t) ≡ true
or_nothing-is_last4 [] h = refl
or_nothing-is_last4 (c ∷ t) h = h

module _ {F : Type 0} (numbers : FieldNumbers F) where
  parse_numeric-refused :
      (raw : Text)
      → (parse_numeric numbers raw).ok ≡ false
      → (parse_numeric numbers raw).value ≡ none
  unfolding parse_numeric
  parse_numeric-refused raw h = elim (Bool-cases (is_empty (trim raw))) [
    | inl k ↦ rw k refl
    | inr k ↦ elim (Option-cases (numbers.number (trim raw))) [
      | inl e ↦ rw (k, e) refl
      | inr (n, e) ↦ cc (rw (k, e) at h)
    ]
  ]

  in_month-is_day :
      (p : Parsed F) (v : Option F)
      → p.value ≡ v
      → is_day numbers (in_month numbers p v).value ≡ true
  in_month-is_day p none e = rw e refl
  in_month-is_day p (some n) e =
      elim (Bool-cases
        (not (numbers.is_integer n) || numbers.is_less n 1 || numbers.is_more n 31)) [
          | inl k ↦ rw k refl
          | inr k ↦ rw (k, e) (ground arith)
        ]

  parse_day-is_day : (raw : Text) → is_day numbers (parse_day numbers raw).value ≡ true
  unfolding parse_day
  parse_day-is_day raw = elim (Bool-cases (parse_numeric numbers raw).ok) [
    | inl k ↦ rw k (let r = parse_numeric numbers raw in in_month-is_day r r.value refl)
    | inr k ↦ rw k (rw (parse_numeric-refused raw k) refl)
  ]

  sent-changes :
      (a : Account F) (form : FormState) (p : MetaUpdate F)
      → handle_save numbers a form ≡ sent p
      → (has_no_errors (validate numbers form) ≡ true)
        × (is_empty_patch (changes numbers a form) ≡ false)
        × (changes numbers a form ≡ p)
  unfolding handle_save build_patch
  sent-changes a form p h = elim (Bool-cases (has_no_errors (validate numbers form))) [
    | inr k ↦ cc (rw k at h)
    | inl k ↦ elim (Bool-cases (is_empty_patch (changes numbers a form))) [
      | inl m ↦ cc (rw (k, m) at h)
      | inr m ↦ (k, m, cc (rw (k, m) at h))
    ]
  ]

  valid-last4 :
      (form : FormState)
      → has_no_errors (validate numbers form) ≡ true
      → is_last4 (or_nothing (trim form.last4)) ≡ true
  unfolding validate
  valid-last4 form h = or_nothing-is_last4 (trim form.last4) (
      error_unless-none (is_empty (trim form.last4) || is_four_digits (trim form.last4))
        "Exactly 4 digits, or leave blank." (ground arith))

  valid-label :
      (form : FormState)
      → has_no_errors (validate numbers form) ≡ true
      → not (is_empty (trim form.label)) ≡ true
  unfolding validate
  valid-label form h =
      error_unless-none (not (is_empty (trim form.label))) "A label is required." (ground arith)

  valid-limit :
      (form : FormState)
      → has_no_errors (validate numbers form) ≡ true
      → not (is_negative numbers (parse_numeric numbers form.credit_limit).value) ≡ true
  unfolding validate
  valid-limit form h = elim (Bool-cases (parse_numeric numbers form.credit_limit).ok) [
    | inl k ↦
        error_unless-none
          (not (is_negative numbers (parse_numeric numbers form.credit_limit).value))
          "Cannot be negative." (ground arith)
    | inr k ↦ rw (parse_numeric-refused form.credit_limit k) refl
  ]

  -- A patch that the dialog sends has a field, and what it sends is well formed: a label that is not
  -- empty, digits of a card that are four or cleared, a limit that is not negative or cleared, and
  -- days that are integers from 1 to 31 or cleared.
  pub sent-IsAccepted :
      (a : Account F) (form : FormState) (p : MetaUpdate F)
      → handle_save numbers a form ≡ sent p
      → (is_empty_patch p ≡ false)
        × (if_sent (λ t. not (is_empty t)) p.label ≡ true)
        × (if_sent is_last4 p.last4 ≡ true)
        × (if_sent (λ v. not (is_negative numbers v)) p.credit_limit ≡ true)
        × (if_sent (is_day numbers) p.statement_day ≡ true)
        × (if_sent (is_day numbers) p.due_day ≡ true)
  unfolding changes
  sent-IsAccepted a form p h =
      let r = sent-changes a form p h in
      let limit = (parse_numeric numbers form.credit_limit).value in
      rw (← r.2) (
        r.1,
        if_sent-unless_same (λ t. not (is_empty t)) (text_eq (trim form.label) (given a.label []))
            (trim form.label) (valid-label form r.0),
        if_sent-unless_same is_last4 (same_text (or_nothing (trim form.last4)) a.last4)
            (or_nothing (trim form.last4)) (valid-last4 form r.0),
        if_sent-unless_same (λ v. not (is_negative numbers v))
            (same_number numbers limit a.credit_limit) limit (valid-limit form r.0),
        if_sent-unless_same (is_day numbers)
            (same_number numbers (parse_day numbers form.statement_day).value a.statement_day)
            (parse_day numbers form.statement_day).value (parse_day-is_day form.statement_day),
        if_sent-unless_same (is_day numbers)
            (same_number numbers (parse_day numbers form.due_day).value a.due_day)
            (parse_day numbers form.due_day).value (parse_day-is_day form.due_day),
      )
