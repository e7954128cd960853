-- ===== src/Budget/AccountForm/Patched.antt =====
-- The account after the dialog's patch.
use finance_buddy.Budget.AccountForm.{
  Account, unless_same, same_text, FieldNumbers, MetaUpdate, same_number, build_patch, changes,
  is_empty_patch, FormState, or_nothing, parse_numeric, parse_day,
}
use finance_buddy.Prelude.{
  Bool, Bool-cases, Option, Text, [], ap, arith, false, if◌then◌else◌, inl, inr, is_none, none,
  refl, some, sym, text_eq, text_eq→eq, trim, true, ◌≡◌,
}
use finance_buddy.Store.{given}

-- What the server does with a field: what is omitted is kept.
abbrev pub kept_or : {A : Type 0} → Option A → A → A
kept_or none old = old
kept_or (some v) old = v

-- The account after the patch; a label is sent as a text.
abbrev pub updated : {F : Type 0} → Account F → Option (MetaUpdate F) → Account F
updated a none = a
updated a (some p) = record {
  label = if is_none p.label then a.label else p.label;
  last4 = kept_or p.last4 a.last4;
  credit_limit = kept_or p.credit_limit a.credit_limit;
  statement_day = kept_or p.statement_day a.statement_day;
  due_day = kept_or p.due_day a.due_day;
  opening_balance = kept_or p.opening_balance a.opening_balance;
}

kept_or-unless_same :
    {A : Type 0} (same : Bool) (v old : A)
    → (same ≡ true → v ≡ old)
    → kept_or (unless_same same v) old ≡ v
kept_or-unless_same true v old h = sym (h refl)
kept_or-unless_same false v old h = refl

label-unless_same :
    (same : Bool) (t : Text) (old : Option Text)
    → (same ≡ true → t ≡ given old [])
    → given (if is_none (unless_same same t) then old else unless_same same t) [] ≡ t
label-unless_same true t old h = sym (h refl)
label-unless_same false t old h = refl

is_none→eq : {A : Type 0} (v : Option A) → is_none v ≡ true → v ≡ none
is_none→eq none h = refl
is_none→eq (some x) h = cc

updated-empty :
    {F : Type 0} (a : Account F) (p : MetaUpdate F)
    → is_empty_patch p ≡ true
    → updated a (some p) ≡ a
updated-empty a p h =
    rw
      (
        is_none→eq p.label (ground arith),
        is_none→eq p.last4 (ground arith),
        is_none→eq p.credit_limit (ground arith),
        is_none→eq p.statement_day (ground arith),
        is_none→eq p.due_day (ground arith),
        is_none→eq p.opening_balance (ground arith),
      )
      refl

same_text→eq : (v w : Option Text) → same_text v w ≡ true → v ≡ w
same_text→eq none none h = refl
same_text→eq none (some y) h = cc
same_text→eq (some x) none h = cc
same_text→eq (some x) (some y) h = ap some (text_eq→eq x y h)

module _ {F : Type 0} (numbers : FieldNumbers F) where
  same_number→eq :
      ((x y : F) → numbers.same x y ≡ true → x ≡ y)
      → (v w : Option F) → same_number numbers v w ≡ true
      → v ≡ w
  same_number→eq s none none h = refl
  same_number→eq s none (some y) h = cc
  same_number→eq s (some x) none h = cc
  same_number→eq s (some x) (some y) h = ap some (s x y h)

  updated-build_patch :
      (a : Account F) (form : FormState)
      → updated a (build_patch numbers a form) ≡ updated a (some (changes numbers a form))
  unfolding build_patch
  updated-build_patch a form = elim (Bool-cases (is_empty_patch (changes numbers a form))) [
    | inl k ↦ rw k (sym (updated-empty a (changes numbers a form) k))
    | inr k ↦ rw k refl
  ]

  -- If `===` tells different numbers apart, then whether the dialog closes or sends a patch, the
  -- account with the patch applied is what the form says: what the form leaves blank is cleared, and
  -- what the patch omits was so before.
  pub build_patch-updates :
      ((x y : F) → numbers.same x y ≡ true → x ≡ y)
      → (a : Account F) (form : FormState)
      → let b = updated a (build_patch numbers a form) in
        (given b.label [] ≡ trim form.label)
        × (b.last4 ≡ or_nothing (trim form.last4))
        × (b.credit_limit ≡ (parse_numeric numbers form.credit_limit).value)
        × (b.statement_day ≡ (parse_day numbers form.statement_day).value)
        × (b.due_day ≡ (parse_day numbers form.due_day).value)
        × (b.opening_balance ≡ (parse_numeric numbers form.opening_balance).value)
  unfolding changes
  build_patch-updates s a form =
      let limit = (parse_numeric numbers form.credit_limit).value in
      let statement = (parse_day numbers form.statement_day).value in
      let due = (parse_day numbers form.due_day).value in
      let opening = (parse_numeric numbers form.opening_balance).value in
      let last4 = or_nothing (trim form.last4) in
      rw (updated-build_patch a form) (
        label-unless_same (text_eq (trim form.label) (given a.label [])) (trim form.label) a.label
            (text_eq→eq (trim form.label) (given a.label [])),
        kept_or-unless_same (same_text last4 a.last4) last4 a.last4 (same_text→eq last4 a.last4),
        kept_or-unless_same (same_number numbers limit a.credit_limit) limit a.credit_limit
            (same_number→eq s limit a.credit_limit),
        kept_or-unless_same (same_number numbers statement a.statement_day) statement
            a.statement_day (same_number→eq s statement a.statement_day),
        kept_or-unless_same (same_number numbers due a.due_day) due a.due_day
            (same_number→eq s due a.due_day),
        kept_or-unless_same (same_number numbers opening a.opening_balance) opening
            a.opening_balance (same_number→eq s opening a.opening_balance),
      )
