-- ===== src/Budget/AccountForm.antt =====
-- The dialog of AccountsTab.tsx that edits an account: toForm, parseNumeric, parseDay, validate,
-- buildPatch and handleSave. `FieldNumbers` is what JavaScript does with numbers. Of an account the
-- fields are kept that the dialog reads; `null` is `none`, and a field that a patch omits is `none`.
pub mod Saved
pub mod Patched
pub mod Untouched
use finance_buddy.Prelude.{
  Bool, Option, String, Text, [], false, if◌then◌else◌, is_empty, is_none, leb, none, not, some,
  text_eq, trim, true, ℕ, ◌&&◌, ◌||◌, ◌∷◌,
}
use finance_buddy.Store.{given}

pub record FieldNumbers (F : Type 0) : Type 0 where
  -- `Number(s)`, if it is finite
  pub number : Text → Option F
  -- `String(n)`
  pub show : F → Text
  pub is_integer : F → Bool
  pub is_less : F → ℕ → Bool
  pub is_more : F → ℕ → Bool
  -- `===`
  pub same : F → F → Bool

pub record Account (F : Type 0) : Type 0 where
  pub label : Option Text
  pub last4 : Option Text
  pub credit_limit : Option F
  pub statement_day : Option F
  pub due_day : Option F
  pub opening_balance : Option F

pub record FormState : Type 0 where
  pub label : Text
  pub last4 : Text
  pub credit_limit : Text
  pub statement_day : Text
  pub due_day : Text
  pub opening_balance : Text

pub record FormErrors : Type 0 where
  pub label : Option String
  pub last4 : Option String
  pub credit_limit : Option String
  pub statement_day : Option String
  pub due_day : Option String
  pub opening_balance : Option String

pub record MetaUpdate (F : Type 0) : Type 0 where
  pub label : Option Text
  pub last4 : Option (Option Text)
  pub credit_limit : Option (Option F)
  pub statement_day : Option (Option F)
  pub due_day : Option (Option F)
  pub opening_balance : Option (Option F)

pub record Parsed (F : Type 0) : Type 0 where
  pub ok : Bool
  pub value : Option F

-- `/^\d{4}$/`
abbrev pub is_digit : ℕ → Bool
is_digit c = leb 48 c && leb c 57

abbrev pub is_four_digits : Text → Bool
is_four_digits (a ∷ (b ∷ (c ∷ (d ∷ [])))) = is_digit a && is_digit b && is_digit c && is_digit d
is_four_digits _ = false

-- `s || null`
abbrev pub or_nothing : Text → Option Text
or_nothing [] = none
or_nothing (c ∷ s) = some (c ∷ s)

abbrev pub same_text : Option Text → Option Text → Bool
same_text none none = true
same_text (some a) (some b) = text_eq a b
same_text _ _ = false

abbrev pub finite : {F : Type 0} → Option F → Parsed F
finite none = record { ok = false; value = none }
finite (some n) = record { ok = true; value = some n }

abbrev pub error_unless : Bool → String → Option String
error_unless test message = if test then none else some message

abbrev pub unless_same : {A : Type 0} → Bool → A → Option A
unless_same same value = if same then none else some value

-- `Object.keys(patch).length` is zero.
abbrev pub is_empty_patch : {F : Type 0} → MetaUpdate F → Bool
is_empty_patch p =
    is_none p.label
    && is_none p.last4
    && is_none p.credit_limit
    && is_none p.statement_day
    && is_none p.due_day
    && is_none p.opening_balance

abbrev pub has_no_errors : FormErrors → Bool
has_no_errors e =
    is_none e.label
    && is_none e.last4
    && is_none e.credit_limit
    && is_none e.statement_day
    && is_none e.due_day
    && is_none e.opening_balance

-- What `handleSave` does: it shows errors, closes the dialog, or sends a patch.
pub data Outcome (F : Type 0) : Type 0 where
  refused : FormErrors → Outcome F
  closed : Outcome F
  sent : MetaUpdate F → Outcome F

abbrev pub patched : {F : Type 0} → Option (MetaUpdate F) → Outcome F
patched none = closed
patched (some p) = sent p

module _ {F : Type 0} (numbers : FieldNumbers F) where
  abbrev pub shown : Option F → Text
  shown none = []
  shown (some n) = numbers.show n

  unfoldable pub to_form : Account F → FormState
  to_form a = record {
    label = given a.label [];
    last4 = given a.last4 [];
    credit_limit = shown a.credit_limit;
    statement_day = shown a.statement_day;
    due_day = shown a.due_day;
    opening_balance = shown a.opening_balance;
  }

  unfoldable pub parse_numeric : Text → Parsed F
  unfolding trim
  parse_numeric raw =
      if is_empty (trim raw)
      then record { ok = true; value = none }
      else finite (numbers.number (trim raw))

  abbrev pub in_month : Parsed F → Option F → Parsed F
  in_month p none = p
  in_month p (some n) =
      if not (numbers.is_integer n) || numbers.is_less n 1 || numbers.is_more n 31
      then record { ok = false; value = none }
      else p

  unfoldable pub parse_day : Text → Parsed F
  unfolding parse_numeric
  parse_day raw = let p = parse_numeric raw in if not p.ok then p else in_month p p.value

  abbrev pub is_negative : Option F → Bool
  is_negative none = false
  is_negative (some n) = numbers.is_less n 0

  unfoldable pub validate : FormState → FormErrors
  unfolding parse_numeric parse_day trim
  validate form = record {
    label = error_unless (not (is_empty (trim form.label))) "A label is required.";
    last4 =
        error_unless (is_empty (trim form.last4) || is_four_digits (trim form.last4))
          "Exactly 4 digits, or leave blank.";
    credit_limit =
        if not (parse_numeric form.credit_limit).ok
        then some "Enter a number, or leave blank."
        else error_unless (not (is_negative (parse_numeric form.credit_limit).value))
            "Cannot be negative.";
    statement_day = error_unless (parse_day form.statement_day).ok "A day from 1 to 31, or blank.";
    due_day = error_unless (parse_day form.due_day).ok "A day from 1 to 31, or blank.";
    opening_balance =
        error_unless (parse_numeric form.opening_balance).ok "Enter a number, or leave blank.";
  }

  abbrev pub same_number : Option F → Option F → Bool
  same_number none none = true
  same_number (some a) (some b) = numbers.same a b
  same_number _ _ = false

  -- The patch, before it is asked whether it has any field.
  unfoldable pub changes : Account F → FormState → MetaUpdate F
  unfolding parse_numeric parse_day trim
  changes a form =
      let last4 = or_nothing (trim form.last4) in
      let limit = (parse_numeric form.credit_limit).value in
      let statement_day = (parse_day form.statement_day).value in
      let due_day = (parse_day form.due_day).value in
      let opening = (parse_numeric form.opening_balance).value in
      record {
        label = unless_same (text_eq (trim form.label) (given a.label [])) (trim form.label);
        last4 = unless_same (same_text last4 a.last4) last4;
        credit_limit = unless_same (same_number limit a.credit_limit) limit;
        statement_day = unless_same (same_number statement_day a.statement_day) statement_day;
        due_day = unless_same (same_number due_day a.due_day) due_day;
        opening_balance = unless_same (same_number opening a.opening_balance) opening;
      }

  unfoldable pub build_patch : Account F → FormState → Option (MetaUpdate F)
  unfolding changes
  build_patch a form = if is_empty_patch (changes a form) then none else some (changes a form)

  unfoldable pub handle_save : Account F → FormState → Outcome F
  unfolding validate build_patch
  handle_save a form =
      if has_no_errors (validate form)
      then patched (build_patch a form)
      else refused (validate form)

  abbrev pub is_day : Option F → Bool
  is_day none = true
  is_day (some n) = numbers.is_integer n && not (numbers.is_less n 1) && not (numbers.is_more n 31)
