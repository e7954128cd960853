-- ===== src/Tests/Accounts.antt =====
-- The dialog of AccountsTab.tsx, with natural numbers whose text is one code unit each.
use finance_buddy.Budget.AccountForm.{
  FieldNumbers, Account, FormState, MetaUpdate, handle_save, is_empty_patch, validate, build_patch,
  to_form, changes, closed, parse_numeric, is_negative, or_nothing, parse_day, is_day, sent,
  refused,
}
use finance_buddy.Budget.AccountForm.Patched.{updated, build_patch-updates}
use finance_buddy.Budget.AccountForm.Saved.{if_sent, is_last4, sent-IsAccepted}
use finance_buddy.Budget.AccountForm.Untouched.{IsSettled, handle_save-to_form}
use finance_buddy.Prelude.{
  Option, Text, [], codes, false, is_empty, is_space, ltb, nat_eq, nat_eq_iff, none, not, refl,
  some, trim, true, ℕ, ◌∷◌, ◌≡◌,
}
use finance_buddy.Store.{given}

abbrev unit_of : Text → Option ℕ
unit_of (c ∷ []) = some c
unit_of _ = none

abbrev units : FieldNumbers ℕ
units = record {
  number = unit_of;
  show = λ n. n ∷ [];
  is_integer = λ n. true;
  is_less = ltb;
  is_more = λ n m. ltb m n;
  same = nat_eq;
}

abbrev card : Account ℕ
card = record {
  label = some (codes "Card");
  last4 = some (codes "1234");
  credit_limit = some 90;
  statement_day = some 28;
  due_day = none;
  opening_balance = none;
}

-- A label with a space too many, no digits and another due day.
abbrev edited : FormState
edited = record {
  label = codes "Card ";
  last4 = codes " ";
  credit_limit = 90 ∷ [];
  statement_day = 28 ∷ [];
  due_day = 5 ∷ [];
  opening_balance = [];
}

abbrev edits : MetaUpdate ℕ
edits = record {
  label = none;
  last4 = some none;
  credit_limit = none;
  statement_day = none;
  due_day = some (some 5);
  opening_balance = none;
}

abbrev wrong : FormState
wrong = record edited { last4 = codes "12a4"; due_day = 40 ∷ []; statement_day = codes "x1" }

edited_is_sent : handle_save units card edited ≡ sent edits
unfolding handle_save validate build_patch changes parse_numeric parse_day trim is_space
edited_is_sent = refl

wrong_is_refused :
    handle_save units card wrong
    ≡ refused (record {
      label = none;
      last4 = some "Exactly 4 digits, or leave blank.";
      credit_limit = none;
      statement_day = some "A day from 1 to 31, or blank.";
      due_day = some "A day from 1 to 31, or blank.";
      opening_balance = none;
    })
unfolding handle_save validate build_patch changes parse_numeric parse_day trim is_space
wrong_is_refused = refl

sent-IsAccepted_example :
    (is_empty_patch edits ≡ false)
    × (if_sent (λ t. not (is_empty t)) edits.label ≡ true)
    × (if_sent is_last4 edits.last4 ≡ true)
    × (if_sent (λ v. not (is_negative units v)) edits.credit_limit ≡ true)
    × (if_sent (is_day units) edits.statement_day ≡ true)
    × (if_sent (is_day units) edits.due_day ≡ true)
sent-IsAccepted_example = sent-IsAccepted units card edited edits edited_is_sent

units_differ : (x y : ℕ) → nat_eq x y ≡ true → x ≡ y
units_differ x y h = (nat_eq_iff x y).0 h

build_patch-updates_example :
    let b = updated card (build_patch units card edited) in
    (given b.label [] ≡ trim edited.label)
    × (b.last4 ≡ or_nothing (trim edited.last4))
    × (b.credit_limit ≡ (parse_numeric units edited.credit_limit).value)
    × (b.statement_day ≡ (parse_day units edited.statement_day).value)
    × (b.due_day ≡ (parse_day units edited.due_day).value)
    × (b.opening_balance ≡ (parse_numeric units edited.opening_balance).value)
build_patch-updates_example = build_patch-updates units units_differ card edited

card-IsSettled : IsSettled units card
unfolding trim is_space
card-IsSettled =
    (refl, refl, refl, (refl, refl, refl), refl, (refl, refl, refl), refl, tt, refl, tt)

handle_save-to_form_test : handle_save units card (to_form units card) ≡ closed
handle_save-to_form_test = handle_save-to_form units card card-IsSettled
