-- ===== src/Budget/Transactions/Totals.antt =====
-- The totals of the list.
use finance_buddy.Budget.Transactions.{Transaction, totals, is}
use finance_buddy.Prelude.{
  List, Text, [], codes, if◌then◌else◌, refl, ◌∷◌, ◌≡◌, Bool-cases, inl, inr, Option, false, none,
  some, text_eq→eq, true,
}
use finance_buddy.Store.{given}

-- A credit is no debit.
only_credit :
    (flow : Option Text) → is flow (codes "credit") ≡ true → is flow (codes "debit") ≡ false
only_credit none h = cc
only_credit (some f) h = rw (text_eq→eq f (codes "credit") h) refl

module _ {F : Type 0} (plus : F → F → F) (nothing : F) where
  -- The sum of the amounts of the transactions that flow one way, in the order of the list.
  abbrev pub sum_of : Text → F → List (Transaction F) → F
  sum_of flow sum [] = sum
  sum_of flow sum (t ∷ ts) =
      sum_of flow (if is t.flow flow then plus sum (given t.amount nothing) else sum) ts

  -- `totals` runs over the list once, and gives the sum of the credits and the sum of the debits.
  totals_lem :
      (credits debits : F) (ts : List (Transaction F))
      → totals plus nothing (credits, debits) ts
        ≡ (sum_of (codes "credit") credits ts, sum_of (codes "debit") debits ts)
  unfolding totals
  totals_lem credits debits [] = refl
  totals_lem credits debits (t ∷ ts) = elim (Bool-cases (is t.flow (codes "credit"))) [
    | inl k ↦
        rw (k, only_credit t.flow k) (totals_lem (plus credits (given t.amount nothing)) debits ts)
    | inr k ↦ elim (Bool-cases (is t.flow (codes "debit"))) [
      | inl m ↦ rw (k, m) (totals_lem credits (plus debits (given t.amount nothing)) ts)
      | inr m ↦ rw (k, m) (totals_lem credits debits ts)
    ]
  ]
