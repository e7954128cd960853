-- ===== src/Tests/Statements.antt =====
-- A ledger of four transactions in two funds, one of which counts both ways. Numbers with a sign
-- stand for what JavaScript computes with.
use finance_buddy.Prelude.{
  Bool, List, Option, String, Text, [], any, codes, false, filter, if◌then◌else◌, length, ltb, map,
  none, not, refl, some, text_eq, trim, true, ℕ, ◌&&◌, ◌+◌, ◌-◌, ◌∷◌, ◌≡◌,
}
use finance_buddy.Statements.ByFund.{booked_in_turn, entry_of, entry_of-grouped_transactions}
use finance_buddy.Statements.Ledger.{
  Comparison, Entry, Floats, LedgerItem, added, grouped_transactions, is_closed, is_purchase,
  is_redemption, total_bought, total_sold,
}
use finance_buddy.Statements.Totals.{is_unclear_purchase, is_unclear_redemption, totals-ledger}
use finance_buddy.Tests.App.{same_case}

-- A number and whether it is below nil.
abbrev Signed : Type 0
Signed = Bool × ℕ

abbrev up : ℕ → Signed
up n = (false, n)

abbrev down : ℕ → Signed
down n = (true, n)

abbrev less : ℕ → ℕ → Signed
less a b = if ltb a b then down (b - a) else up (a - b)

abbrev sum : Signed → Signed → Signed
sum (false, a) (false, b) = up (a + b)
sum (false, a) (true, b) = less a b
sum (true, a) (false, b) = less b a
sum (true, a) (true, b) = down (a + b)

abbrev opposite : Signed → Signed
opposite (b, n) = (not b, n)

abbrev is_less : Signed → Signed → Bool
is_less (false, a) (false, b) = ltb a b
is_less (false, a) (true, b) = false
is_less (true, a) (false, b) = ltb 0 (a + b)
is_less (true, a) (true, b) = ltb b a

abbrev signed : Floats Signed
signed = record {
  nil = up 0;
  plus = sum;
  minus = λ a b. sum a (opposite b);
  abs = λ a. up a.1;
  is_smaller = is_less;
}

abbrev transaction : String → Option Text → Signed → ℕ → LedgerItem Signed
transaction fund type units amount = record {
  fund = codes fund;
  type = type;
  units = some units;
  amount = some (up amount);
}

abbrev typed_transactions : List (LedgerItem Signed)
typed_transactions =
    transaction "A" (some (codes "sip")) (up 1) 100
    ∷ transaction "B" (some (codes "redemption")) (down 1) 250
    ∷ transaction "A" (some (codes "purchase reversed")) (down 1) 40
    ∷ transaction "A" (some (codes "switch out")) (down 1) 30
    ∷ []

abbrev reconciled : Comparison Signed
reconciled = record { new_transactions = typed_transactions; active_funds = some (codes " A" ∷ []) }

-- With a transaction that has no type, and bought units.
abbrev untyped : Comparison Signed
untyped = record reconciled {
  new_transactions = transaction "B" none (up 1) 5 ∷ typed_transactions;
}

abbrev row_of : Entry Signed → List Signed
row_of e = e.bought_amount ∷ e.sold_amount ∷ []

ledger_tests :
    (map row_of (grouped_transactions signed same_case false (some reconciled))
      ≡ (up 0 ∷ up 250 ∷ []) ∷ (up 140 ∷ up 30 ∷ []) ∷ [])
    × (length (grouped_transactions signed same_case true (some reconciled)) ≡ 1)
    × (total_bought signed same_case (some reconciled) ≡ some (up 140))
    × (total_sold signed same_case (some reconciled) ≡ some (up 320))
    × (total_bought signed same_case (some untyped) ≡ some (up 145))
    × (total_sold signed same_case (some untyped) ≡ none)
unfolding grouped_transactions total_bought total_sold trim
ledger_tests = (refl, refl, refl, refl, refl, refl)

totals-ledger_example :
    (total_bought signed same_case (some untyped) ≡ (
      if any (is_unclear_purchase signed same_case) untyped.new_transactions
      then none
      else some
          (added signed (up 0) (filter (is_purchase signed same_case) untyped.new_transactions))))
    × (total_sold signed same_case (some untyped) ≡ (
        if any (is_unclear_redemption signed same_case) untyped.new_transactions
        then none
        else some (
            added signed
              (up 0)
              (filter (is_redemption signed same_case) untyped.new_transactions))))
totals-ledger_example = totals-ledger signed same_case untyped

entry_of-grouped_transactions_example :
    entry_of (codes "A") (grouped_transactions signed same_case true (some reconciled))
    ≡ booked_in_turn signed same_case
        (codes "A")
        (filter
          (λ tx. text_eq tx.fund (codes "A"))
          (filter
            (λ tx. not (true && is_closed signed same_case reconciled.active_funds tx))
            typed_transactions))
        none
entry_of-grouped_transactions_example =
    entry_of-grouped_transactions signed same_case true reconciled (codes "A")
