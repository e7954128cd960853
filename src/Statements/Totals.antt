-- ===== src/Statements/Totals.antt =====
-- The totals above the ledger against the ledger's own tests.
use finance_buddy.Prelude.{
  Bool, Bool-cases, List, Option, Text, [], any, filter, if◌then◌else◌, inl, inr, is_none, none,
  not, refl, some, ◌&&◌, ◌∷◌, ◌≡◌, false, true,
}
use finance_buddy.Statements.Ledger.{
  Comparison, Floats, LedgerItem, added, filter_or_throw, is_above_nil, is_below_nil, is_bought,
  is_purchase, is_redemption, is_sold, total_bought, total_sold,
}

-- A test that throws on some elements filters as one that does not, unless it comes across one of
-- them.
module _ {A : Type 0} (throws : A → Bool) (p : A → Bool) (q : A → Option Bool)
    (same : (x : A) → q x ≡ (if throws x then none else some (p x))) where
  filter_or_throw-filter :
      (xs : List A) → filter_or_throw q xs ≡ (if any throws xs then none else some (filter p xs))
  filter_or_throw-filter [] = refl
  filter_or_throw-filter (x ∷ xs) = elim (Bool-cases (throws x)) [
    | inl k ↦ rw (same x, k) refl
    | inr k ↦ elim (Bool-cases (any throws xs)) [
      | inl j ↦ rw (same x, k, filter_or_throw-filter xs, j) refl
      | inr j ↦ rw (same x, k, filter_or_throw-filter xs, j) refl
    ]
  ]

module _ {F : Type 0} (floats : Floats F) (lower : Text → Text) where
  -- A transaction without a type, whose units do not say that it is a purchase, or a redemption.
  abbrev pub is_unclear_purchase : LedgerItem F → Bool
  is_unclear_purchase tx = not (is_above_nil floats tx.units) && is_none tx.type

  abbrev pub is_unclear_redemption : LedgerItem F → Bool
  is_unclear_redemption tx = not (is_below_nil floats tx.units) && is_none tx.type

  is_bought-is_purchase :
      (tx : LedgerItem F)
      → is_bought floats lower tx
        ≡ (if is_unclear_purchase tx then none else some (is_purchase floats lower tx))
  is_bought-is_purchase tx = split (is_above_nil floats tx.units) tx.type refl refl
    where
      split :
          (b : Bool) (t : Option Text)
          → is_above_nil floats tx.units ≡ b
          → tx.type ≡ t
          → is_bought floats lower tx
            ≡ (if is_unclear_purchase tx then none else some (is_purchase floats lower tx))
      split true t e k = rw e refl
      split false none e k = rw (e, k) refl
      split false (some []) e k = rw (e, k) refl
      split false (some (d ∷ s)) e k = rw (e, k) refl

  is_sold-is_redemption :
      (tx : LedgerItem F)
      → is_sold floats lower tx
        ≡ (if is_unclear_redemption tx then none else some (is_redemption floats lower tx))
  is_sold-is_redemption tx = split (is_below_nil floats tx.units) tx.type refl refl
    where
      split :
          (b : Bool) (t : Option Text)
          → is_below_nil floats tx.units ≡ b
          → tx.type ≡ t
          → is_sold floats lower tx
            ≡ (if is_unclear_redemption tx then none else some (is_redemption floats lower tx))
      split true t e k = rw e refl
      split false none e k = rw (e, k) refl
      split false (some []) e k = rw (e, k) refl
      split false (some (d ∷ s)) e k = rw (e, k) refl

-- The totals throw exactly if there is a transaction without a type whose units do not decide. If
-- there is none, the one is the amounts of the transactions that the ledger takes for purchases, the
-- other of those that it takes for redemptions, each added in their order; also those of closed funds
-- and those that are both.
pub totals-ledger :
    {F : Type 0} (floats : Floats F) (lower : Text → Text) (c : Comparison F)
    → (total_bought floats lower (some c) ≡ (
        if any (is_unclear_purchase floats lower) c.new_transactions
        then none
        else some (added floats floats.nil (filter (is_purchase floats lower) c.new_transactions))))
      × (total_sold floats lower (some c) ≡ (
          if any (is_unclear_redemption floats lower) c.new_transactions
          then none
          else some
              (added floats floats.nil (filter (is_redemption floats lower) c.new_transactions))))
unfolding total_bought total_sold
totals-ledger floats lower c = (
  elim (Bool-cases (any (is_unclear_purchase floats lower) c.new_transactions)) [
    | inl k ↦
        rw (filter_or_throw-filter _ _ _ (is_bought-is_purchase floats lower) c.new_transactions, k)
          refl
    | inr k ↦
        rw (filter_or_throw-filter _ _ _ (is_bought-is_purchase floats lower) c.new_transactions, k)
          refl
  ],
  elim (Bool-cases (any (is_unclear_redemption floats lower) c.new_transactions)) [
    | inl k ↦
        rw (filter_or_throw-filter _ _ _ (is_sold-is_redemption floats lower) c.new_transactions, k)
          refl
    | inr k ↦
        rw (filter_or_throw-filter _ _ _ (is_sold-is_redemption floats lower) c.new_transactions, k)
          refl
  ],
)
