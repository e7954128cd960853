-- ===== src/Statements/Ledger.antt =====
-- The ledger of frontend/src/shared/components/dashboard/UploadHistory.tsx: the transactions that are new
-- between two statements, by fund, and the totals above it. Amounts and units are of any type `F`, and
-- not NaN, so that `|| 0` does nothing to them; what JavaScript does with them is the argument
-- `floats`. A fund is a text, empty if it is missing. `lower` is `toLowerCase`.
use finance_buddy.Prelude.{
  Bool, List, Option, Text, [], any, codes, false, filter, if◌then◌else◌, includes, none, not,
  or_else, some, text_eq, trim, true, ℕ, ◌&&◌, ◌+◌, ◌||◌, ◌∷◌,
}
use finance_buddy.Store.{given}

pub record Floats (F : Type 0) : Type 0 where
  pub nil : F
  pub plus : F → F → F
  pub minus : F → F → F
  pub abs : F → F
  pub is_smaller : F → F → Bool

pub record LedgerItem (F : Type 0) : Type 0 where
  pub fund : Text
  pub type : Option Text
  pub units : Option F
  pub amount : Option F

-- What the server answers to a comparison, of which the ledger is made.
pub record Comparison (F : Type 0) : Type 0 where
  pub new_transactions : List (LedgerItem F)
  pub active_funds : Option (List Text)

-- One fund of the ledger.
pub record Entry (F : Type 0) : Type 0 where
  pub fund : Text
  pub bought_amount : F
  pub sold_amount : F
  pub bought_units : F
  pub sold_units : F
  pub bought_count : ℕ
  pub sold_count : ℕ
  pub net_amount : F

-- `typeLower.includes(...)` for a redemption and for a purchase.
abbrev pub names_redemption : Text → Bool
names_redemption t = includes t (codes "redemption") || includes t (codes "switch out")

abbrev pub names_purchase : Text → Bool
names_purchase t =
    includes t (codes "purchase")
    || includes t (codes "sip")
    || includes t (codes "switch in")
    || includes t (codes "reinvestment")
    || includes t (codes "stamp")

-- `filter`, where the test throws if it is `none`.
abbrev kept_if : {A : Type 0} → Option Bool → A → Option (List A) → Option (List A)
kept_if none x rest = none
kept_if (some b) x none = none
kept_if (some b) x (some kept) = some (if b then x ∷ kept else kept)

abbrev pub filter_or_throw : {A : Type 0} → (A → Option Bool) → List A → Option (List A)
filter_or_throw p [] = some []
filter_or_throw p (x ∷ xs) = let rest = filter_or_throw p xs in kept_if (p x) x rest

-- A test of `tx.type.toLowerCase()`.
abbrev tested : (Text → Bool) → Option Text → Option Bool
tested p none = none
tested p (some t) = some (p t)

module _ {F : Type 0} (floats : Floats F) where
  abbrev pub new_entry : Text → Entry F
  new_entry fund = record {
    fund = fund;
    bought_amount = floats.nil;
    sold_amount = floats.nil;
    bought_units = floats.nil;
    sold_units = floats.nil;
    bought_count = 0;
    sold_count = 0;
    net_amount = floats.nil;
  }

  -- `Math.abs(x || 0)`
  abbrev pub size : Option F → F
  size x = floats.abs (given x floats.nil)

  -- `units < 0` and `units > 0`; both are false if there are none.
  abbrev pub is_below_nil : Option F → Bool
  is_below_nil none = false
  is_below_nil (some x) = floats.is_smaller x floats.nil

  abbrev pub is_above_nil : Option F → Bool
  is_above_nil none = false
  is_above_nil (some x) = floats.is_smaller floats.nil x

  -- A stable sort, the largest net amount first.
  abbrev pub sorted_in : Entry F → List (Entry F) → List (Entry F)
  sorted_in e [] = e ∷ []
  sorted_in e (x ∷ xs) =
      let rest = sorted_in e xs in
      if floats.is_smaller (floats.abs e.net_amount) (floats.abs x.net_amount)
      then x ∷ rest
      else e ∷ x ∷ xs

  abbrev pub sort_by_net : List (Entry F) → List (Entry F)
  sort_by_net [] = []
  sort_by_net (e ∷ es) = sorted_in e (sort_by_net es)

  -- `reduce((a, b) => a + Math.abs(b.amount || 0), sum)`
  abbrev pub added : F → List (LedgerItem F) → F
  added sum [] = sum
  added sum (tx ∷ txs) = added (floats.plus sum (size tx.amount)) txs

  abbrev total_of : Option (List (LedgerItem F)) → Option F
  total_of none = none
  total_of (some txs) = some (added floats.nil txs)

module _ {F : Type 0} (floats : Floats F) (lower : Text → Text) where
  abbrev pub is_redemption : LedgerItem F → Bool
  is_redemption tx = is_below_nil floats tx.units || names_redemption (lower (or_else tx.type []))

  abbrev pub is_purchase : LedgerItem F → Bool
  is_purchase tx = is_above_nil floats tx.units || names_purchase (lower (or_else tx.type []))

  -- The fund is closed, as far as the server says which are active.
  abbrev pub is_closed : Option (List Text) → LedgerItem F → Bool
  unfolding trim
  is_closed none tx = false
  is_closed (some []) tx = false
  is_closed (some (f ∷ fs)) tx =
      not (any (λ g. text_eq (lower (trim g)) (lower (trim tx.fund))) (f ∷ fs))

  -- A transaction in the entry of its fund.
  abbrev pub booked : LedgerItem F → Entry F → Entry F
  booked tx e =
      if is_redemption tx && not (is_purchase tx)
      then record e {
        sold_amount = floats.plus e.sold_amount (size floats tx.amount);
        sold_units = floats.plus e.sold_units (size floats tx.units);
        sold_count = e.sold_count + 1;
        net_amount = floats.minus e.net_amount (size floats tx.amount);
      }
      else if is_purchase tx
      then record e {
        bought_amount = floats.plus e.bought_amount (size floats tx.amount);
        bought_units = floats.plus e.bought_units (size floats tx.units);
        bought_count = e.bought_count + 1;
        net_amount = floats.plus e.net_amount (size floats tx.amount);
      }
      else e

  -- The map, in the order of its keys.
  abbrev pub book : LedgerItem F → List (Entry F) → List (Entry F)
  book tx [] = booked tx (new_entry floats tx.fund) ∷ []
  book tx (e ∷ es) =
      let rest = book tx es in if text_eq e.fund tx.fund then booked tx e ∷ es else e ∷ rest

  abbrev pub book_all : List (LedgerItem F) → List (Entry F) → List (Entry F)
  book_all [] es = es
  book_all (tx ∷ txs) es = book_all txs (book tx es)

  unfoldable pub grouped_transactions : Bool → Option (Comparison F) → List (Entry F)
  grouped_transactions hide_closed none = []
  grouped_transactions hide_closed (some c) = sort_by_net floats (
      book_all (filter (λ tx. not (hide_closed && is_closed c.active_funds tx)) c.new_transactions)
        [])

  -- The tests of the totals. Unlike the ledger's they read the type of a transaction, when its units
  -- do not decide, without asking whether it has one: `none` is the exception.
  abbrev pub is_bought : LedgerItem F → Option Bool
  is_bought tx =
      if is_above_nil floats tx.units
      then some true
      else tested (λ t. names_purchase (lower t)) tx.type

  abbrev pub is_sold : LedgerItem F → Option Bool
  is_sold tx =
      if is_below_nil floats tx.units
      then some true
      else tested (λ t. names_redemption (lower t)) tx.type

  -- The totals; `none` is the exception.
  unfoldable pub total_bought : Option (Comparison F) → Option F
  total_bought none = some floats.nil
  total_bought (some c) = total_of floats (filter_or_throw is_bought c.new_transactions)

  unfoldable pub total_sold : Option (Comparison F) → Option F
  total_sold none = some floats.nil
  total_sold (some c) = total_of floats (filter_or_throw is_sold c.new_transactions)
