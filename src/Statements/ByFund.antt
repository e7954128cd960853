-- ===== src/Statements/ByFund.antt =====
-- The entry of each fund in the ledger.
use finance_buddy.Prelude.{
  Bool, Bool-cases, List, Option, Text, [], arith, filter, if◌then◌else◌, inl, inr, none, not, refl,
  ap, sym, some, text_eq, text_eq_iff, ◌&&◌, ◌∙◌, ◌∷◌, ◌≡◌,
}
use finance_buddy.Statements.Ledger.{
  Comparison, Entry, Floats, LedgerItem, book, book_all, booked, grouped_transactions, is_closed,
  new_entry, sort_by_net, sorted_in,
}
use finance_buddy.Store.{given}

-- The first entry of a fund.
abbrev pub entry_of : {F : Type 0} → Text → List (Entry F) → Option (Entry F)
entry_of fund [] = none
entry_of fund (e ∷ es) = let rest = entry_of fund es in if text_eq e.fund fund then some e else rest

-- No fund has two entries.
abbrev AreApart : {F : Type 0} → List (Entry F) → Type 0
AreApart [] = Unit
AreApart (e ∷ es) = (entry_of e.fund es ≡ none) × AreApart es

module _ {F : Type 0} (floats : Floats F) where
  entry_of-sorted_in :
      (fund : Text) (e : Entry F) (es : List (Entry F))
      → entry_of e.fund es ≡ none
      → entry_of fund (sorted_in floats e es)
        ≡ (if text_eq e.fund fund then some e else entry_of fund es)
  entry_of-sorted_in fund e [] h = refl
  entry_of-sorted_in fund e (x ∷ xs) h =
      elim (Bool-cases (floats.is_smaller (floats.abs e.net_amount) (floats.abs x.net_amount))) [
        | inl k ↦ rw k (
            ground (
              arith,
              h,
              entry_of-sorted_in fund e xs (ground (arith, h)),
              text_eq_iff e.fund fund,
              text_eq_iff x.fund fund,
              text_eq_iff x.fund e.fund,
            ))
        | inr k ↦ rw k refl
      ]

  entry_of-sort_by_net :
      (fund : Text) (es : List (Entry F))
      → AreApart es
      → entry_of fund (sort_by_net floats es) ≡ entry_of fund es
  entry_of-sort_by_net fund [] h = refl
  entry_of-sort_by_net fund (e ∷ es) h =
      entry_of-sorted_in fund e (sort_by_net floats es) (entry_of-sort_by_net e.fund es h.1 ∙ h.0)
      ∙ rw (entry_of-sort_by_net fund es h.1) refl

module _ {F : Type 0} (floats : Floats F) (lower : Text → Text) where
  -- Transactions booked one after the other in the entry of their fund, which is made by the first.
  abbrev pub booked_in_turn : Text → List (LedgerItem F) → Option (Entry F) → Option (Entry F)
  booked_in_turn fund [] e = e
  booked_in_turn fund (tx ∷ txs) e =
      booked_in_turn fund txs (some (booked floats lower tx (given e (new_entry floats fund))))

  booked-fund : (tx : LedgerItem F) (e : Entry F) → (booked floats lower tx e).fund ≡ e.fund
  booked-fund tx e = ground arith

  entry_of-booked :
      (fund : Text) (tx : LedgerItem F) (e : Entry F) (es : List (Entry F))
      → entry_of fund (booked floats lower tx e ∷ es)
        ≡ (if text_eq e.fund fund then some (booked floats lower tx e) else entry_of fund es)
  entry_of-booked fund tx e es =
      ap (λ f. if text_eq f fund then some (booked floats lower tx e) else entry_of fund es)
        (booked-fund tx e)

  entry_of-book :
      (fund : Text) (tx : LedgerItem F) (es : List (Entry F))
      → entry_of fund (book floats lower tx es) ≡ (
          if text_eq tx.fund fund
          then some (booked floats lower tx (given (entry_of fund es) (new_entry floats fund)))
          else entry_of fund es)
  entry_of-book fund tx [] = elim (Bool-cases (text_eq tx.fund fund)) [
    | inl k ↦ rw (booked-fund tx (new_entry floats tx.fund), k, (text_eq_iff tx.fund fund).0 k) refl
    | inr k ↦ rw (booked-fund tx (new_entry floats tx.fund), k) refl
  ]
  entry_of-book fund tx (e ∷ es) = elim (Bool-cases (text_eq e.fund tx.fund)) [
    | inl k ↦ rw k (
        entry_of-booked fund tx e es
        ∙ rw (sym ((text_eq_iff e.fund tx.fund).0 k))
            (elim (Bool-cases (text_eq e.fund fund)) [ inl j ↦ rw j refl | inr j ↦ rw j refl ]))
    | inr k ↦ rw k (
        ground (
          arith,
          k,
          entry_of-book fund tx es,
          text_eq_iff e.fund tx.fund,
          text_eq_iff e.fund fund,
          text_eq_iff tx.fund fund,
        ))
  ]

  entry_of-book_all :
      (fund : Text) (txs : List (LedgerItem F)) (es : List (Entry F))
      → entry_of fund (book_all floats lower txs es)
        ≡ booked_in_turn fund (filter (λ tx. text_eq tx.fund fund) txs) (entry_of fund es)
  entry_of-book_all fund [] es = refl
  entry_of-book_all fund (tx ∷ txs) es =
      entry_of-book_all fund txs (book floats lower tx es)
      ∙ elim (Bool-cases (text_eq tx.fund fund)) [
        | inl k ↦ rw (entry_of-book fund tx es, k) refl
        | inr k ↦ rw (entry_of-book fund tx es, k) refl
      ]

  AreApart-book :
      (tx : LedgerItem F) (es : List (Entry F)) → AreApart es → AreApart (book floats lower tx es)
  AreApart-book tx [] h = (refl, tt)
  AreApart-book tx (e ∷ es) h = elim (Bool-cases (text_eq e.fund tx.fund)) [
    | inl k ↦ rw k (rw (booked-fund tx e) h.0, h.1)
    | inr k ↦ rw k (
      ground (
        arith,
        k,
        h.0,
        entry_of-book e.fund tx es,
        text_eq_iff e.fund tx.fund,
        text_eq_iff tx.fund e.fund,
      ),
      AreApart-book tx es h.1,
    )
  ]

  AreApart-book_all :
      (txs : List (LedgerItem F)) (es : List (Entry F))
      → AreApart es
      → AreApart (book_all floats lower txs es)
  AreApart-book_all [] es h = h
  AreApart-book_all (tx ∷ txs) es h =
      AreApart-book_all txs (book floats lower tx es) (AreApart-book tx es h)

-- The ledger's entry of a fund, wherever it is sorted to, is what the fund's own transactions make
-- when they are booked in their order, leaving out those of closed funds if these are hidden; a fund
-- with no such transaction has no entry.
pub entry_of-grouped_transactions :
    {F : Type 0} (floats : Floats F) (lower : Text → Text) (hide_closed : Bool) (c : Comparison F)
    (fund : Text)
    → entry_of fund (grouped_transactions floats lower hide_closed (some c))
      ≡ booked_in_turn floats lower fund
          (filter
            (λ tx. text_eq tx.fund fund)
            (filter
              (λ tx. not (hide_closed && is_closed floats lower c.active_funds tx))
              c.new_transactions))
          none
unfolding grouped_transactions
entry_of-grouped_transactions floats lower hide_closed c fund =
    let txs =
      filter (λ tx. not (hide_closed && is_closed floats lower c.active_funds tx))
        c.new_transactions in
    entry_of-sort_by_net floats fund (book_all floats lower txs [])
      (AreApart-book_all floats lower txs [] tt)
    ∙ entry_of-book_all floats lower fund txs []
