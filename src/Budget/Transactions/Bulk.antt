-- ===== src/Budget/Transactions/Bulk.antt =====
-- What a bulk update sends.
use finance_buddy.Budget.Transactions.{Transaction, filtered, Update, Tab, has_id, ids_of}
use finance_buddy.Budget.Transactions.Events.{bulk_request, update_of, Reached}
use finance_buddy.Budget.Transactions.Selection.{Reached-IsWithin, has_id→In, In→has_id}
use finance_buddy.Prelude.{
  All, Bool-cases, In, In-filter, In-filter_inv, In-map, In-map_inv, List, Text, [], ap, arith,
  false, filter, inl, inr, is_empty, length, map, nat_eq, refl, some, subst, sym, ◌||◌, ◌↔◌, ◌∙◌,
  ◌∷◌, ◌≡◌,
}

All-of_category :
    {F : Type 0} (category : Text) (ts : List (Transaction F))
    → All (λ (u : Update). u.category ≡ category) (map (update_of category) ts)
All-of_category category [] = tt
All-of_category category (t ∷ ts) = (refl, All-of_category category ts)

module _ {F : Type 0} (lower upper : Text → Text) where
  In-sent :
      (s : Tab F) (id : Text)
      → let chosen = filter (λ t. has_id s.selected t.txn_id) (filtered lower upper s) in
        In id (map (λ (u : Update). u.txn_id) (map (update_of s.bulk_category) chosen))
        → In id s.selected
  unfolding filtered
  In-sent s id m =
      let all = filtered lower upper s in
      let chosen = filter (λ t. has_id s.selected t.txn_id) all in
      let u = In-map_inv (λ (u : Update). u.txn_id) id (map (update_of s.bulk_category) chosen) m in
      let t = In-map_inv (update_of s.bulk_category) u.0 chosen u.1 in
      let k = In-filter_inv (λ t. has_id s.selected t.txn_id) t.0 all t.1 in
      subst (λ j. In j s.selected) (ap (λ (u : Update). u.txn_id) t.2 ∙ u.2)
        (has_id→In t.0.txn_id s.selected k.1)

  In-selected :
      (s : Tab F) (id : Text)
      → In id s.selected
      → In id (ids_of (filtered lower upper s))
      → let chosen = filter (λ t. has_id s.selected t.txn_id) (filtered lower upper s) in
        In id (map (λ (u : Update). u.txn_id) (map (update_of s.bulk_category) chosen))
  unfolding filtered
  In-selected s id m w =
      let all = filtered lower upper s in
      let chosen = filter (λ t. has_id s.selected t.txn_id) all in
      let t = In-map_inv (λ t. t.txn_id) id all w in
      let k =
        In-filter (λ t. has_id s.selected t.txn_id) t.0 all t.1
          (In→has_id t.0.txn_id s.selected (subst (λ j. In j s.selected) (sym t.2) m)) in
      subst (λ j. In j (map (λ (u : Update). u.txn_id) (map (update_of s.bulk_category) chosen)))
        t.2
        (In-map (λ (u : Update). u.txn_id) (update_of s.bulk_category t.0)
          (map (update_of s.bulk_category) chosen)
          (In-map (update_of s.bulk_category) t.0 chosen k))

  -- In a state that is reached, the updates that a bulk update sends are for exactly the ids that are
  -- selected, and each has the category that was typed, which is not empty.
  pub bulk_request-sends :
      (s : Tab F) (us : List Update)
      → Reached lower upper s
      → bulk_request lower upper s ≡ some us
      → ((id : Text) → In id (map (λ (u : Update). u.txn_id) us) ↔ In id s.selected)
        × All (λ (u : Update). u.category ≡ s.bulk_category) us
        × (is_empty s.bulk_category ≡ false)
  unfolding bulk_request
  bulk_request-sends s us r h =
      elim (Bool-cases (is_empty s.bulk_category || nat_eq (length s.selected) 0)) [
        | inl k ↦ cc (rw k at h)
        | inr k ↦
            let chosen = filter (λ t. has_id s.selected t.txn_id) (filtered lower upper s) in
            let e : map (update_of s.bulk_category) chosen ≡ us = cc (rw k at h) in
            rw (← e) (
              λ id. (In-sent s id, λ m. In-selected s id m (Reached-IsWithin lower upper s r id m)),
              All-of_category s.bulk_category chosen,
              ground arith,
            )
      ]
