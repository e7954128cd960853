-- ===== src/Budget/Transactions/Paging.antt =====
-- The page stays in range.
use finance_buddy.Budget.Transactions.{Tab, filtered, visible}
use finance_buddy.Budget.Transactions.Events.{
  rows_set, page_effect, handler, bulk_start, bulk_settled, start_edit, edit_settled,
  handle_select_all, handle_select_row, Event, IsOffered, selection_effect, same_list, step,
  received, Reached, filters_set, all_toggled, row_toggled, stepped, category_typed, bulk_answered,
  edit_started, edit_typed, edit_answered, page_turned, bulk_applied, edit_cancelled, edit_saved,
  begun,
}
use finance_buddy.Prelude.{
  Bool-cases, Text, arith, inl, inr, leb, length, nat_eq, refl, ◌&&◌, ◌*◌, ◌<◌, ◌∙◌, ◌≡◌, ◌⊎◌, ℕ,
  drop, false, length-drop, length-take, true, ◌↔◌, ◌≤◌, List, take, ◌+◌,
}

bounded : (p p' r r' c c' : ℕ) → p' ≡ p → c ≡ c' → r ≡ r' → p * r < c → p' * r' < c'
bounded p p' r r' c c' ep ec er h = rw (ep, ← ec, ← er) h

slice-shown :
    {A : Type 0} (start n : ℕ) (xs : List A)
    → 0 < n
    → (0 < length (take n (drop start xs)) ↔ start < length xs)
slice-shown start n xs p =
    let a = length-take n (drop start xs) in
    let b = length-drop start xs in (λ h. omega (arith, a, b, h), λ h. omega (arith, a, b, h))

first : (page rows count : ℕ) → page ≡ 0 → 0 < count → page * rows < count
first page rows count e h = rw e (omega (arith, h))

module _ {F : Type 0} (lower upper : Text → Text) where
  -- The first page, or one that begins before the list ends.
  abbrev pub IsInRange : Tab F → Type 0
  IsInRange s = (s.page ≡ 0) ⊎ (s.page * s.rows_per_page < length (filtered lower upper s))

  page_effect-IsInRange :
      (old new : Tab F)
      → (length (filtered lower upper old) ≡ length (filtered lower upper new)
          → old.rows_per_page ≡ new.rows_per_page
          → IsInRange new)
      → IsInRange (page_effect lower upper old new)
  unfolding page_effect filtered
  page_effect-IsInRange old new h =
      let count = length (filtered lower upper new) in
      elim (Bool-cases (
        nat_eq (length (filtered lower upper old)) count
        && nat_eq old.rows_per_page new.rows_per_page)) [
          | inl k ↦ rw k (h (ground arith) (ground arith))
          | inr k ↦ elim (Bool-cases (leb count (new.page * new.rows_per_page))) [
            | inl m ↦ rw (k, m) (inl refl)
            | inr m ↦ rw (k, m) (inr (ground arith))
          ]
        ]

  -- With as many transactions and rows as before, and the same page, the page is still in range.
  unmoved :
      (old new : Tab F)
      → new.page ≡ old.page
      → IsInRange old
      → length (filtered lower upper old) ≡ length (filtered lower upper new)
      → old.rows_per_page ≡ new.rows_per_page
      → IsInRange new
  unmoved old new p (inl e) l r = inl (p ∙ e)
  unmoved old new p (inr e) l r =
      inr (bounded old.page new.page old.rows_per_page new.rows_per_page _ _ p l r e)

  handler-IsInRange :
      (e : Event F) (s : Tab F)
      → IsOffered lower upper e s
      → IsInRange s
      → let new = handler lower upper e s in
        length (filtered lower upper s) ≡ length (filtered lower upper new)
        → s.rows_per_page ≡ new.rows_per_page
        → IsInRange new
  unfolding handler filtered bulk_start bulk_settled start_edit edit_settled handle_select_all
      handle_select_row
  handler-IsInRange (received ts) s o h l r =
      unmoved s (record s { transactions = ts; revision = s.revision + 1 }) refl h l r
  handler-IsInRange (filters_set f) s o h l r = unmoved s (record s { filters = f }) refl h l r
  handler-IsInRange (all_toggled checked) s o h l r = h
  handler-IsInRange (row_toggled id) s o h l r = h
  handler-IsInRange (category_typed t) s o h l r = h
  handler-IsInRange bulk_applied s o h l r = h
  handler-IsInRange (bulk_answered true) s o h l r = h
  handler-IsInRange (bulk_answered false) s o h l r = h
  handler-IsInRange (edit_started t) s o h l r = h
  handler-IsInRange edit_cancelled s o h l r = h
  handler-IsInRange (edit_typed c n) s o h l r = h
  handler-IsInRange edit_saved s o h l r = h
  handler-IsInRange (edit_answered true) s o h l r = h
  handler-IsInRange (edit_answered false) s o h l r = h
  handler-IsInRange (page_turned p) s o h l r = inr o
  handler-IsInRange (rows_set n) s o h l r = inl refl

  -- The effect on the selection changes neither the page nor the list.
  selection_effect-IsInRange :
      (old new : Tab F)
      → (length (filtered lower upper old) ≡ length (filtered lower upper new)
          → old.rows_per_page ≡ new.rows_per_page
          → IsInRange new)
      → let after = selection_effect lower upper old new in
        length (filtered lower upper old) ≡ length (filtered lower upper after)
        → old.rows_per_page ≡ after.rows_per_page
        → IsInRange after
  unfolding selection_effect filtered
  selection_effect-IsInRange old new h l r = elim (Bool-cases (same_list old new)) [
    | inl k ↦ rw k (h (rw k at l) (rw k at r))
    | inr k ↦ rw k (h (rw k at l) (rw k at r))
  ]

  -- Whatever the user and the server do, the page is the first or begins before the list ends.
  pub Reached-IsInRange : (s : Tab F) → Reached lower upper s → IsInRange s
  unfolding step
  Reached-IsInRange s (begun ts) = inl refl
  Reached-IsInRange t (stepped {s} e p o) =
      page_effect-IsInRange s (selection_effect lower upper s (handler lower upper e s)) (
        selection_effect-IsInRange s (handler lower upper e s)
          (handler-IsInRange e s o (Reached-IsInRange s p)))

  -- In a state that is reached, with at least one row to a page, the page that is shown has a row
  -- exactly if a transaction passes the filters, and it has no more rows than asked for.
  pub visible-shown :
      (s : Tab F)
      → Reached lower upper s
      → 0 < s.rows_per_page
      → (0 < length (visible lower upper s) ↔ 0 < length (filtered lower upper s))
        × (length (visible lower upper s) ≤ s.rows_per_page)
  unfolding visible
  visible-shown s r p =
      let all = filtered lower upper s in
      let begin = s.page * s.rows_per_page in
      let shown = slice-shown begin s.rows_per_page all p in
      (
        (
          λ h. let k = shown.0 h in omega (arith, k),
          λ h. shown.1 (elim (Reached-IsInRange s r) [
            | inl e ↦ first s.page s.rows_per_page (length all) e h
            | inr e ↦ e
          ]),
        ),
        omega (arith, length-take s.rows_per_page (drop begin all)),
      )
