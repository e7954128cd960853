-- ===== src/Budget/Transactions/Selection.antt =====
-- What is selected is on the list, so that a bulk update changes what the user has seen.
use finance_buddy.Budget.Transactions.{
  add_id, add_ids, has_id, Tab, visible, Filters, ids_of, filtered,
}
use finance_buddy.Budget.Transactions.Events.{
  category_typed, handle_select_all, handle_select_row, handler, page_effect, step,
  selection_effect, Reached, same_filters, bulk_start, Event, begun, bulk_settled, IsOffered,
  stepped, start_edit, same_list, edit_settled, received, filters_set, all_toggled, row_toggled,
  bulk_answered, edit_started, edit_typed, edit_answered, page_turned, rows_set, bulk_applied,
  edit_cancelled, edit_saved,
}
use finance_buddy.Prelude.{
  Bool, Bool-cases, In, In-append_inv, In-drop, In-filter_inv, In-map, In-map_inv, In-take, List,
  Text, [], arith, drop, false, if◌then◌else◌, inl, inr, length, nat_eq, not, refl, subst, text_eq,
  text_eq_refl, text_eq→eq, true, ◌&&◌, ◌*◌, ◌∷◌, ◌≡◌, ◌⊎◌, ◌++◌,
}

In-append_end : (id j : Text) (ids : List Text) → In j (ids ++ (id ∷ [])) → In j ids ⊎ (j ≡ id)
In-append_end id j ids h = elim (In-append_inv j ids (id ∷ []) h) [
  | inl m ↦ inl m
  | inr m ↦ elim m [ inl e ↦ inr e | inr n ↦ elim n [ ] ]
]

In-add_id : (id j : Text) (ids : List Text) → In j (add_id ids id) → In j ids ⊎ (j ≡ id)
In-add_id id j ids h = elim (Bool-cases (has_id ids id)) [
  | inl k ↦ inl (rw k at h)
  | inr k ↦ In-append_end id j ids (rw k at h)
]

In-add_ids : (j : Text) (ids more : List Text) → In j (add_ids ids more) → In j ids ⊎ In j more
In-add_ids j ids [] h = inl h
In-add_ids j ids (id ∷ more) h = elim (In-add_ids j (add_id ids id) more h) [
  | inl m ↦ elim (In-add_id id j ids m) [ inl n ↦ inl n | inr e ↦ inr (inl e) ]
  | inr m ↦ inr (inr m)
]

pub has_id→In : (id : Text) (ids : List Text) → has_id ids id ≡ true → In id ids
has_id→In id [] h = cc
has_id→In id (j ∷ ids) h = elim (Bool-cases (text_eq id j)) [
  | inl k ↦ inl (text_eq→eq id j k)
  | inr k ↦ inr (has_id→In id ids (rw k at h))
]

pub In→has_id : (id : Text) (ids : List Text) → In id ids → has_id ids id ≡ true
In→has_id id [] m = elim m [ ]
In→has_id id (j ∷ ids) (inl e) = rw (e, text_eq_refl j) refl
In→has_id id (j ∷ ids) (inr m) = let r = In→has_id id ids m in ground arith

same_bool→eq : (a b : Bool) → (if a then b else not b) ≡ true → a ≡ b
same_bool→eq a b h = ground arith

same_filters→eq : (f g : Filters) → same_filters f g ≡ true → f ≡ g
same_filters→eq f g h =
    rw
      (
        text_eq→eq f.bank g.bank (ground arith),
        text_eq→eq f.flow g.flow (ground arith),
        text_eq→eq f.account_type g.account_type (ground arith),
        same_bool→eq f.review g.review (ground arith),
        text_eq→eq f.search g.search (ground arith),
      )
      refl

module _ {F : Type 0} (lower upper : Text → Text) where
  -- Every id that is selected is one of the list's.
  abbrev pub IsWithin : Tab F → Type 0
  IsWithin s = (id : Text) → In id s.selected → In id (ids_of (filtered lower upper s))

  In-visible :
      (id : Text) (s : Tab F)
      → In id (ids_of (visible lower upper s))
      → In id (ids_of (filtered lower upper s))
  unfolding visible
  In-visible id s m =
      let r = In-map_inv (λ t. t.txn_id) id (visible lower upper s) m in
      let all = filtered lower upper s in
      subst (λ j. In j (ids_of all)) r.2
        (In-map (λ t. t.txn_id) r.0 all
          (In-drop r.0 (s.page * s.rows_per_page) all
            (In-take r.0 s.rows_per_page (drop (s.page * s.rows_per_page) all) r.1)))

  select_all-IsWithin :
      (checked : Bool) (s : Tab F) → IsWithin (handle_select_all lower upper checked s)
  unfolding handle_select_all filtered
  select_all-IsWithin true s id m = elim (In-add_ids id [] (ids_of (filtered lower upper s)) m) [
    | inl n ↦ elim n [ ]
    | inr n ↦ n
  ]
  select_all-IsWithin false s id m = elim m [ ]

  select_row-IsWithin :
      (id : Text) (s : Tab F)
      → In id (ids_of (visible lower upper s))
      → IsWithin s
      → IsWithin (handle_select_row id s)
  unfolding handle_select_row filtered
  select_row-IsWithin id s v h j m = elim (Bool-cases (has_id s.selected id)) [
    | inl k ↦ h j (In-filter_inv (λ i. not (text_eq id i)) j s.selected (rw k at m)).0
    | inr k ↦ elim (In-append_end id j s.selected (rw k at m)) [
      | inl n ↦ h j n
      | inr e ↦ rw e (In-visible id s v)
    ]
  ]

  handler-IsWithin :
      (e : Event F) (s : Tab F)
      → IsOffered lower upper e s
      → IsWithin s
      → same_list s (handler lower upper e s) ≡ true
      → IsWithin (handler lower upper e s)
  unfolding handler filtered bulk_start bulk_settled start_edit edit_settled
  handler-IsWithin (received ts) s o h k = absurd (ground arith)
  handler-IsWithin (filters_set f) s o h k =
      subst (λ g. IsWithin (record s { filters = g })) (same_filters→eq s.filters f (ground arith))
        h
  handler-IsWithin (all_toggled checked) s o h k = select_all-IsWithin checked s
  handler-IsWithin (row_toggled id) s o h k = select_row-IsWithin id s o h
  handler-IsWithin (category_typed t) s o h k = h
  handler-IsWithin bulk_applied s o h k = h
  handler-IsWithin (bulk_answered true) s o h k = λ id m. elim m [ ]
  handler-IsWithin (bulk_answered false) s o h k = h
  handler-IsWithin (edit_started t) s o h k = h
  handler-IsWithin edit_cancelled s o h k = h
  handler-IsWithin (edit_typed c n) s o h k = h
  handler-IsWithin edit_saved s o h k = h
  handler-IsWithin (edit_answered true) s o h k = h
  handler-IsWithin (edit_answered false) s o h k = h
  handler-IsWithin (page_turned p) s o h k = h
  handler-IsWithin (rows_set n) s o h k = h

  page_effect-IsWithin :
      (old new : Tab F) → IsWithin new → IsWithin (page_effect lower upper old new)
  unfolding page_effect filtered
  page_effect-IsWithin old new h =
      elim (Bool-cases (
        nat_eq (length (filtered lower upper old)) (length (filtered lower upper new))
        && nat_eq old.rows_per_page new.rows_per_page)) [ inl k ↦ rw k h | inr k ↦ rw k h ]

  step-IsWithin :
      (e : Event F) (s : Tab F)
      → IsOffered lower upper e s
      → IsWithin s
      → IsWithin (step lower upper e s)
  unfolding step selection_effect
  step-IsWithin e s o h =
      page_effect-IsWithin s (selection_effect lower upper s (handler lower upper e s))
        (elim (Bool-cases (same_list s (handler lower upper e s))) [
          | inl k ↦ rw k (handler-IsWithin e s o h k)
          | inr k ↦ rw k (λ id m. elim m [ ])
        ])

  -- Whatever the user and the server do, the ids that are selected are those of transactions that pass
  -- the filters.
  pub Reached-IsWithin : (s : Tab F) → Reached lower upper s → IsWithin s
  Reached-IsWithin s (begun ts) = λ id m. elim m [ ]
  Reached-IsWithin t (stepped {s} e p o) = step-IsWithin e s o (Reached-IsWithin s p)
