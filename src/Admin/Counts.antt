-- ===== src/Admin/Counts.antt =====
-- The counts of access requests and the lists behind them.
use finance_buddy.Admin.{
  stats, filtered_requests, AccessRequest, pending_requests, approved_requests, all_requests,
  is_approved, request_matches,
}
use finance_buddy.Prelude.{
  Bool, List, Text, [], arith, filter, length, not, refl, true, ◌&&◌, ◌+◌, ◌∷◌, ◌≡◌, sym, ◌∙◌,
}

count-split :
    {A : Type 0} (p q : A → Bool) (xs : List A)
    → length (filter (λ x. p x && not (q x)) xs) + length (filter (λ x. p x && q x) xs)
      ≡ length (filter p xs)
count-split p q [] = omega arith
count-split p q (x ∷ xs) = ground (arith, count-split p q xs)

count-not :
    {A : Type 0} (q : A → Bool) (xs : List A)
    → length (filter (λ x. not (q x)) xs) + length (filter q xs) ≡ length xs
count-not q [] = omega arith
count-not q (x ∷ xs) = ground (arith, count-not q xs)

count-true :
    {A : Type 0} (p : A → Bool) (xs : List A)
    → length (filter (λ x. p x && true) xs) ≡ length (filter p xs)
count-true p [] = refl
count-true p (x ∷ xs) = ground (arith, count-true p xs)

-- The pending and the approved requests are together all; and for any search text, those that the
-- filters for pending and for approved requests show are together as many as without a filter.
requests-partition :
    (lower : Text → Text) (search : Text) (requests : List AccessRequest)
    → let s = stats lower requests in
      (s.pending + s.approved ≡ s.total)
      × (length (filtered_requests lower search pending_requests requests)
            + length (filtered_requests lower search approved_requests requests)
          ≡ length (filtered_requests lower search all_requests requests))
unfolding stats filtered_requests
requests-partition lower search requests = (
  count-not (λ r. is_approved lower r.status) requests,
  count-split (request_matches lower search) (λ r. is_approved lower r.status) requests
      ∙ sym (count-true (request_matches lower search) requests),
)
