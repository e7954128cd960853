-- ===== src/Budget/MoneyFlow/NoCycle.antt =====
-- What dropCycles gives.
use finance_buddy.Budget.MoneyFlow.{
  Edge, Link, Search, has, numbered, outgoing, without, visit_all, rounds, Colour-cases,
  drop_cycles, searched, visit, without_any, unseen, black,
}
use finance_buddy.Budget.MoneyFlow.Acyclic.{IsOrdered, IsSound, Settled, visit-IsSound}
use finance_buddy.Budget.MoneyFlow.Ends.{AreBelow, is_white, visit_ends}
use finance_buddy.Prelude.{
  All, All-filter, In, In-filter, In-filter_inv, In-map_inv, List, [], arith, false, filter, length,
  nat_eq, not, suc, zero, ℕ, ◌+◌, ◌<◌, ◌∷◌, ◌≡◌, All-In, Bool-cases, ap, inl, inr, nat_eq_iff,
  subst, ◌∙◌, map, refl, sym, All-map, length-filter_le, length-map, ◌≤◌,
}

-- There is a way along links of a list, of one link or more.
pub data Reaches {F : Type 0} (links : List (Link F)) : ℕ → ℕ → Type 0 where
  along : {u v : ℕ} (l : Link F) → In l links → l.source ≡ u → l.target ≡ v → Reaches links u v
  onward : {u v w : ℕ} → Reaches links u v → Reaches links v w → Reaches links u w

pub numbered-All :
    {F : Type 0} (P : Link F → Type 0) (n : ℕ) (links : List (Link F))
    → All P links
    → All (λ e. P e.1) (numbered n links)
numbered-All P n [] h = tt
numbered-All P n (l ∷ links) h = (h.0, numbered-All P (n + 1) links h.1)

without_none :
    {F : Type 0} (n : ℕ) (links : List (Link F))
    → map (λ e. e.1) (filter (λ e. not (has e.0 [])) (numbered n links)) ≡ links
without_none n [] = refl
without_none n (l ∷ links) = ap (◌∷◌ l) (without_none (n + 1) links)

length-numbered :
    {F : Type 0} (n : ℕ) (links : List (Link F)) → length (numbered n links) ≡ length links
length-numbered n [] = refl
length-numbered n (l ∷ links) = omega (arith, length-numbered (n + 1) links)

module _ {F : Type 0} (links : List (Link F)) where
  pub outgoing-AreBelow :
      (n : ℕ)
      → All (λ l. l.target < n) links
      → (u : ℕ) → AreBelow (outgoing links) n (outgoing links u)
  unfolding outgoing
  outgoing-AreBelow n h u =
      All-filter (λ e. e.1.target < n) (λ e. nat_eq e.1.source u) (numbered 0 links)
        (numbered-All (λ l. l.target < n) 0 links h)

  -- An edge of the result was not dropped, and is among those of its source.
  In-without :
      (d : List ℕ) (l : Link F)
      → In l (without d links)
      → (e : Edge F) × In e (outgoing links l.source) × (has e.0 d ≡ false) × (e.1 ≡ l)
  unfolding outgoing
  In-without d l h =
      let m = In-map_inv (λ e. e.1) l (filter (λ e. not (has e.0 d)) (numbered 0 links)) h in
      let k = In-filter_inv (λ e. not (has e.0 d)) m.0 (numbered 0 links) m.1 in
      (
        m.0,
        In-filter (λ e. nat_eq e.1.source l.source) m.0 (numbered 0 links) k.0
            (rw m.2 (ground arith)),
        ground arith,
        m.2,
      )

  -- An edge of the result leads from a node in the order to one in a shorter order.
  edge_down :
      (d : List ℕ) (l : Link F) (u v : ℕ) (order : List ℕ)
      → In l (without d links)
      → l.source ≡ u
      → l.target ≡ v
      → IsOrdered (outgoing links) d order
      → In u order
      → (order' : List ℕ) × IsOrdered (outgoing links) d order'
        × In v order'
        × (length order' < length order)
  edge_down d l u v [] m eu ev o i = elim i [ ]
  edge_down d l u v (x ∷ order) m eu ev o (inr i) =
      let r = edge_down d l u v order m eu ev o.1 i in (r.0, r.1, r.2, omega arith)
  edge_down d l u v (x ∷ order) m eu ev o (inl i) =
      let w = In-without d l m in
      let at_x = subst (λ n. In w.0 (outgoing links n)) (eu ∙ i) w.1 in
      (order, o.1, lands w (All-In (Settled d order) w.0 (outgoing links x) o.0 at_x), omega arith)
    where
      lands :
          (w : (e : Edge F) × In e (outgoing links l.source) × (has e.0 d ≡ false) × (e.1 ≡ l))
          → Settled d order w.0
          → In v order
      lands w (inl k) = cc
      lands w (inr k) = subst (λ n. In n order) (ap (λ (a : Link F). a.target) w.3 ∙ ev) k

  -- From a node in the order, a way leads to a node in a shorter order.
  descend :
      (d : List ℕ) {u v : ℕ} (order : List ℕ)
      → Reaches (without d links) u v
      → IsOrdered (outgoing links) d order
      → In u order
      → (order' : List ℕ) × IsOrdered (outgoing links) d order'
        × In v order'
        × (length order' < length order)
  descend d {u} {v} order (along l m eu ev) o i = edge_down d l u v order m eu ev o i
  descend d order (onward p q) o i =
      let r = descend d order p o i in
      let t = descend d r.0 q r.1 r.2 in (t.0, t.1, t.2, omega arith)

  no_cycle :
      (k : ℕ) (d : List ℕ) (u : ℕ) (order : List ℕ)
      → length order < k
      → IsOrdered (outgoing links) d order
      → In u order
      → ¬ Reaches (without d links) u u
  no_cycle zero d u order l o i p = absurd (omega arith)
  no_cycle (suc k) d u order l o i p =
      let r = descend d order p o i in no_cycle k d u r.0 (omega arith) r.1 r.2 p

  -- When the outer loop ends, there is no frame and no white node.
  visit_all-IsSound :
      (n left root : ℕ) (s : Search F) (order : List ℕ)
      → All (λ l. l.target < n) links
      → root + left ≡ n
      → IsSound (outgoing links) order s
      → s.stack ≡ []
      → ((u : ℕ) → u < root → is_white (s.colour u) ≡ false)
      → let s' = visit_all (outgoing links) (rounds (outgoing links) n) left root s in
        (order' : List ℕ) × IsSound (outgoing links) order' s'
        × (s'.stack ≡ [])
        × ((u : ℕ) → u < n → is_white (s'.colour u) ≡ false)
  unfolding visit_all
  visit_all-IsSound n zero root s order b e h st w = (order, h, st, λ u l. w u (omega arith))
  visit_all-IsSound n (suc left) root s order b e h st w =
      let out = outgoing links in
      let v = visit-IsSound out (rounds out n) root s order h st in
      let r = visit_ends out n root s (outgoing-AreBelow n b) (omega arith) st in
      visit_all-IsSound n left (root + 1) (visit out (rounds out n) root s) v.0 b (omega arith) v.1
        r.0
        (λ u l. elim (Bool-cases (nat_eq u root)) [
          | inl k ↦ rw ((nat_eq_iff u root).0 k) r.1
          | inr k ↦ r.2 u (w u (ground arith))
        ])

  searched-IsSound :
      (n : ℕ)
      → All (λ l. l.target < n) links
      → (order : List ℕ) × IsSound (outgoing links) order (searched n links)
        × ((searched n links).stack ≡ [])
        × ((u : ℕ) → u < n → is_white ((searched n links).colour u) ≡ false)
  unfolding searched
  searched-IsSound n targets =
      visit_all-IsSound n n 0 unseen [] targets (omega arith) (tt, tt, λ v. ((λ h. cc), (λ h. cc)))
        refl (λ v l. absurd (omega arith))

  -- With no frame left, a node that is not white is black.
  is_black :
      (order : List ℕ) (s : Search F) (u : ℕ)
      → IsSound (outgoing links) order s
      → s.stack ≡ []
      → is_white (s.colour u) ≡ false
      → s.colour u ≡ black
  is_black order s u h st w = elim (Colour-cases (s.colour u)) [
    | inl g ↦ cc (rw g at w)
    | inr (inl g) ↦ elim (rw st at ((h.2 u).1 g)) [ ]
    | inr (inr g) ↦ g
  ]

  -- If every link leads to a node below `n`, the rounds allowed are enough: both loops of the search
  -- end by their tests, with no frame left and with every node below `n` black.
  pub searched_ends :
      (n u : ℕ)
      → All (λ l. l.target < n) links
      → u < n
      → ((searched n links).stack ≡ []) × ((searched n links).colour u ≡ black)
  searched_ends n u targets l =
      let r = searched-IsSound n targets in
      (r.2, is_black r.0 (searched n links) u r.1 r.2 (r.3 u l))

  without_any-eq : (d : List ℕ) → without_any d links ≡ without d links
  without_any-eq [] = sym (without_none 0 links)
  without_any-eq (n ∷ d) = refl

  start_below :
      (n : ℕ) (d : List ℕ) {u v : ℕ}
      → All (λ l. l.source < n) links
      → Reaches (without d links) u v
      → u < n
  unfolding outgoing
  start_below n d sources (along l m eu ev) =
      let w = In-without d l m in
      let below : w.0.1.source < n =
        All-In (λ e. e.1.source < n) w.0 (outgoing links l.source)
          (All-filter (λ e. e.1.source < n) (λ e. nat_eq e.1.source l.source) (numbered 0 links)
            (numbered-All (λ l. l.source < n) 0 links sources))
          w.1 in
      subst (λ k. k < n) (ap (λ (a : Link F). a.source) w.3 ∙ eu) below
  start_below n d sources (onward p q) = start_below n d sources p

  -- If the links lead between nodes below `n`, no way along the links that are kept leads from a node
  -- to itself.
  pub drop_cycles-acyclic :
      (n : ℕ)
      → All (λ l. l.source < n) links
      → All (λ l. l.target < n) links
      → (u : ℕ) → ¬ Reaches (drop_cycles n links) u u
  unfolding drop_cycles
  drop_cycles-acyclic n sources targets u p =
      let s = searched n links in
      let p' = subst (λ ls. Reaches ls u u) (without_any-eq s.dropped) p in
      let r = searched-IsSound n targets in
      let b = is_black r.0 s u r.1 r.2 (r.3 u (start_below n s.dropped sources p')) in
      no_cycle (suc (length r.0)) s.dropped u r.0 (omega arith) r.1.0 ((r.1.2 u).0 b) p'

  pub drop_cycles-All : (P : Link F → Type 0) (n : ℕ) → All P links → All P (drop_cycles n links)
  unfolding drop_cycles
  drop_cycles-All P n h =
      let d = (searched n links).dropped in
      rw (without_any-eq d) (
        All-map P (λ e. e.1) (filter (λ e. not (has e.0 d)) (numbered 0 links))
          (All-filter (λ e. P e.1) (λ e. not (has e.0 d)) (numbered 0 links)
            (numbered-All P 0 links h)))

  pub length-drop_cycles_le : (n : ℕ) → length (drop_cycles n links) ≤ length links
  unfolding drop_cycles
  length-drop_cycles_le n =
      let d = (searched n links).dropped in
      rw (without_any-eq d) (
        omega (
          arith,
          length-map (λ e. e.1) (filter (λ e. not (has e.0 d)) (numbered 0 links)),
          length-filter_le (λ e. not (has e.0 d)) (numbered 0 links),
          length-numbered 0 links,
        ))
