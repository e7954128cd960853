-- ===== src/Budget/MoneyFlow/Acyclic.antt =====
-- The order in which dropCycles finishes the nodes, and what it says of their edges.
use finance_buddy.Budget.MoneyFlow.{
  grey, Colour, Search, has, black, Frame, Edge, paint, look, turn, visit, Colour-cases, drain,
  nodes_of,
}
use finance_buddy.Prelude.{
  All, In, List, [], inl, inr, true, ℕ, ◌++◌, ◌∷◌, ◌≡◌, ◌⊎◌, All-append, All-mono, append_assoc,
  arith, sym, ◌∙◌, Bool-cases, false, nat_eq, nat_eq_iff, refl, append-nil, length, ltb, suc, zero,
}

-- An edge is dropped or leads into a list of nodes.
abbrev pub Settled : {F : Type 0} → List ℕ → List ℕ → Edge F → Type 0
Settled dropped nodes e = (has e.0 dropped ≡ true) ⊎ In e.1.target nodes

module _ {F : Type 0} (out : ℕ → List (Edge F)) where
  -- Every edge of a finished node is dropped or leads to one that was finished before it.
  abbrev pub IsOrdered : List ℕ → List ℕ → Type 0
  IsOrdered dropped [] = Unit
  IsOrdered dropped (u ∷ order) = All (Settled dropped order) (out u) × IsOrdered dropped order

  -- The edges of a node are those that are settled and those still to come.
  abbrev pub IsHalfway : List ℕ → List ℕ → Frame F → Type 0
  IsHalfway dropped nodes f =
      (done : List (Edge F)) × (out f.0 ≡ done ++ f.1) × All (Settled dropped nodes) done

  -- The edges of a frame lead to finished nodes, except for the one to the frame above it.
  abbrev pub AreHalfway : List ℕ → List ℕ → List ℕ → List (Frame F) → Type 0
  AreHalfway dropped order nodes [] = Unit
  AreHalfway dropped order nodes (f ∷ fs) =
      IsHalfway dropped nodes f × AreHalfway dropped order (f.0 ∷ order) fs

  abbrev pub IsColoured : (ℕ → Colour) → List ℕ → List (Frame F) → ℕ → Type 0
  IsColoured colour order stack u =
      (colour u ≡ black → In u order) × (colour u ≡ grey → In u (nodes_of stack))

  -- With the nodes in the order in which they were finished, the last one first.
  abbrev pub IsSound : List ℕ → Search F → Type 0
  IsSound order s =
      IsOrdered s.dropped order
      × AreHalfway s.dropped order order s.stack
      × ((u : ℕ) → IsColoured s.colour order s.stack u)

  Settled-mono :
      (d d' ns ns' : List ℕ)
      → ((n : ℕ) → has n d ≡ true → has n d' ≡ true)
      → ((n : ℕ) → In n ns → In n ns')
      → (e : Edge F) → Settled d ns e
      → Settled d' ns' e
  Settled-mono d d' ns ns' hd hn e (inl h) = inl (hd e.0 h)
  Settled-mono d d' ns ns' hd hn e (inr h) = inr (hn e.1.target h)

  AreHalfway-mono :
      (d d' order order' ns ns' : List ℕ) (fs : List (Frame F))
      → ((n : ℕ) → has n d ≡ true → has n d' ≡ true)
      → ((n : ℕ) → In n order → In n order')
      → ((n : ℕ) → In n ns → In n ns')
      → AreHalfway d order ns fs
      → AreHalfway d' order' ns' fs
  AreHalfway-mono d d' order order' ns ns' [] hd ho hn h = tt
  AreHalfway-mono d d' order order' ns ns' (f ∷ fs) hd ho hn h = (
    (
      h.0.0,
      h.0.1,
      All-mono (Settled d ns) (Settled d' ns') h.0.0 (Settled-mono d d' ns ns' hd hn) h.0.2,
    ),
    AreHalfway-mono d d' order order' (f.0 ∷ order) (f.0 ∷ order') fs hd ho (below f.0) h.1,
  )
    where
      below : (m n : ℕ) → In n (m ∷ order) → In n (m ∷ order')
      below m n (inl e) = inl e
      below m n (inr k) = inr (ho n k)

  IsOrdered-mono :
      (d d' order : List ℕ)
      → ((n : ℕ) → has n d ≡ true → has n d' ≡ true)
      → IsOrdered d order
      → IsOrdered d' order
  IsOrdered-mono d d' [] hd h = tt
  IsOrdered-mono d d' (u ∷ order) hd h = (
    All-mono (Settled d order) (Settled d' order) (out u)
        (Settled-mono d d' order order hd (λ n k. k)) h.0,
    IsOrdered-mono d d' order hd h.1,
  )

  -- A frame whose next edge is settled goes on to the one after it.
  IsHalfway-next :
      (d ns : List ℕ) (node : ℕ) (e : Edge F) (rest : List (Edge F))
      → Settled d ns e
      → IsHalfway d ns (node, e ∷ rest)
      → IsHalfway d ns (node, rest)
  IsHalfway-next d ns node e rest k h = (
    h.0 ++ (e ∷ []),
    h.1 ∙ sym (append_assoc h.0 (e ∷ []) rest),
    All-append (Settled d ns) h.0 (e ∷ []) h.2 (k, tt),
  )

  has_self : (n : ℕ) (ns : List ℕ) → has n (n ∷ ns) ≡ true
  has_self n ns = ground arith

  has-cons : (m n : ℕ) (ns : List ℕ) → has n ns ≡ true → has n (m ∷ ns) ≡ true
  has-cons m n ns h = ground arith

  In-tail : (u n : ℕ) (ns : List ℕ) → nat_eq u n ≡ false → In u (n ∷ ns) → In u ns
  In-tail u n ns h (inl e) = absurd (ground arith)
  In-tail u n ns h (inr k) = k

  -- A node turns black when its frame is taken off.
  paint_black-IsColoured :
      (colour : ℕ → Colour) (order : List ℕ) (node : ℕ) (edges : List (Edge F))
      (below : List (Frame F)) (u : ℕ)
      → IsColoured colour order ((node, edges) ∷ below) u
      → IsColoured (paint colour node black) (node ∷ order) below u
  paint_black-IsColoured colour order node edges below u c = elim (Bool-cases (nat_eq u node)) [
    | inl e ↦ rw e (λ _. inl ((nat_eq_iff u node).0 e), λ h. cc)
    | inr e ↦ rw e (λ h. inr (c.0 h), λ h. In-tail u node (nodes_of below) e (c.1 h))
  ]

  -- A node turns grey when its frame is put on.
  paint_grey-IsColoured :
      (colour : ℕ → Colour) (order : List ℕ) (node : ℕ) (edges : List (Edge F))
      (below : List (Frame F)) (u : ℕ)
      → IsColoured colour order below u
      → IsColoured (paint colour node grey) order ((node, edges) ∷ below) u
  paint_grey-IsColoured colour order node edges below u c = elim (Bool-cases (nat_eq u node)) [
    | inl e ↦ rw e (λ h. cc, λ _. inl ((nat_eq_iff u node).0 e))
    | inr e ↦ rw e (λ h. c.0 h, λ h. inr (c.1 h))
  ]

  look-IsSound :
      (order : List ℕ) (node : ℕ) (edges : List (Edge F)) (below : List (Frame F)) (s : Search F)
      → IsOrdered s.dropped order
      → AreHalfway s.dropped order order ((node, edges) ∷ below)
      → ((u : ℕ) → IsColoured s.colour order ((node, edges) ∷ below) u)
      → (order' : List ℕ) × IsSound order' (look out node edges below s)
  unfolding look
  look-IsSound order node [] below s o h c = (
    node ∷ order,
    (
      (rw h.0.1 (rw (append-nil h.0.0) h.0.2), o),
      AreHalfway-mono s.dropped s.dropped order (node ∷ order) (node ∷ order) (node ∷ order) below
          (λ n k. k) (λ n k. inr k) (λ n k. k) h.1,
      λ u. paint_black-IsColoured s.colour order node [] below u (c u),
    ),
  )
  look-IsSound order node (e ∷ rest) below s o h c = elim (Bool-cases (has e.0 s.dropped)) [
    | inl k ↦ rw k (order, (o, (IsHalfway-next s.dropped order node e rest (inl k) h.0, h.1), c))
    | inr k ↦ rw k (elim (Colour-cases (s.colour e.1.target)) [
      | inl g ↦
          let wide =
            AreHalfway-mono s.dropped s.dropped order order order (e.1.target ∷ order)
              ((node, e ∷ rest) ∷ []) (λ n m. m) (λ n m. m) (λ n m. inr m) (h.0, tt) in
          let next =
            IsHalfway-next s.dropped (e.1.target ∷ order) node e rest (inr (inl refl)) wide.0 in
          rw g (
            order,
            (
              o,
              (([], refl, tt), (next, h.1)),
              λ u.
                  paint_grey-IsColoured s.colour order e.1.target (out e.1.target)
                    ((node, rest) ∷ below) u (c u),
            ),
          )
      | inr (inl g) ↦
          let wide =
            AreHalfway-mono s.dropped (e.0 ∷ s.dropped) order order order order
              ((node, e ∷ rest) ∷ below) (λ n. has-cons e.0 n s.dropped) (λ n m. m) (λ n m. m) h in
          let next =
            IsHalfway-next (e.0 ∷ s.dropped) order node e rest (inl (has_self e.0 s.dropped))
              wide.0 in
          rw g (
            order,
            (
              IsOrdered-mono s.dropped (e.0 ∷ s.dropped) order (λ n. has-cons e.0 n s.dropped) o,
              (next, wide.1),
              c,
            ),
          )
      | inr (inr g) ↦
          let next = IsHalfway-next s.dropped order node e rest (inr ((c e.1.target).0 g)) h.0 in
          rw g (order, (o, (next, h.1), c))
    ])
  ]

  turn-IsSound :
      (s : Search F) (order : List ℕ)
      → IsSound order s
      → (order' : List ℕ) × IsSound order' (turn out s.stack s)
  unfolding turn
  turn-IsSound s order h = by_stack s.stack h.1 h.2
    where
      by_stack :
          (stack : List (Frame F))
          → AreHalfway s.dropped order order stack
          → ((u : ℕ) → IsColoured s.colour order stack u)
          → (order' : List ℕ) × IsSound order' (turn out stack s)
      by_stack [] k c = (order, h)
      by_stack ((node, edges) ∷ below) k c = look-IsSound order node edges below s h.0 k c

  drain-IsSound :
      (fuel : ℕ) (s : Search F) (order : List ℕ)
      → IsSound order s
      → (order' : List ℕ) × IsSound order' (drain out fuel s)
  unfolding drain
  drain-IsSound zero s order h = (order, h)
  drain-IsSound (suc fuel) s order h = elim (Bool-cases (ltb 0 (length s.stack))) [
    | inl k ↦
        let r = turn-IsSound s order h in rw k (drain-IsSound fuel (turn out s.stack s) r.0 r.1)
    | inr k ↦ rw k (order, h)
  ]

  -- One round of the outer loop, begun with no frame.
  pub visit-IsSound :
      (fuel root : ℕ) (s : Search F) (order : List ℕ)
      → IsSound order s
      → s.stack ≡ []
      → (order' : List ℕ) × IsSound order' (visit out fuel root s)
  unfolding visit
  visit-IsSound fuel root s order h e = elim (Colour-cases (s.colour root)) [
    | inl g ↦
        rw (g, visit)
          (drain-IsSound fuel
            (record s { colour = paint s.colour root grey; stack = (root, out root) ∷ [] }) order
            (
              h.0,
              (([], refl, tt), tt),
              λ u. paint_grey-IsColoured s.colour order root (out root) [] u (rw e at (h.2 u)),
            ))
    | inr (inl g) ↦ rw (g, visit) (order, h)
    | inr (inr g) ↦ rw (g, visit) (order, h)
  ]
