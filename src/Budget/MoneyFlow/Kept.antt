-- ===== src/Budget/MoneyFlow/Kept.antt =====
-- What dropCycles leaves alone.
use finance_buddy.Budget.MoneyFlow.{
  Search, Frame, grey, Edge, look, nodes_of, Colour-cases, has, black, paint, Colour, turn, drain,
  visit, Link, visit_all, drop_cycles, searched, rounds, outgoing, numbered, unseen,
}
use finance_buddy.Budget.MoneyFlow.Ends.{AreBelow, visit_ends}
use finance_buddy.Budget.MoneyFlow.NoCycle.{numbered-All, outgoing-AreBelow}
use finance_buddy.Prelude.{
  All, In, List, [], ℕ, ◌<◌, ◌∷◌, ◌≡◌, All-In, All-mono, Bool-cases, ap, arith, false, inl, inr,
  nat_eq, nat_eq_iff, refl, length, ltb, suc, zero, ◌+◌, All-of_In, In-filter_inv, filter, subst,
}
use native.Mathlib.Nat.{lt_trans}

module _ {F : Type 0} (out : ℕ → List (Edge F)) (rank : ℕ → ℕ) where
  -- The ranks of the nodes on the stack rise from the top, and the edges to come lead down.
  abbrev AreRanked : List (Frame F) → Type 0
  AreRanked [] = Unit
  AreRanked (f ∷ fs) =
      All (λ e. rank e.1.target < rank f.0) f.1
      × All (λ m. rank f.0 < rank m) (nodes_of fs)
      × AreRanked fs

  -- Nothing was dropped, and a grey node stands on the stack.
  abbrev IsRanked : Search F → Type 0
  IsRanked s =
      (s.dropped ≡ []) × AreRanked s.stack × ((u : ℕ) → s.colour u ≡ grey → In u (nodes_of s.stack))

  pushed :
      (target : ℕ) (colour : ℕ → Colour) (nodes : List ℕ) (u : ℕ)
      → (colour u ≡ grey → In u nodes)
      → paint colour target grey u ≡ grey
      → In u (target ∷ nodes)
  pushed target colour nodes u g h = elim (Bool-cases (nat_eq u target)) [
    | inl e ↦ inl ((nat_eq_iff u target).0 e)
    | inr e ↦ inr (g (rw e at h))
  ]

  popped :
      (node : ℕ) (colour : ℕ → Colour) (nodes : List ℕ) (u : ℕ)
      → (colour u ≡ grey → In u (node ∷ nodes))
      → paint colour node black u ≡ grey
      → In u nodes
  popped node colour nodes u g h = elim (Bool-cases (nat_eq u node)) [
    | inl e ↦ cc (rw e at h)
    | inr e ↦ below (g (rw e at h)) e
  ]
    where
      below : In u (node ∷ nodes) → nat_eq u node ≡ false → In u nodes
      below (inl k) e = absurd (ground arith)
      below (inr k) e = k

  -- An edge that leads down does not lead to the stack.
  not_below :
      (node target : ℕ) (nodes : List ℕ)
      → rank target < rank node
      → All (λ m. rank node < rank m) nodes
      → ¬ In target (node ∷ nodes)
  not_below node target nodes l h (inl e) =
      let same : rank target ≡ rank node = ap rank e in omega arith
  not_below node target nodes l h (inr k) =
      let up : rank node < rank target = All-In (λ m. rank node < rank m) target nodes h k in
      omega arith

  look-IsRanked :
      (node : ℕ) (edges : List (Edge F)) (below : List (Frame F)) (s : Search F)
      → ((u : ℕ) → All (λ e. rank e.1.target < rank u) (out u))
      → s.dropped ≡ []
      → AreRanked ((node, edges) ∷ below)
      → ((u : ℕ) → s.colour u ≡ grey → In u (node ∷ nodes_of below))
      → IsRanked (look out node edges below s)
  unfolding look
  look-IsRanked node [] below s o d r g =
      (d, r.2, λ u. popped node s.colour (nodes_of below) u (g u))
  look-IsRanked node (e ∷ rest) below s o d r g =
      let k : has e.0 s.dropped ≡ false = rw d refl in
      rw k (elim (Colour-cases (s.colour e.1.target)) [
        | inl w ↦
            let higher =
              All-mono (λ m. rank node < rank m) (λ m. rank e.1.target < rank m) (nodes_of below)
                (λ m l. lt_trans r.0.0 l) r.1 in
            rw w (
              d,
              (o e.1.target, (r.0.0, higher), (r.0.1, r.1, r.2)),
              λ u. pushed e.1.target s.colour (node ∷ nodes_of below) u (g u),
            )
        | inr (inl w) ↦
            absurd (not_below node e.1.target (nodes_of below) r.0.0 r.1 (g e.1.target w))
        | inr (inr w) ↦ rw w (d, (r.0.1, r.1, r.2), g)
      ])

  turn-IsRanked :
      (stack : List (Frame F)) (s : Search F)
      → ((u : ℕ) → All (λ e. rank e.1.target < rank u) (out u))
      → (s.dropped ≡ []) × AreRanked stack × ((u : ℕ) → s.colour u ≡ grey → In u (nodes_of stack))
      → s.stack ≡ stack
      → IsRanked (turn out stack s)
  unfolding turn
  turn-IsRanked [] s o h e = rw e h
  turn-IsRanked ((node, edges) ∷ below) s o h e = look-IsRanked node edges below s o h.0 h.1 h.2

  drain-IsRanked :
      (fuel : ℕ) (s : Search F)
      → ((u : ℕ) → All (λ e. rank e.1.target < rank u) (out u))
      → IsRanked s
      → IsRanked (drain out fuel s)
  unfolding drain
  drain-IsRanked zero s o h = h
  drain-IsRanked (suc fuel) s o h = elim (Bool-cases (ltb 0 (length s.stack))) [
    | inl k ↦ rw k (drain-IsRanked fuel (turn out s.stack s) o (turn-IsRanked s.stack s o h refl))
    | inr k ↦ rw k h
  ]

  visit-IsRanked :
      (fuel root : ℕ) (s : Search F)
      → ((u : ℕ) → All (λ e. rank e.1.target < rank u) (out u))
      → IsRanked s
      → s.stack ≡ []
      → IsRanked (visit out fuel root s)
  unfolding visit
  visit-IsRanked fuel root s o h st = elim (Colour-cases (s.colour root)) [
    | inl g ↦
        let first : Search F = record s {
          colour = paint s.colour root grey;
          stack = (root, out root) ∷ [];
        } in
        rw (g, visit)
          (drain-IsRanked fuel first o
            (h.0, (o root, tt, tt), λ u. pushed root s.colour [] u (rw st at (h.2 u))))
    | inr (inl g) ↦ rw (g, visit) h
    | inr (inr g) ↦ rw (g, visit) h
  ]

  visit_all-keeps :
      (n left root : ℕ) (s : Search F)
      → ((u : ℕ) → All (λ e. rank e.1.target < rank u) (out u))
      → ((u : ℕ) → AreBelow out n (out u))
      → root + left ≡ n
      → IsRanked s
      → s.stack ≡ []
      → (visit_all out (rounds out n) left root s).dropped ≡ []
  unfolding visit_all
  visit_all-keeps n zero root s o b e h st = h.0
  visit_all-keeps n (suc left) root s o b e h st =
      visit_all-keeps n left (root + 1) (visit out (rounds out n) root s) o b (omega arith)
        (visit-IsRanked (rounds out n) root s o h st) (visit_ends out n root s b (omega arith) st).0

outgoing_down :
    {F : Type 0} (links : List (Link F)) (rank : ℕ → ℕ) (u : ℕ)
    → All (λ l. rank l.target < rank l.source) links
    → All (λ e. rank e.1.target < rank u) (outgoing links u)
unfolding outgoing
outgoing_down links rank u down =
    All-of_In (λ e. rank e.1.target < rank u) (filter (λ e. nat_eq e.1.source u) (numbered 0 links))
      (λ e m.
        let k = In-filter_inv (λ e. nat_eq e.1.source u) e (numbered 0 links) m in
        let lower : rank e.1.target < rank e.1.source =
          All-In (λ e. rank e.1.target < rank e.1.source) e (numbered 0 links)
            (numbered-All (λ l. rank l.target < rank l.source) 0 links down) k.0 in
        subst (λ n. rank e.1.target < rank n) ((nat_eq_iff e.1.source u).0 k.1) lower)

-- If every link leads to a node below `n` and, for some ranks of the nodes, down, then every link is
-- kept.
pub drop_cycles-keeps :
    {F : Type 0} (links : List (Link F)) (rank : ℕ → ℕ) (n : ℕ)
    → All (λ l. l.target < n) links
    → All (λ l. rank l.target < rank l.source) links
    → drop_cycles n links ≡ links
unfolding drop_cycles searched
drop_cycles-keeps links rank n targets down =
    rw
      (visit_all-keeps (outgoing links) rank n n 0 unseen (λ u. outgoing_down links rank u down)
        (outgoing-AreBelow links n targets) (omega arith) (refl, tt, λ u h. cc) refl)
      refl
