-- ===== src/Budget/MoneyFlow/Ends.antt =====
-- The loops of dropCycles end: the rounds allowed are enough, and no node stays white.
use finance_buddy.Budget.MoneyFlow.{
  Edge, grey, Frame, black, Search, Colour, white, paint, rounds, look, Colour-cases, has, turn,
  drain, visit,
}
use finance_buddy.Prelude.{
  All, Bool, List, [], arith, false, length, refl, suc, true, zero, ℕ, ◌+◌, ◌<◌, ◌∷◌, ◌≡◌, ◌≤◌,
  Bool-cases, inl, inr, ltb, ltb→lt,
}

abbrev weigh : Colour → ℕ → ℕ
weigh white k = suc k
weigh grey k = 0
weigh black k = 0

abbrev pub is_white : Colour → Bool
is_white white = true
is_white grey = false
is_white black = false

module _ {F : Type 0} (out : ℕ → List (Edge F)) where
  -- A round for every white node below a bound and every edge from one.
  white_rounds : ℕ → (ℕ → Colour) → ℕ
  white_rounds zero colour = 0
  white_rounds (suc n) colour = weigh (colour n) (length (out n)) + white_rounds n colour

  stack_rounds : List (Frame F) → ℕ
  stack_rounds [] = 0
  stack_rounds (f ∷ fs) = suc (length f.1) + stack_rounds fs

  rounds_left : ℕ → Search F → ℕ
  unfolding white_rounds stack_rounds
  rounds_left n s = white_rounds n s.colour + stack_rounds s.stack

  white_rounds-le-rounds : (n : ℕ) (colour : ℕ → Colour) → white_rounds n colour ≤ rounds out n
  unfolding white_rounds rounds
  white_rounds-le-rounds zero colour = omega arith
  white_rounds-le-rounds (suc n) colour =
      omega (arith, weigh-le (colour n) (length (out n)), white_rounds-le-rounds n colour)
    where
      weigh-le : (c : Colour) (k : ℕ) → weigh c k ≤ suc k
      weigh-le white k = omega arith
      weigh-le grey k = omega arith
      weigh-le black k = omega arith

  white_rounds-paint_le :
      (n node : ℕ) (c : Colour) (colour : ℕ → Colour)
      → is_white c ≡ false
      → white_rounds n (paint colour node c) ≤ white_rounds n colour
  unfolding white_rounds
  white_rounds-paint_le zero node c colour h = omega arith
  white_rounds-paint_le (suc n) node c colour h =
      ground (arith, white_rounds-paint_le n node c colour)

  white_rounds-paint_above :
      (n node : ℕ) (c : Colour) (colour : ℕ → Colour)
      → n ≤ node
      → white_rounds n (paint colour node c) ≡ white_rounds n colour
  unfolding white_rounds
  white_rounds-paint_above zero node c colour h = refl
  white_rounds-paint_above (suc n) node c colour h =
      ground (arith, white_rounds-paint_above n node c colour)

  white_rounds-paint :
      (n node : ℕ) (c : Colour) (colour : ℕ → Colour)
      → node < n
      → colour node ≡ white
      → is_white c ≡ false
      → white_rounds n (paint colour node c) + suc (length (out node)) ≡ white_rounds n colour
  unfolding white_rounds
  white_rounds-paint zero node c colour l e h = absurd (omega arith)
  white_rounds-paint (suc n) node c colour l e h =
      ground (arith, white_rounds-paint n node c colour, white_rounds-paint_above n node c colour)

  abbrev pub AreBelow : ℕ → List (Edge F) → Type 0
  AreBelow n edges = All (λ e. e.1.target < n) edges

  abbrev StackIsBelow : ℕ → List (Frame F) → Type 0
  StackIsBelow n stack = All (λ f. AreBelow n f.1) stack

  look_ends :
      (n node : ℕ) (edges : List (Edge F)) (below : List (Frame F)) (s : Search F)
      → ((u : ℕ) → AreBelow n (out u))
      → StackIsBelow n ((node, edges) ∷ below)
      → (suc (rounds_left n (look out node edges below s))
          ≤ white_rounds n s.colour + stack_rounds ((node, edges) ∷ below))
        × StackIsBelow n (look out node edges below s).stack
  unfolding look rounds_left
  look_ends n node [] below s o b =
      (omega (arith, white_rounds-paint_le n node black s.colour refl), b.1)
  look_ends n node (e ∷ rest) below s o b = elim (Bool-cases (has e.0 s.dropped)) [
    | inl k ↦ rw k (omega arith, (b.0.1, b.1))
    | inr k ↦ rw k (elim (Colour-cases (s.colour e.1.target)) [
      | inl g ↦ rw g (
        omega (arith, white_rounds-paint n e.1.target grey s.colour b.0.0 g refl),
        (o e.1.target, (b.0.1, b.1)),
      )
      | inr (inl g) ↦ rw g (omega arith, (b.0.1, b.1))
      | inr (inr g) ↦ rw g (omega arith, (b.0.1, b.1))
    ])
  ]

  turn_ends :
      (n : ℕ) (s : Search F)
      → ((u : ℕ) → AreBelow n (out u))
      → StackIsBelow n s.stack
      → 0 < length s.stack
      → (suc (rounds_left n (turn out s.stack s)) ≤ rounds_left n s)
        × StackIsBelow n (turn out s.stack s).stack
  unfolding turn rounds_left
  turn_ends n s o b l = by_stack s.stack b l
    where
      by_stack :
          (stack : List (Frame F))
          → StackIsBelow n stack
          → 0 < length stack
          → (suc (rounds_left n (turn out stack s)) ≤ white_rounds n s.colour + stack_rounds stack)
            × StackIsBelow n (turn out stack s).stack
      by_stack [] k l' = absurd (omega arith)
      by_stack ((node, edges) ∷ below) k l' = look_ends n node edges below s o k

  no_rounds : (stack : List (Frame F)) → stack_rounds stack ≤ 0 → stack ≡ []
  unfolding stack_rounds
  no_rounds [] h = refl
  no_rounds (f ∷ fs) h = absurd (omega arith)

  no_length : (stack : List (Frame F)) → ltb 0 (length stack) ≡ false → stack ≡ []
  no_length [] h = refl
  no_length (f ∷ fs) h = absurd (ground arith)

  -- With a round for every white node and every edge from one, the inner loop empties the stack.
  drain_ends :
      (fuel n : ℕ) (s : Search F)
      → ((u : ℕ) → AreBelow n (out u))
      → StackIsBelow n s.stack
      → rounds_left n s ≤ fuel
      → (drain out fuel s).stack ≡ []
  unfolding drain
  drain_ends zero n s o b h = no_rounds s.stack (unfold rounds_left in omega arith)
  drain_ends (suc fuel) n s o b h = elim (Bool-cases (ltb 0 (length s.stack))) [
    | inl k ↦
        let t = turn_ends n s o b (ltb→lt 0 (length s.stack) k) in
        rw k (drain_ends fuel n (turn out s.stack s) o t.1 (omega arith))
    | inr k ↦ rw k (no_length s.stack k)
  ]

  look_keeps :
      (u node : ℕ) (edges : List (Edge F)) (below : List (Frame F)) (s : Search F)
      → is_white (s.colour u) ≡ false
      → is_white ((look out node edges below s).colour u) ≡ false
  unfolding look
  look_keeps u node [] below s h = ground arith
  look_keeps u node (e ∷ rest) below s h = ground arith

  turn_keeps :
      (u : ℕ) (stack : List (Frame F)) (s : Search F)
      → is_white (s.colour u) ≡ false
      → is_white ((turn out stack s).colour u) ≡ false
  unfolding turn
  turn_keeps u [] s h = h
  turn_keeps u ((node, edges) ∷ below) s h = look_keeps u node edges below s h

  drain_keeps :
      (fuel u : ℕ) (s : Search F)
      → is_white (s.colour u) ≡ false
      → is_white ((drain out fuel s).colour u) ≡ false
  unfolding drain
  drain_keeps zero u s h = h
  drain_keeps (suc fuel) u s h = elim (Bool-cases (ltb 0 (length s.stack))) [
    | inl k ↦ rw k (drain_keeps fuel u (turn out s.stack s) (turn_keeps u s.stack s h))
    | inr k ↦ rw k h
  ]

  -- A round of the outer loop ends with no frame, with its root seen and with all that was seen.
  pub visit_ends :
      (n root : ℕ) (s : Search F)
      → ((u : ℕ) → AreBelow n (out u))
      → root < n
      → s.stack ≡ []
      → ((visit out (rounds out n) root s).stack ≡ [])
        × (is_white ((visit out (rounds out n) root s).colour root) ≡ false)
        × ((u : ℕ)
            → is_white (s.colour u) ≡ false
            → is_white ((visit out (rounds out n) root s).colour u) ≡ false)
  unfolding visit
  visit_ends n root s o l e = elim (Colour-cases (s.colour root)) [
    | inl g ↦
        let first : Search F = record s {
          colour = paint s.colour root grey;
          stack = (root, out root) ∷ [];
        } in
        rw (g, visit)
          (
            drain_ends (rounds out n) n first o (o root, tt)
                (unfold rounds_left stack_rounds in
                  omega (
                    arith,
                    white_rounds-paint n root grey s.colour l g refl,
                    white_rounds-le-rounds n s.colour,
                  )),
            drain_keeps (rounds out n) root first (ground arith),
            λ u h. drain_keeps (rounds out n) u first (ground arith),
          )
    | inr (inl g) ↦ rw (g, visit) (e, rw g refl, λ u h. h)
    | inr (inr g) ↦ rw (g, visit) (e, rw g refl, λ u h. h)
  ]
