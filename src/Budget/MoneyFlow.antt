-- ===== src/Budget/MoneyFlow.antt =====
-- What MoneyFlowCard.tsx does to the server's graph before it is drawn: dropCycles and sanitise. An
-- amount is of any type `F`; that it is finite and positive is asked of the argument `is_amount`. A
-- node is of any type too. The end of a link that is no integer from 0 on is `none`.
pub mod Acyclic
pub mod Ends
pub mod NoCycle
pub mod Kept
use finance_buddy.Prelude.{
  Bool, List, [], any, filter, if◌then◌else◌, length, map, nat_eq, not, suc, zero, ℕ, ◌+◌, ◌∷◌, ltb,
  inl, inr, refl, ◌≡◌, ◌⊎◌,
}

pub record Link (F : Type 0) : Type 0 where
  pub source : ℕ
  pub target : ℕ
  pub value : F

pub data Colour : Type 0 where
  white grey black : Colour

pub Colour-cases : (c : Colour) → (c ≡ white) ⊎ (c ≡ grey) ⊎ (c ≡ black)
Colour-cases white = inl refl
Colour-cases grey = inr (inl refl)
Colour-cases black = inr (inr refl)

-- A link with its index in the list.
abbrev pub Edge : Type 0 → Type 0
Edge F = ℕ × Link F

-- A node and those of its outgoing edges that are still to come, `edges.slice(frame.next)`.
abbrev pub Frame : Type 0 → Type 0
Frame F = ℕ × List (Edge F)

abbrev pub nodes_of : {F : Type 0} → List (Frame F) → List ℕ
nodes_of fs = map (λ f. f.0) fs

pub record Search (F : Type 0) : Type 0 where
  pub colour : ℕ → Colour
  pub dropped : List ℕ
  pub stack : List (Frame F)

abbrev pub has : ℕ → List ℕ → Bool
has n ns = any (nat_eq n) ns

abbrev pub numbered : {A : Type 0} → ℕ → List A → List (ℕ × A)
numbered n [] = []
numbered n (x ∷ xs) = (n, x) ∷ numbered (n + 1) xs

abbrev pub paint : (ℕ → Colour) → ℕ → Colour → ℕ → Colour
paint colour node c n = if nat_eq n node then c else colour n

module _ {F : Type 0} where
  -- `outgoing[node]`
  unfoldable pub outgoing : List (Link F) → ℕ → List (Edge F)
  outgoing links node = filter (λ e. nat_eq e.1.source node) (numbered 0 links)

module _ {F : Type 0} (out : ℕ → List (Edge F)) where
  -- The body of the inner loop, for the frame on top with its node and edges.
  unfoldable pub look : ℕ → List (Edge F) → List (Frame F) → Search F → Search F
  look node [] below s = record s { colour = paint s.colour node black; stack = below }
  look node (e ∷ rest) below s =
      if has e.0 s.dropped
      then record s { stack = (node, rest) ∷ below }
      else elim (s.colour e.1.target) [
        | grey ↦ record s { dropped = e.0 ∷ s.dropped; stack = (node, rest) ∷ below }
        | white ↦ record s {
          colour = paint s.colour e.1.target grey;
          stack = (e.1.target, out e.1.target) ∷ (node, rest) ∷ below;
        }
        | black ↦ record s { stack = (node, rest) ∷ below }
      ]

  unfoldable pub turn : List (Frame F) → Search F → Search F
  unfolding look
  turn [] s = s
  turn ((node, rest) ∷ below) s = look node rest below s

  -- The inner loop.
  unfoldable pub drain : ℕ → Search F → Search F
  unfolding turn
  drain zero s = s
  drain (suc fuel) s =
      let more = drain fuel (turn s.stack s) in if ltb 0 (length s.stack) then more else s

  -- One round of the outer loop.
  unfoldable pub visit : ℕ → ℕ → Search F → Search F
  unfolding drain
  visit fuel root s = elim (s.colour root) [
    | white ↦
        drain fuel (record s { colour = paint s.colour root grey; stack = (root, out root) ∷ [] })
    | grey ↦ s
    | black ↦ s
  ]

  -- The outer loop, the rounds left first.
  unfoldable pub visit_all : ℕ → ℕ → ℕ → Search F → Search F
  unfolding visit
  visit_all fuel zero root s = s
  visit_all fuel (suc left) root s = visit_all fuel left (root + 1) (visit fuel root s)

  -- One round for every node and every edge.
  unfoldable pub rounds : ℕ → ℕ
  rounds zero = 0
  rounds (suc n) = suc (length (out n)) + rounds n

module _ {F : Type 0} where
  abbrev pub unseen : Search F
  unseen = record { colour = λ n. white; dropped = []; stack = [] }

  unfoldable pub searched : ℕ → List (Link F) → Search F
  unfolding visit_all outgoing rounds
  searched n links = visit_all (outgoing links) (rounds (outgoing links) n) n 0 unseen

  abbrev pub without : List ℕ → List (Link F) → List (Link F)
  without dropped links = map (λ e. e.1) (filter (λ e. not (has e.0 dropped)) (numbered 0 links))

  abbrev pub without_any : List ℕ → List (Link F) → List (Link F)
  without_any [] links = links
  without_any (d ∷ dropped) links = without (d ∷ dropped) links

  unfoldable pub drop_cycles : ℕ → List (Link F) → List (Link F)
  unfolding searched
  drop_cycles n links = without_any (searched n links).dropped links
