-- ===== src/Tests/MoneyFlow.antt =====
-- The graph of MoneyFlowCard.tsx.
use finance_buddy.Budget.MoneyFlow.{
  Link, drop_cycles, searched, visit_all, black, visit, drain, turn, look, outgoing, rounds,
}
use finance_buddy.Budget.MoneyFlow.Kept.{drop_cycles-keeps}
use finance_buddy.Budget.MoneyFlow.NoCycle.{Reaches, drop_cycles-acyclic, searched_ends}
use finance_buddy.Budget.Plot.{RawLink, sanitise, acyclic_links, compact}
use finance_buddy.Budget.Plot.Remap.{sanitise-ends}
use finance_buddy.Prelude.{
  In, List, Option, Text, [], arith, codes, get_elem?, inl, inr, ltb, none, refl, some, ℕ, ◌-◌, ◌∷◌,
  ◌≡◌,
}

abbrev link : ℕ → ℕ → ℕ → Link ℕ
link s t v = record { source = s; target = t; value = v }

abbrev circle : List (Link ℕ)
circle = link 0 1 5 ∷ link 1 2 6 ∷ link 2 0 7 ∷ link 0 2 8 ∷ []

abbrev chain : List (Link ℕ)
chain = link 0 1 5 ∷ link 1 2 6 ∷ link 0 2 7 ∷ []

-- Cycles of one, two and three links, and a node that is never drawn.
drop_cycles_tests :
    (drop_cycles 3 circle ≡ link 0 1 5 ∷ link 1 2 6 ∷ link 0 2 8 ∷ [])
    × (drop_cycles 3 chain ≡ chain)
    × (drop_cycles 2 (link 0 1 1 ∷ link 1 0 2 ∷ link 0 0 3 ∷ []) ≡ link 0 1 1 ∷ [])
    × (drop_cycles 1 (link 0 0 1 ∷ []) ≡ [])
unfolding drop_cycles searched visit_all visit drain turn look outgoing rounds
drop_cycles_tests = (refl, refl, refl, refl)

drop_cycles-acyclic_example : ¬ Reaches (drop_cycles 3 circle) 0 0
drop_cycles-acyclic_example =
    drop_cycles-acyclic circle 3 (omega arith, (omega arith, (omega arith, (omega arith, tt))))
      (omega arith, (omega arith, (omega arith, (omega arith, tt)))) 0

searched_ends_example : ((searched 3 circle).stack ≡ []) × ((searched 3 circle).colour 2 ≡ black)
searched_ends_example =
    searched_ends circle 3 2 (omega arith, (omega arith, (omega arith, (omega arith, tt))))
      (omega arith)

abbrev depth : ℕ → ℕ
depth n = 2 - n

drop_cycles-keeps_example : drop_cycles 3 chain ≡ chain
drop_cycles-keeps_example =
    drop_cycles-keeps chain depth 3 (omega arith, (omega arith, (omega arith, tt)))
      (omega arith, (omega arith, (omega arith, tt)))

abbrev raw : ℕ → ℕ → ℕ → Option (RawLink ℕ)
raw s t v = some (record { source = some s; target = some t; value = v })

abbrev four_nodes : List Text
four_nodes = codes "salary" ∷ codes "unused" ∷ codes "bank" ∷ codes "rent" ∷ []

abbrev answer : List (Option (RawLink ℕ))
answer = raw 0 2 9 ∷ none ∷ raw 2 3 4 ∷ raw 3 0 1 ∷ raw 2 9 1 ∷ raw 2 2 1 ∷ raw 0 3 0 ∷ []

sanitise_tests :
    let p = sanitise (ltb 0) (some four_nodes) (some answer) in
    (p.nodes ≡ some (codes "salary") ∷ some (codes "bank") ∷ some (codes "rent") ∷ [])
    × (p.links
        ≡ record { source = some 0; target = some 1; value = 9 }
          ∷ record { source = some 1; target = some 2; value = 4 }
          ∷ [])
    × (p.dropped_links ≡ 5)
unfolding sanitise acyclic_links compact drop_cycles searched visit_all visit drain turn look
    outgoing rounds
sanitise_tests = (refl, refl, refl)

bank_to_rent : In (link 2 3 4) (acyclic_links (ltb 0) four_nodes answer)
unfolding acyclic_links drop_cycles searched visit_all visit drain turn look outgoing rounds
bank_to_rent = inr (inl refl)

sanitise-ends_example :
    let p = sanitise (ltb 0) (some four_nodes) (some answer) in
    (i : ℕ) × (j : ℕ) × In (record { source = some i; target = some j; value = 4 }) p.links
    × (get_elem? p.nodes i ≡ some (get_elem? four_nodes 2))
    × (get_elem? p.nodes j ≡ some (get_elem? four_nodes 3))
sanitise-ends_example = sanitise-ends (ltb 0) four_nodes answer (link 2 3 4) bank_to_rent
