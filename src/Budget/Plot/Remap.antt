-- ===== src/Budget/Plot/Remap.antt =====
-- The numbers that the ends of the links get are those of the same nodes.
use finance_buddy.Budget.MoneyFlow.{Link, drop_cycles}
use finance_buddy.Budget.MoneyFlow.NoCycle.{drop_cycles-All, length-drop_cycles_le}
use finance_buddy.Budget.Plot.{
  find_index, compact, with_ends, sanitise, well_formed, is_used, acyclic_links, RawLink, remapped,
}
use finance_buddy.Prelude.{
  Bool, Bool-cases, List, [], arith, get_elem?, get_elem?-append_left, if◌then◌else◌, inl, inr,
  length, nat_eq, some, true, ℕ, ◌++◌, ◌+◌, ◌<◌, ◌∷◌, ◌≡◌, All, All-In, In, Option, Option-cases,
  ap, filter_map, get_elem?-append_end, get_elem?-map, nat_eq_iff, none, refl, subst, sym, ◌∙◌, ◌≢◌,
  In-map, length-filter_map_le, length-map, map,
}

-- Every used node below an index has a number, under which it is kept.
abbrev AreFound : (ℕ → Bool) → ℕ → List ℕ → List (ℕ × ℕ) → Type 0
AreFound used index kept remap =
    (i : ℕ)
    → i < index
    → used i ≡ true
    → (j : ℕ) × (find_index remap i ≡ some j) × (get_elem? kept j ≡ some i)

AreFound-step :
    (used : ℕ → Bool) (index : ℕ) (kept : List ℕ) (remap : List (ℕ × ℕ))
    → AreFound used index kept remap
    → AreFound used
        (index + 1)
        (if used index then kept ++ (index ∷ []) else kept)
        (if used index then (index, length kept) ∷ remap else remap)
AreFound-step used index kept remap h i l u = elim (Bool-cases (nat_eq index i)) [
  | inl e ↦
      let same = (nat_eq_iff index i).0 e in
      let k : used index ≡ true = subst (λ n. used n ≡ true) (sym same) u in
      rw k (rw e (length kept, refl, get_elem?-append_end kept index ∙ ap some same))
  | inr e ↦
      let r = h i (ground arith) u in
      elim (Bool-cases (used index)) [
        | inl k ↦ rw k (rw e (r.0, r.1, get_elem?-append_left kept (index ∷ []) r.0 i r.2))
        | inr k ↦ rw k r
      ]
]

compact-AreFound :
    {N : Type 0} (used : ℕ → Bool) (index : ℕ) (nodes : List N) (kept : List ℕ)
    (remap : List (ℕ × ℕ))
    → AreFound used index kept remap
    → let found = compact used index nodes kept remap in
      AreFound used (index + length nodes) found.0 found.1
unfolding compact
compact-AreFound used index [] kept remap h i l = h i (omega arith)
compact-AreFound used index (node ∷ nodes) kept remap h i l =
    compact-AreFound used (index + 1) nodes _ _ (AreFound-step used index kept remap h) i
      (omega arith)

abbrev FitsIn : {F : Type 0} → ℕ → Link F → Type 0
FitsIn n l = (l.source < n) × (l.target < n) × (l.source ≢ l.target)

with_ends-FitsIn :
    {F : Type 0} (is_amount : F → Bool) (n : ℕ) (s t : Option ℕ) (v : F) (l : Link F)
    → with_ends is_amount n s t v ≡ some l
    → FitsIn n l
with_ends-FitsIn is_amount n none t v l h = cc
with_ends-FitsIn is_amount n (some s) none v l h = cc
with_ends-FitsIn is_amount n (some s) (some t) v l h =
    (ground arith, ground arith, λ e. ground arith)

pub well_formed-FitsIn :
    {F : Type 0} (is_amount : F → Bool) (n : ℕ) (raw : List (Option (RawLink F)))
    → All (FitsIn n) (filter_map (well_formed is_amount n) raw)
well_formed-FitsIn is_amount n [] = tt
well_formed-FitsIn is_amount n (none ∷ raw) = well_formed-FitsIn is_amount n raw
well_formed-FitsIn is_amount n (some r ∷ raw) =
    elim (Option-cases (with_ends is_amount n r.source r.target r.value)) [
      | inl e ↦ rw e (well_formed-FitsIn is_amount n raw)
      | inr (l, e) ↦ rw e (
        with_ends-FitsIn is_amount n r.source r.target r.value l e,
        well_formed-FitsIn is_amount n raw,
      )
    ]

acyclic_links-FitsIn :
    {N F : Type 0} (is_amount : F → Bool) (nodes : List N) (raw : List (Option (RawLink F)))
    → All (FitsIn (length nodes)) (acyclic_links is_amount nodes raw)
unfolding acyclic_links
acyclic_links-FitsIn is_amount nodes raw =
    drop_cycles-All (filter_map (well_formed is_amount (length nodes)) raw) (FitsIn (length nodes))
      (length nodes) (well_formed-FitsIn is_amount (length nodes) raw)

is_used-ends :
    {F : Type 0} (l : Link F) (links : List (Link F))
    → In l links
    → (is_used links l.source ≡ true) × (is_used links l.target ≡ true)
is_used-ends l [] m = elim m [ ]
is_used-ends l (x ∷ links) (inl e) = rw e (ground arith, ground arith)
is_used-ends l (x ∷ links) (inr m) = let r = is_used-ends l links m in (ground arith, ground arith)

-- Every link that is left without cycles is drawn, with its value, between two of the nodes that are
-- kept, and these are the nodes of the server's list at its ends.
pub sanitise-ends :
    {N F : Type 0} (is_amount : F → Bool) (nodes : List N) (raw : List (Option (RawLink F)))
    (l : Link F)
    → In l (acyclic_links is_amount nodes raw)
    → let p = sanitise is_amount (some nodes) (some raw) in
      (i : ℕ) × (j : ℕ) × In (record { source = some i; target = some j; value = l.value }) p.links
      × (get_elem? p.nodes i ≡ some (get_elem? nodes l.source))
      × (get_elem? p.nodes j ≡ some (get_elem? nodes l.target))
unfolding sanitise
sanitise-ends is_amount nodes raw l m =
    let acyclic = acyclic_links is_amount nodes raw in
    let used = is_used acyclic in
    let found = compact-AreFound used 0 nodes [] [] (λ i b u. absurd (omega arith)) in
    let fit =
      All-In (FitsIn (length nodes)) l acyclic (acyclic_links-FitsIn is_amount nodes raw) m in
    let u = is_used-ends l acyclic m in
    let a = found l.source (omega (arith, fit.0)) u.0 in
    let b = found l.target (omega (arith, fit.1)) u.1 in
    let kept = (compact used 0 nodes [] []).0 in
    let remap = (compact used 0 nodes [] []).1 in
    (
      a.0,
      b.0,
      subst (λ r. In r (map (remapped remap) acyclic))
          (let same : remapped remap l
                ≡ record { source = some a.0; target = some b.0; value = l.value } =
              rw (a.1, b.1) refl in
            same)
          (In-map (remapped remap) l acyclic m),
      get_elem?-map (get_elem? nodes) kept a.0 l.source a.2,
      get_elem?-map (get_elem? nodes) kept b.0 l.target b.2,
    )

-- The links that are drawn and those that are reported as dropped are together as many as the server
-- sent.
pub sanitise-counts :
    {N F : Type 0} (is_amount : F → Bool) (nodes : List N) (raw : List (Option (RawLink F)))
    → let p = sanitise is_amount (some nodes) (some raw) in
      p.dropped_links + length p.links ≡ length raw
unfolding sanitise acyclic_links
sanitise-counts is_amount nodes raw =
    let n = length nodes in
    let links = filter_map (well_formed is_amount n) raw in
    omega (
      arith,
      length-map (remapped (compact (is_used (drop_cycles n links)) 0 nodes [] []).1)
          (drop_cycles n links),
      length-drop_cycles_le links n,
      length-filter_map_le (well_formed is_amount n) raw,
    )
