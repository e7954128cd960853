-- ===== src/Budget/Plot.antt =====
-- `sanitise` of MoneyFlowCard.tsx, which makes of the server's answer what can be drawn. The end of a
-- link that is no integer from 0 on is `none`, as is the end of a drawn link that is not found.
pub mod Remap
use finance_buddy.Budget.MoneyFlow.{Link, drop_cycles}
use finance_buddy.Prelude.{
  Bool, List, Option, [], any, filter_map, get_elem?, if◌then◌else◌, length, ltb, map, nat_eq, none,
  not, some, ℕ, ◌&&◌, ◌++◌, ◌+◌, ◌-◌, ◌||◌, ◌∷◌,
}
use finance_buddy.Store.{given}

pub record RawLink (F : Type 0) : Type 0 where
  pub source : Option ℕ
  pub target : Option ℕ
  pub value : F

pub record PlottableSankey (N F : Type 0) : Type 0 where
  pub nodes : List (Option N)
  pub links : List (RawLink F)
  pub dropped_links : ℕ

-- The test of the first filter, with the link that it lets through.
abbrev pub with_ends : {F : Type 0} → (F → Bool) → ℕ → Option ℕ → Option ℕ → F → Option (Link F)
with_ends is_amount count none target value = none
with_ends is_amount count (some s) none value = none
with_ends is_amount count (some s) (some t) value =
    if ltb s count && ltb t count && not (nat_eq s t) && is_amount value
    then some (record { source = s; target = t; value = value })
    else none

abbrev pub well_formed : {F : Type 0} → (F → Bool) → ℕ → Option (RawLink F) → Option (Link F)
well_formed is_amount count none = none
well_formed is_amount count (some l) = with_ends is_amount count l.source l.target l.value

abbrev pub is_used : {F : Type 0} → List (Link F) → ℕ → Bool
is_used links i = any (λ l. nat_eq l.source i || nat_eq l.target i) links

-- The loop over the nodes that fills `kept` and `remap`, the latter with its last entry first.
unfoldable pub compact :
    {N : Type 0} → (ℕ → Bool) → ℕ → List N → List ℕ → List (ℕ × ℕ) → List ℕ × List (ℕ × ℕ)
compact used index [] kept remap = (kept, remap)
compact used index (node ∷ nodes) kept remap =
    compact used (index + 1) nodes (if used index then kept ++ (index ∷ []) else kept)
      (if used index then (index, length kept) ∷ remap else remap)

abbrev pub find_index : List (ℕ × ℕ) → ℕ → Option ℕ
find_index [] i = none
find_index ((j, k) ∷ remap) i = if nat_eq j i then some k else find_index remap i

abbrev pub remapped : {F : Type 0} → List (ℕ × ℕ) → Link F → RawLink F
remapped remap l = record {
  source = find_index remap l.source;
  target = find_index remap l.target;
  value = l.value;
}

-- The links that are drawn, before their ends are renumbered.
unfoldable pub acyclic_links :
    {N F : Type 0} → (F → Bool) → List N → List (Option (RawLink F)) → List (Link F)
unfolding drop_cycles
acyclic_links is_amount nodes raw =
    drop_cycles (length nodes) (filter_map (well_formed is_amount (length nodes)) raw)

unfoldable pub sanitise :
    {N F : Type 0}
    → (F → Bool)
    → Option (List N)
    → Option (List (Option (RawLink F)))
    → PlottableSankey N F
unfolding acyclic_links compact
sanitise is_amount nodes? links? =
    let nodes = given nodes? [] in
    let raw = given links? [] in
    let acyclic = acyclic_links is_amount nodes raw in
    let found = compact (is_used acyclic) 0 nodes [] [] in
    record {
      nodes = map (get_elem? nodes) found.0;
      links = map (remapped found.1) acyclic;
      dropped_links = length raw - length acyclic;
    }
