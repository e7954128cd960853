-- ===== src/Fmt/Grouping.antt =====
-- The commas of `fmtInr`.
use finance_buddy.Fmt.{
  slice_before, grouped, comma_parts, slice_last, integer_part, Numbers, decimal_part, fmt_inr,
  full_text,
}
use finance_buddy.Prelude.{
  ◌⊎◌, All, Bool, List, Text, [], append-nil, arith, length, refl, suc, take-append-drop, zero, ℕ,
  ◌++◌, ◌-◌, ◌∷◌, ◌≡◌, ◌≤◌, Bool-cases, ap, append_assoc, if◌then◌else◌, inl, inr, is_empty,
  length-drop, length-take, ltb, sym, ◌∙◌, codes, false, leb, some, true,
}
use finance_buddy.Queries.Key.{join}

abbrev pub concat : List Text → Text
concat [] = []
concat (t ∷ ts) = t ++ concat ts

slice_back : (n : ℕ) (s : Text) → slice_before n s ++ slice_last n s ≡ s
slice_back n s = take-append-drop (length s - n) s

-- One or two digits.
abbrev pub IsGroup : Text → Type 0
IsGroup g = (1 ≤ length g) × (length g ≤ 2)

concat-left :
    (tmp : Text) (parts : List Text)
    → concat (if is_empty tmp then parts else tmp ∷ parts) ≡ tmp ++ concat parts
concat-left [] parts = refl
concat-left (c ∷ tmp) parts = refl

-- All the digits are in the parts, in their order, if there are rounds enough.
concat-comma_parts :
    (rounds : ℕ) (tmp : Text) (parts : List Text)
    → length tmp ≤ rounds
    → concat (comma_parts rounds tmp parts) ≡ tmp ++ concat parts
unfolding comma_parts
concat-comma_parts zero [] parts h = refl
concat-comma_parts zero (c ∷ tmp) parts h = ground (arith, h)
concat-comma_parts (suc rounds) tmp parts h = elim (Bool-cases (ltb 2 (length tmp))) [
  | inl e ↦ rw e (
      concat-comma_parts rounds (slice_before 2 tmp) (slice_last 2 tmp ∷ parts)
        (ground (arith, length-take (length tmp - 2) tmp))
      ∙ sym (append_assoc (slice_before 2 tmp) (slice_last 2 tmp) (concat parts))
      ∙ ap (λ s. s ++ concat parts) (slice_back 2 tmp))
  | inr e ↦ rw e (concat-left tmp parts)
]

-- The parts are pairs, but for the first, which may be a single digit.
pairs-comma_parts :
    (rounds : ℕ) (tmp : Text) (parts : List Text)
    → 1 ≤ length tmp
    → length tmp ≤ rounds
    → All (λ g. length g ≡ 2) parts
    → (first : Text) × (pairs : List Text) × (comma_parts rounds tmp parts ≡ first ∷ pairs)
      × IsGroup first
      × All (λ g. length g ≡ 2) pairs
unfolding comma_parts
pairs-comma_parts zero tmp parts l h p = absurd (omega (arith, l, h))
pairs-comma_parts (suc rounds) [] parts l h p = absurd (omega (arith, l))
pairs-comma_parts (suc rounds) (c ∷ tmp) parts l h p =
    elim (Bool-cases (ltb 2 (length (c ∷ tmp)))) [
      | inl e ↦ rw e (
          pairs-comma_parts rounds (slice_before 2 (c ∷ tmp)) (slice_last 2 (c ∷ tmp) ∷ parts)
            (ground (arith, length-take (length (c ∷ tmp) - 2) (c ∷ tmp)))
            (ground (arith, length-take (length (c ∷ tmp) - 2) (c ∷ tmp)))
            (ground (arith, length-drop (length (c ∷ tmp) - 2) (c ∷ tmp)), p))
      | inr e ↦ rw e (c ∷ tmp, parts, refl, (omega arith, ground arith), p)
    ]

-- `s` is the digits of an integer in the Indian grouping: three digits at the end, and before them
-- pairs, the first of which may be a single digit, with a comma between any two.
abbrev pub IsIndian : Text → Text → Type 0
IsIndian integer s =
    ((length integer ≤ 3) × (s ≡ integer))
    ⊎ ((first : Text) × (pairs : List Text) × (last : Text) × (s
          ≡ join (first ∷ pairs) ++ (44 ∷ last))
        × (first ++ (concat pairs ++ last) ≡ integer)
        × IsGroup first
        × All (λ g. length g ≡ 2) pairs
        × (length last ≡ 3))

grouped-IsIndian : (integer : Text) → IsIndian integer (grouped integer)
unfolding grouped
grouped-IsIndian integer = elim (Bool-cases (leb (length integer) 3)) [
  | inl e ↦ rw e (inl (ground arith, refl))
  | inr e ↦
      let rest = slice_before 3 integer in
      let long : 1 ≤ length rest = ground (arith, length-take (length integer - 3) integer) in
      let (first, pairs, same, group, two) =
        pairs-comma_parts (length rest) rest [] long (omega arith) tt in
      let whole : first ++ concat pairs ≡ rest =
        ap concat (sym same)
        ∙ concat-comma_parts (length rest) rest [] (omega arith)
        ∙ append-nil rest in
      rw e (
        inr (
          first,
          pairs,
          slice_last 3 integer,
          ap (λ ts. join ts ++ (44 ∷ slice_last 3 integer)) same,
          sym (append_assoc first (concat pairs) (slice_last 3 integer))
              ∙ ap (λ s. s ++ slice_last 3 integer) whole
              ∙ slice_back 3 integer,
          group,
          two,
          ground (arith, length-drop (length integer - 3) integer),
        ))
]

abbrev pub sign : Bool → Text
sign negative = if negative then codes "-" else []

signed : (negative : Bool) (s : Text) → (if negative then 45 ∷ s else s) ≡ sign negative ++ s
signed true s = refl
signed false s = refl

-- For a finite amount that is not compact, the text is the sign, ₹, the integer part of the rounded
-- number and its decimal part; the integer part has no comma if it has at most three digits, and
-- otherwise a comma before its last three digits and before every pair of digits before them, so
-- that one or two digits stand before the first comma.
pub fmt_inr_groups :
    {F : Type 0} (numbers : Numbers F) (n : F)
    → numbers.is_finite n ≡ true
    → (s : Text) × (fmt_inr numbers (some n) false
        ≡ sign (numbers.is_negative n)
          ++ (8377 ∷ s ++ decimal_part (numbers.to_fixed 2 (numbers.abs n))))
      × IsIndian (integer_part (numbers.to_fixed 2 (numbers.abs n))) s
unfolding fmt_inr full_text
fmt_inr_groups numbers n h =
    let fixed = numbers.to_fixed 2 (numbers.abs n) in
    (
      grouped (integer_part fixed),
      rw h (
          signed (numbers.is_negative n)
            (8377 ∷ grouped (integer_part fixed) ++ decimal_part fixed)),
      grouped-IsIndian (integer_part fixed),
    )
