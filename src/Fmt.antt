-- ===== src/Fmt.antt =====
-- Numbers as texts, frontend/src/shared/utils/fmt.ts. What JavaScript does with a number is the
-- argument `Numbers`: `to_fixed d n` is `n.toFixed(d)`, `round` is `Math.round`, `locale` is
-- `toLocaleString('en-IN')` of a rounded number.
pub mod Grouping
use finance_buddy.Prelude.{
  Bool, List, Option, Text, [], codes, drop, if◌then◌else◌, is_empty, leb, length, ltb, nat_eq,
  none, not, some, suc, take, text_eq, zero, ℕ, ◌++◌, ◌-◌, ◌∷◌,
}
use finance_buddy.Queries.Key.{join}

pub record Numbers (F : Type 0) : Type 0 where
  pub is_finite : F → Bool
  pub is_negative : F → Bool
  pub is_positive : F → Bool
  pub abs : F → F
  pub to_fixed : ℕ → F → Text
  pub round : F → ℕ
  pub divided : F → ℕ → F
  pub locale : ℕ → Text

-- `s.slice(-n)` and `s.slice(0, -n)` for a positive n.
abbrev pub slice_last : ℕ → Text → Text
slice_last n s = drop (length s - n) s

abbrev pub slice_before : ℕ → Text → Text
slice_before n s = take (length s - n) s

-- The loop that takes pairs of digits from the end, and the digits that are left; the number of
-- rounds is fuel.
unfoldable pub comma_parts : ℕ → Text → List Text → List Text
comma_parts zero tmp parts = parts
comma_parts (suc rounds) tmp parts =
    let more = comma_parts rounds (slice_before 2 tmp) (slice_last 2 tmp ∷ parts) in
    if ltb 2 (length tmp) then more else if is_empty tmp then parts else tmp ∷ parts

-- `s.split('.')`: the first part, and the second if there is one.
abbrev first_part : Text → Text
first_part [] = []
first_part (c ∷ s) = let rest = first_part s in if nat_eq c 46 then [] else c ∷ rest

abbrev after_dot : Text → Option Text
after_dot [] = none
after_dot (c ∷ s) = let rest = after_dot s in if nat_eq c 46 then some (first_part s) else rest

-- `parts[1] === '00' ? '' : `.${parts[1]}``
abbrev decimals_of : Option Text → Text
decimals_of none = codes ".undefined"
decimals_of (some d) = if text_eq d (codes "00") then [] else 46 ∷ d

abbrev pub integer_part : Text → Text
integer_part fixed = first_part fixed

abbrev pub decimal_part : Text → Text
decimal_part fixed = decimals_of (after_dot fixed)

unfoldable pub grouped : Text → Text
unfolding comma_parts
grouped integer =
    let rest = slice_before 3 integer in
    if leb (length integer) 3
    then integer
    else join (comma_parts (length rest) rest []) ++ (44 ∷ slice_last 3 integer)

module _ {F : Type 0} (numbers : Numbers F) where
  unfoldable pub compact_text : F → Text
  compact_text n =
      if leb 10000000 (numbers.round n)
      then 8377 ∷ numbers.to_fixed 2 (numbers.divided n 10000000) ++ codes " Cr"
      else if leb 100000 (numbers.round n)
      then 8377 ∷ numbers.to_fixed 2 (numbers.divided n 100000) ++ codes " L"
      else 8377 ∷ numbers.locale (numbers.round n)

  unfoldable pub full_text : F → Text
  unfolding grouped
  full_text n =
      let fixed = numbers.to_fixed 2 n in 8377 ∷ grouped (integer_part fixed) ++ decimal_part fixed

  unfoldable pub fmt_inr : Option F → Bool → Text
  unfolding compact_text full_text
  fmt_inr none compact = codes "₹0"
  fmt_inr (some n) compact =
      let result = if compact then compact_text (numbers.abs n) else full_text (numbers.abs n) in
      if not (numbers.is_finite n)
      then codes "₹0"
      else if numbers.is_negative n
      then 45 ∷ result
      else result

  unfoldable pub fmt_pct : Option F → ℕ → Text
  fmt_pct none decimals = codes "0.00%"
  fmt_pct (some n) decimals =
      if not (numbers.is_finite n)
      then codes "0.00%"
      else (if numbers.is_positive n then codes "+" else [])
        ++ numbers.to_fixed decimals n
        ++ codes "%"

  unfoldable pub fmt_num : Option F → ℕ → Text
  fmt_num none decimals = codes "0"
  fmt_num (some n) decimals =
      if not (numbers.is_finite n) then codes "0" else numbers.to_fixed decimals n
