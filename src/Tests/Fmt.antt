-- ===== src/Tests/Fmt.antt =====
-- Amounts, with whole numbers of rupees for the numbers of JavaScript.
use finance_buddy.Api.Request.{decimal}
use finance_buddy.Fmt.{Numbers, integer_part, decimal_part, fmt_inr, fmt_pct, fmt_num}
use finance_buddy.Fmt.Grouping.{fmt_inr_groups, sign, IsIndian}
use finance_buddy.Prelude.{Text, codes, false, ltb, none, refl, some, true, ℕ, ◌++◌, ◌/◌, ◌∷◌, ◌≡◌}

abbrev rupees : Numbers ℕ
unfolding decimal
rupees = record {
  is_finite = λ n. true;
  is_negative = λ n. false;
  is_positive = λ n. ltb 0 n;
  abs = λ n. n;
  to_fixed = λ d n. decimal n ++ codes ".00";
  round = λ n. n;
  divided = λ n m. n / m;
  locale = decimal;
}

amounts_test :
    (fmt_inr rupees (some 12345678) false ≡ codes "₹1,23,45,678")
    × (fmt_inr rupees (some 999) false ≡ codes "₹999")
    × (fmt_inr rupees (some 12345678) true ≡ codes "₹1.00 Cr")
    × (fmt_pct rupees (some 7) 2 ≡ codes "+7.00%")
    × (fmt_num rupees none 2 ≡ codes "0")
unfolding fmt_inr fmt_pct fmt_num rupees decimal
amounts_test = (refl, refl, refl, refl, refl)

fmt_inr_groups_example :
    (s : Text) × (fmt_inr rupees (some 1234567) false
      ≡ sign false ++ (8377 ∷ s ++ decimal_part (rupees.to_fixed 2 1234567)))
    × IsIndian (integer_part (rupees.to_fixed 2 1234567)) s
unfolding rupees
fmt_inr_groups_example = fmt_inr_groups rupees 1234567 refl
