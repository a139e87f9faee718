-- ===== src/Tests/CalcTests.antt =====
-- internal/tools/calc.go on natural numbers in place of rational ones.
use bepaylot.Prelude.{
  ℕ, ◌+◌, ◌-◌, ◌*◌, ◌/◌, ◌^◌, ◌≡◌, refl, max, Text, text, text_eq, lit, trim, trim_left, trim_right,
  true, false, [], ◌∷◌, ◌⊎◌, ◌↔◌, ◌==◌, ltb, ok, failed, arith,
}
use bepaylot.GoLibrary.{BigNumbers}
use bepaylot.TextUtil.Numbers.{byte_len, utf8_len}
use bepaylot.Tools.Calc.Arithmetic.{
  CalcError, division_by_zero, pow, call_func, function_named, best_of,
}
use bepaylot.Tools.Calc.Literal.{span_of, exponent_part, parse_number}
use bepaylot.Tools.Calc.{
  eval_expr, parse_expr, parse_sum, parse_term, parse_unary, unary_from, parse_power, parse_primary,
  parse_call, call_args, level, chain,
}
use bepaylot.Tools.Calc.Total.{eval_expr_total}
use bepaylot.Tools.Calc.Format.{terminates, decimals_needed, strip_factor}
use bepaylot.Tools.Calc.Format.Decimals.{terminates_iff}
use bepaylot.Tests.Sample.{ascii, decimal_from}
use native.Mathlib.Nat.{one-le-pow}

power_nonzero : (x n : ℕ) → (x == 0) ≡ false → (x ^ n == 0) ≡ false
power_nonzero x n h = ground (arith, one-le-pow n x (ground (arith, h)))

-- Every number is its own numerator.
abbrev whole_numbers : BigNumbers ℕ ℕ
whole_numbers = record {
  int_is_zero = λ x. x == 0;
  int_is_negative = λ x. false;
  int_exceeds = λ x n. ltb n x;
  magnitude = λ x. x;
  int_of = λ n. n;
  int_exp = λ x n. x ^ n;
  int_quo = λ x y. x / y;
  int_div = λ x y. x / y;
  read_int = decimal_from 0;
  int_text = λ x. x ∷ [];
  to_nat = λ x. x;
  add = λ x y. x + y;
  sub = λ x y. x - y;
  mul = λ x y. x * y;
  quo = λ x y. x / y;
  neg = λ x. 0;
  abs = λ x. x;
  is_zero = λ x. x == 0;
  is_negative = λ x. false;
  less = ltb;
  is_int = λ x. true;
  num = λ x. x;
  denom = λ x. 1;
  of_int = λ x. x;
  of_frac = λ x y. x;
  read_rat = decimal_from 0;
  float_string = λ x n. x ∷ [];
  denom-int_is_zero = λ r. refl;
  exp-int_is_zero = power_nonzero;
  of_int-is_zero = λ x h. h;
  of_frac-is_zero = λ x y h. h;
  int_of-int_is_zero = λ n. ground arith;
}

abbrev source : Text
source = text "2 + 3 * 4 ^ 2 - max(1, 1 + 1)"

eval_expr_total_example :
    ((v : ℕ) × (eval_expr ascii whole_numbers source ≡ ok v))
    ⊎ ((e : CalcError) × (eval_expr ascii whole_numbers source ≡ failed e))
eval_expr_total_example = eval_expr_total ascii whole_numbers source

powers_first : eval_expr ascii whole_numbers source ≡ ok 48
unfolding eval_expr parse_expr parse_sum parse_term parse_unary unary_from parse_power parse_primary
    parse_call call_args level chain pow call_func function_named span_of exponent_part parse_number
    byte_len utf8_len text_eq lit trim trim_left trim_right best_of
powers_first = refl

by_zero :
    eval_expr ascii whole_numbers (text "1 / 0")
    ≡ failed (record { problem = division_by_zero; position = 6 })
unfolding eval_expr parse_expr parse_sum parse_term parse_unary unary_from parse_power parse_primary
    level chain span_of exponent_part parse_number byte_len utf8_len text_eq trim trim_left
    trim_right
by_zero = refl

terminates_iff_example :
    (terminates 40 ≡ true)
    ↔ ((a : ℕ) × (b : ℕ) × (40 ≡ 2 ^ a * 5 ^ b) × (decimals_needed 40 ≡ max a b))
terminates_iff_example = terminates_iff 40 (omega arith)

three_decimals : decimals_needed 40 ≡ 3
unfolding decimals_needed strip_factor
three_decimals = refl
