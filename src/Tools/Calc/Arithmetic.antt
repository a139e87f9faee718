-- ===== src/Tools/Calc/Arithmetic.antt =====
-- internal/tools/calc.go: errors, powers, remainders, rounding and the functions of the calculator. A
-- division by zero of package math/big is a panic.
use bepaylot.Prelude.{
  ℕ, suc, ◌-◌, Text, text_eq, lit, Bool, true, false, ◌||◌, not, Option, none, some, List, [], ◌∷◌,
  if◌then◌else◌, length, Outcome, ok, failed, panicked, ◌>>=◌,
}
use bepaylot.GoLibrary.{BigNumbers}

-- The texts of the errors, as constructors.
pub data Problem : Type 0 where
  empty_expression too_long division_by_zero remainder_by_zero : Problem
  fractional_exponent exponent_too_large zero_to_negative_power : Problem
  unexpected_end missing_parenthesis two_numbers bad_round_digits : Problem
  unexpected : ℕ → Problem
  thousand_separators big_literal_exponent invalid_number : Text → Problem
  unknown_name expected_separator wrong_arguments unknown_function : Text → Problem

-- An error, and the position in its text; 0 if it has none.
pub record CalcError : Type 0 where
  pub problem : Problem
  pub position : ℕ

-- errorf, with the text from p.pos on
abbrev pub fail : {A : Type 0} → ℕ → Problem → Text → Outcome CalcError A
fail total problem rest =
    failed (record { problem = problem; position = suc (total - length rest) })

-- maxExponent
abbrev pub max_exponent : ℕ
max_exponent = 1000

module _ {Int Rat : Type 0} (b : BigNumbers Int Rat) where
  -- x.Quo(x, y) of rationals, of integers, and x.Div(x, y)
  abbrev pub rat_quo : Rat → Rat → Outcome CalcError Rat
  rat_quo x y = if b.is_zero y then panicked else ok (b.quo x y)

  abbrev pub checked : (Int → Int → Int) → Int → Int → Outcome CalcError Int
  checked op x y = if b.int_is_zero y then panicked else ok (op x y)

  -- x.SetFrac(num, den)
  abbrev pub set_frac : Int → Int → Outcome CalcError Rat
  set_frac num den = if b.int_is_zero den then panicked else ok (b.of_frac num den)

  -- ratTrunc
  unfoldable pub rat_trunc : Rat → Outcome CalcError Rat
  rat_trunc r = checked b.int_quo (b.num r) (b.denom r) >>= λ q. ok (b.of_int q)

  -- ratFloor
  unfoldable pub rat_floor : Rat → Outcome CalcError Rat
  rat_floor r = checked b.int_div (b.num r) (b.denom r) >>= λ q. ok (b.of_int q)

  -- ratMod
  unfoldable pub rat_mod : Rat → Rat → Outcome CalcError Rat
  rat_mod x y = rat_quo x y >>= λ q. rat_trunc q >>= λ t. ok (b.sub x (b.mul t y))

  -- big.NewRat(n, m) for positive m
  abbrev pub ratio : ℕ → ℕ → Outcome CalcError Rat
  ratio n m = set_frac (b.int_of n) (b.int_of m)

  abbrev pub scaled : Bool → Rat → Rat → Outcome CalcError Rat
  scaled true x scale = ok (b.mul x scale)
  scaled false x scale = rat_quo x scale

  -- ratRound; the digits are a sign and a number.
  unfoldable pub rat_round : Rat → Bool → ℕ → Outcome CalcError Rat
  rat_round r negative digits =
      let scale = b.of_int (b.int_exp (b.int_of 10) digits) in
      scaled (not negative) r scale >>= λ x. ratio 1 2 >>= λ half.
      rat_trunc (if b.is_negative x then b.sub x half else b.add x half) >>= λ t.
      scaled negative t scale

  -- The power, when the exponent fits: `n` and its sign.
  abbrev pub raised : ℕ → Text → Rat → Bool → ℕ → Outcome CalcError Rat
  raised total rest base negative n =
      let num = b.int_exp (b.num base) n in
      let den = b.int_exp (b.denom base) n in
      if negative
      then (if b.int_is_zero num then fail total zero_to_negative_power rest else set_frac den num)
      else set_frac num den

  -- pow
  unfoldable pub pow : ℕ → Text → Rat → Rat → Outcome CalcError Rat
  pow total rest base e =
      if not (b.is_int e)
      then fail total fractional_exponent rest
      else if b.int_exceeds (b.num e) max_exponent
      then fail total exponent_too_large rest
      else raised total rest base (b.int_is_negative (b.num e)) (b.magnitude (b.num e))

  -- The loops of min and max, and of sum.
  unfoldable pub best_of : (Rat → Rat → Bool) → Rat → List Rat → Rat
  best_of better best [] = best
  best_of better best (x ∷ xs) = best_of better (if better x best then x else best) xs

  unfoldable pub sum_of : Rat → List Rat → Rat
  sum_of total [] = total
  sum_of total (x ∷ xs) = sum_of (b.add total x) xs

  -- new(big.Rat)
  abbrev pub zero_rat : Rat
  zero_rat = b.of_int (b.int_of 0)

  -- The functions, on arguments of a number they accept.
  pub data Function : Type 0 where
    abs_fn floor_fn ceil_fn round_fn min_fn max_fn sum_fn avg_fn : Function

  unfoldable pub function_named : Text → Option Function
  function_named name =
      if text_eq name (lit "abs")
      then some abs_fn
      else if text_eq name (lit "floor")
      then some floor_fn
      else if text_eq name (lit "ceil")
      then some ceil_fn
      else if text_eq name (lit "round")
      then some round_fn
      else if text_eq name (lit "min")
      then some min_fn
      else if text_eq name (lit "max")
      then some max_fn
      else if text_eq name (lit "sum")
      then some sum_fn
      else if text_eq name (lit "avg")
      then some avg_fn
      else none

  abbrev pub ceil_of : Rat → Rat → Outcome CalcError Rat
  ceil_of x floor =
      if not (b.is_int x) then (ratio 1 1 >>= λ one. ok (b.add floor one)) else ok floor

  abbrev pub rounded : ℕ → Text → Rat → Rat → Outcome CalcError Rat
  rounded total rest x digits =
      if not (b.is_int digits) || b.int_exceeds (b.num digits) 50
      then fail total bad_round_digits rest
      else rat_round x (b.int_is_negative (b.num digits)) (b.magnitude (b.num digits))

  abbrev pub applied : ℕ → Text → Text → Function → List Rat → Outcome CalcError Rat
  applied total rest name abs_fn (x ∷ []) = ok (b.abs x)
  applied total rest name floor_fn (x ∷ []) = rat_floor x
  applied total rest name ceil_fn (x ∷ []) = rat_floor x >>= λ floor. ceil_of x floor
  applied total rest name round_fn (x ∷ []) = rat_round x false 0
  applied total rest name round_fn (x ∷ d ∷ []) = rounded total rest x d
  applied total rest name min_fn (x ∷ xs) = ok (best_of (λ y z. b.less y z) x xs)
  applied total rest name max_fn (x ∷ xs) = ok (best_of (λ y z. b.less z y) x xs)
  applied total rest name sum_fn (x ∷ xs) = ok (sum_of zero_rat (x ∷ xs))
  applied total rest name avg_fn (x ∷ xs) =
      ratio (suc (length xs)) 1 >>= λ n. rat_quo (sum_of zero_rat (x ∷ xs)) n
  applied total rest name f xs = fail total (wrong_arguments name) rest

  abbrev pub call_found : ℕ → Text → Text → List Rat → Option Function → Outcome CalcError Rat
  call_found total rest name args none = fail total (unknown_function name) rest
  call_found total rest name args (some f) = applied total rest name f args

  -- callFunc
  unfoldable pub call_func : ℕ → Text → Text → List Rat → Outcome CalcError Rat
  call_func total rest name args = call_found total rest name args (function_named name)
