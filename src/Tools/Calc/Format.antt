-- ===== src/Tools/Calc/Format.antt =====
-- internal/tools/calc.go: how the calculator writes a result. A denominator is positive, and is a natural
-- number here; the loops that divide it run on fuel, as many units as its value.
pub mod Decimals
use bepaylot.Prelude.{
  ℕ, zero, suc, ◌+◌, ◌*◌, ◌/◌, ◌%◌, max, Text, text, text_eq, trim_right, contains_rune, Bool, true,
  false, ◌||◌, Option, none, some, List, [], ◌∷◌, ◌==◌, ltb, length, if◌then◌else◌, Outcome, ok,
  failed, ◌>>=◌,
}
use bepaylot.GoLibrary.{Unicode, BigNumbers, ℤ, pos, negsuc}
use bepaylot.Tools.Calc.Arithmetic.{CalcError}
use bepaylot.Tools.Calc.{eval_expr}

-- defaultPrecision
abbrev pub default_precision : ℕ
default_precision = 10

-- maxExpressions
abbrev pub max_expressions : ℕ
max_expressions = 200

-- The loop that divides by `p` while it can: how often it did, and what is left.
unfoldable pub strip_factor : ℕ → ℕ → ℕ → ℕ × ℕ
strip_factor p zero x = (0, x)
strip_factor p (suc fuel) x =
    let rest = strip_factor p fuel (x / p) in if x % p == 0 then (suc rest.0, rest.1) else (0, x)

abbrev pub count_factor : ℕ → ℕ → ℕ × ℕ
count_factor p x = strip_factor p x x

-- decimalsNeeded
unfoldable pub decimals_needed : ℕ → ℕ
decimals_needed d = max (count_factor 2 d).0 (count_factor 5 (count_factor 2 d).1).0

-- terminates
unfoldable pub terminates : ℕ → Bool
terminates d = (count_factor 5 (count_factor 2 d).1).1 == 1

-- strings.TrimSuffix(s, ".")
abbrev pub trim_dot : Text → Text
trim_dot [] = []
trim_dot (c ∷ []) = if c == b'.' then [] else c ∷ []
trim_dot (c ∷ d ∷ s) = c ∷ trim_dot (d ∷ s)

abbrev pub or_zero : Text → Text
or_zero s = if text_eq s (text "-0") || text_eq s [] then text "0" else s

-- trimDecimal
unfoldable pub trim_decimal : Text → Text
trim_decimal s =
    if contains_rune s b'.' then or_zero (trim_dot (trim_right (λ c. c == b'0') s)) else s

module _ {Int Rat : Type 0} (b : BigNumbers Int Rat) where
  -- formatRat
  unfoldable pub format_rat : Rat → ℕ → Text × Bool
  format_rat r prec =
      let d = b.to_nat (b.denom r) in
      if b.is_int r
      then (b.int_text (b.num r), true)
      else if terminates d
      then (trim_decimal (b.float_string r (decimals_needed d)), true)
      else (trim_decimal (b.float_string r prec), false)

  -- EvalNumber
  unfoldable pub eval_number : {Float : Type 0} → Unicode Float → Text → Outcome CalcError Text
  eval_number u expr = eval_expr u b expr >>= λ v. ok (format_rat v default_precision).0

  -- calcResult
  pub record CalcResult : Type 0 where
    pub expression : Text
    pub result : Outcome CalcError (Text × Bool)

  -- The loop of the calculate tool.
  unfoldable pub calculate_all : {Float : Type 0} → Unicode Float → ℕ → List Text → List CalcResult
  calculate_all u prec [] = []
  calculate_all u prec (src ∷ srcs) =
      record { expression = src; result = eval_expr u b src >>= λ v. ok (format_rat v prec) }
      ∷ calculate_all u prec srcs

  -- The precision that the tool uses for the given one.
  abbrev pub used_precision : ℤ → ℕ
  used_precision (pos zero) = default_precision
  used_precision (pos (suc n)) = if ltb 50 (suc n) then 50 else suc n
  used_precision (negsuc n) = default_precision

  -- newCalculateTool: the call of the tool, `none` when it refuses the expressions
  unfoldable pub calculate :
      {Float : Type 0} → Unicode Float → List Text → ℤ → Option (List CalcResult)
  calculate u [] precision = none
  calculate u (src ∷ srcs) precision =
      if ltb max_expressions (length (src ∷ srcs))
      then none
      else some (calculate_all u (used_precision precision) (src ∷ srcs))

  -- What the repair of JSON takes from EvalNumber: a text, when there is no error.
  abbrev pub result_of : Outcome CalcError Text → Option Text
  result_of (ok s) = some s
  result_of _ = none
