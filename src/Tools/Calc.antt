-- ===== src/Tools/Calc.antt =====
-- internal/tools/calc.go: the parser of the calculator, which evaluates as it goes. The state `{src, pos}`
-- of the parser is the text from `pos` on; a position in an error is counted back from `total`, the length
-- of the source. `parse_expr` runs on fuel, a unit for each level of brackets, and the loops and parseUnary
-- on fuel of their own, a unit for each rune left and one more.
pub mod Arithmetic
pub mod Literal
pub mod Safe
pub mod Reads
pub mod Total
pub mod Format
use bepaylot.Prelude.{
  ℕ, zero, suc, ◌+◌, ◌-◌, Text, text, text_eq, trim, trim_left, Bool, true, false, ◌&&◌, ◌||◌, not,
  Option, none, some, List, [], ◌∷◌, ◌++◌, ◌==◌, ltb, if◌then◌else◌, length, Outcome, ok, failed,
  panicked, out_of_fuel, ◌>>=◌,
}
use bepaylot.GoLibrary.{Unicode, BigNumbers}
use bepaylot.TextUtil.Numbers.{byte_len}
use bepaylot.Tools.Calc.Arithmetic.{
  CalcError, Problem, fail, pow, rat_mod, call_func, empty_expression, too_long, unexpected,
  division_by_zero, remainder_by_zero, unexpected_end, missing_parenthesis, unknown_name,
  expected_separator,
}
use bepaylot.Tools.Calc.Literal.{Parser, span_of, parse_number, is_name_rune}

-- maxExprLen
abbrev pub max_expr_len : ℕ
max_expr_len = 2000

pub data AddOp : Type 0 where
  plus minus : AddOp

pub data MulOp : Type 0 where
  times over modulo : MulOp

abbrev pub add_op : ℕ → Option AddOp
add_op c = if c == b'+' then some plus else if c == b'-' then some minus else none

abbrev pub mul_op : ℕ → Option MulOp
mul_op c =
    if c == b'*'
    then some times
    else if c == b'/'
    then some over
    else if c == b'%'
    then some modulo
    else none

-- What parseUnary finds.
pub data UnaryStep : Type 0 where
  negates keeps no_sign : UnaryStep

abbrev pub unary_step : ℕ → UnaryStep
unary_step c = if c == b'-' then negates else if c == b'+' then keeps else no_sign

-- What parseCall finds after an argument.
pub data ArgStep : Type 0 where
  more closing neither : ArgStep

abbrev pub arg_step : ℕ → ArgStep
arg_step c = if c == b',' || c == b';' then more else if c == b')' then closing else neither

module _ {Float Int Rat : Type 0} (u : Unicode Float) (b : BigNumbers Int Rat) (total : ℕ) where
  -- skipSpace
  abbrev pub skip_space : Text → Text
  skip_space s = trim_left u.is_space s

  -- The loops of parseExpr and parseTerm.
  module _ {Op : Type 0} (op_at : ℕ → Option Op)
      (join : Op → Rat → Rat → Text → Outcome CalcError Rat) (operand : Parser Rat) where
    abbrev pub chain_op :
        Rat → ℕ → Text → (Rat → Parser Rat) → Option Op → Outcome CalcError (Rat × Text)
    chain_op left c cs go none = ok (left, c ∷ cs)
    chain_op left c cs go (some o) =
        operand cs >>= λ (right, s). join o left right s >>= λ v. go v s

    abbrev pub chain_at : Rat → Text → (Rat → Parser Rat) → Outcome CalcError (Rat × Text)
    chain_at left [] go = ok (left, [])
    chain_at left (c ∷ cs) go = chain_op left c cs go (op_at c)

    unfoldable pub chain : ℕ → Rat → Parser Rat
    chain zero left s = out_of_fuel
    chain (suc fuel) left s = chain_at left (skip_space s) (λ v s'. chain fuel v s')

    unfoldable pub level : Parser Rat
    level s = operand s >>= λ (left, s'). chain (suc (length s')) left s'

  abbrev pub add_join : AddOp → Rat → Rat → Text → Outcome CalcError Rat
  add_join plus x y s = ok (b.add x y)
  add_join minus x y s = ok (b.sub x y)

  abbrev pub mul_join : MulOp → Rat → Rat → Text → Outcome CalcError Rat
  mul_join times x y s = ok (b.mul x y)
  mul_join over x y s = if b.is_zero y then fail total division_by_zero s else ok (b.quo x y)
  mul_join modulo x y s = if b.is_zero y then fail total remainder_by_zero s else rat_mod b x y

  -- `expr` is parseExpr.
  module _ (expr : Parser Rat) where
    abbrev pub close_at : Rat → Text → Outcome CalcError (Rat × Text)
    close_at v [] = fail total missing_parenthesis []
    close_at v (c ∷ cs) = if c == b')' then ok (v, cs) else fail total missing_parenthesis (c ∷ cs)

    abbrev pub next_arg :
        ArgStep
        → Text
        → List Rat
        → ℕ
        → Text
        → (List Rat → Parser (List Rat))
        → Outcome CalcError (List Rat × Text)
    next_arg more name args c cs go = go args cs
    next_arg closing name args c cs go = ok (args, cs)
    next_arg neither name args c cs go = fail total (expected_separator name) (c ∷ cs)

    abbrev pub after_arg :
        Text
        → List Rat
        → Text
        → (List Rat → Parser (List Rat))
        → Outcome CalcError (List Rat × Text)
    after_arg name args [] go = fail total (expected_separator name) []
    after_arg name args (c ∷ cs) go = next_arg (arg_step c) name args c cs go

    -- The loop over the arguments, with those before.
    unfoldable pub call_args : ℕ → Text → List Rat → Parser (List Rat)
    call_args zero name args s = out_of_fuel
    call_args (suc fuel) name args s = expr s >>= λ (v, s').
        after_arg name (args ++ v ∷ []) (skip_space s') (λ args' s''. call_args fuel name args' s'')

    -- After the opening parenthesis.
    abbrev pub all_args : Text → Text → Outcome CalcError (List Rat × Text)
    all_args name [] = call_args 1 name [] []
    all_args name (c ∷ cs) =
        if c == b')' then ok ([], cs) else call_args (suc (suc (length cs))) name [] (c ∷ cs)

    abbrev pub after_args : Text → List Rat × Text → Outcome CalcError (Rat × Text)
    after_args name (args, s) = call_func b total s name args >>= λ v. ok (v, s)

    abbrev pub called : Text → Text → Text → Outcome CalcError (Rat × Text)
    called start name [] = fail total (unknown_name name) start
    called start name (c ∷ cs) =
        if c == b'('
        then all_args name (skip_space cs) >>= after_args name
        else fail total (unknown_name name) start

    -- parseCall
    unfoldable pub parse_call : Parser Rat
    parse_call s =
        let (name, rest) = span_of (is_name_rune u b total) s in
        called s (u.to_lower name) (skip_space rest)

    abbrev pub primary_at : Text → Outcome CalcError (Rat × Text)
    primary_at [] = fail total unexpected_end []
    primary_at (c ∷ cs) =
        if c == 0
        then fail total unexpected_end (c ∷ cs)
        else if c == b'('
        then (expr cs >>= λ (v, s). close_at v (skip_space s))
        else if u.is_digit c || c == b'.'
        then parse_number u b total (c ∷ cs)
        else if u.is_letter c
        then parse_call (c ∷ cs)
        else fail total (unexpected c) (c ∷ cs)

    -- parsePrimary
    unfoldable pub parse_primary : Parser Rat
    parse_primary s = primary_at (skip_space s)

    abbrev pub power_at : Parser Rat → Rat → Text → Outcome CalcError (Rat × Text)
    power_at unary base [] = ok (base, [])
    power_at unary base (c ∷ cs) =
        if c == b'^'
        then (unary cs >>= λ (e, s). pow b total s base e >>= λ v. ok (v, s))
        else ok (base, c ∷ cs)

    -- parsePower
    unfoldable pub parse_power : Parser Rat → Parser Rat
    parse_power unary s = parse_primary s >>= λ (base, s'). power_at unary base (skip_space s')

    abbrev pub unary_next : UnaryStep → ℕ → Text → Parser Rat → Outcome CalcError (Rat × Text)
    unary_next negates c cs go = go cs >>= λ (v, s). ok (b.neg v, s)
    unary_next keeps c cs go = go cs
    unary_next no_sign c cs go = parse_power go (c ∷ cs)

    abbrev pub unary_at : Text → Parser Rat → Outcome CalcError (Rat × Text)
    unary_at [] go = parse_power go []
    unary_at (c ∷ cs) go = unary_next (unary_step c) c cs go

    -- parseUnary, on fuel
    unfoldable pub unary_from : ℕ → Parser Rat
    unary_from zero s = out_of_fuel
    unary_from (suc fuel) s = unary_at (skip_space s) (λ s'. unary_from fuel s')

    unfoldable pub parse_unary : Parser Rat
    parse_unary s = unary_from (suc (length s)) s

    -- parseTerm
    unfoldable pub parse_term : Parser Rat
    parse_term = level mul_op mul_join parse_unary

    unfoldable pub parse_sum : Parser Rat
    parse_sum = level add_op add_join parse_term

  -- parseExpr, on fuel
  unfoldable pub parse_expr : ℕ → Parser Rat
  parse_expr zero s = out_of_fuel
  parse_expr (suc fuel) s = parse_sum (λ s'. parse_expr fuel s') s

  abbrev pub end_of : Rat → Text → Outcome CalcError Rat
  end_of v [] = ok v
  end_of v (c ∷ cs) = fail total (unexpected c) (c ∷ cs)

  abbrev pub evaluate : Text → Outcome CalcError Rat
  evaluate s = parse_expr (suc (length s)) s >>= λ (v, s'). end_of v (skip_space s')

-- evalExpr
unfoldable pub eval_expr :
    {Float Int Rat : Type 0} → Unicode Float → BigNumbers Int Rat → Text → Outcome CalcError Rat
eval_expr u b src =
    let s = trim u.is_space src in
    if text_eq s []
    then failed (record { problem = empty_expression; position = 0 })
    else if ltb max_expr_len (byte_len s)
    then failed (record { problem = too_long; position = 0 })
    else evaluate u b (length s) s
