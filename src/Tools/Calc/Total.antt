-- ===== src/Tools/Calc/Total.antt =====
-- internal/tools/calc.go: the parser of the calculator ends on every text, with a value or an error.
use bepaylot.Prelude.{
  ℕ, zero, suc, ◌<◌, ◌≡◌, Text, text_eq, trim, trim_left, true, ◌||◌, Option, none, some, List, [],
  ◌∷◌, ◌++◌, ◌==◌, ltb, length, Outcome, ok, failed, Returns, holds, rejected, Returns-if,
  Returns-bind, Returns-weaken, Returns-cases, ◌⊎◌, arith,
}
use bepaylot.GoLibrary.{Unicode, BigNumbers}
use bepaylot.TextUtil.Numbers.{byte_len}
use bepaylot.Tools.Calc.Arithmetic.{CalcError}
use bepaylot.Tools.Calc.Literal.{Parser, span_of, is_name_rune}
use bepaylot.Tools.Calc.Reads.{trim_left-le, span_of-first, Leaves, Takes, Good, parse_number-Takes}
use bepaylot.Tools.Calc.Safe.{Safe, rat_mod-Safe, pow-Safe, call_func-Safe}
use bepaylot.Tools.Calc.{
  AddOp, MulOp, plus, minus, times, over, modulo, add_op, mul_op, UnaryStep, negates, keeps,
  no_sign, unary_step, ArgStep, more, closing, neither, arg_step, chain_op, chain_at, chain, level,
  add_join, mul_join, close_at, next_arg, after_arg, call_args, all_args, called, parse_call,
  primary_at, parse_primary, power_at, parse_power, unary_next, unary_at, unary_from, parse_unary,
  parse_term, parse_sum, parse_expr, end_of, evaluate, eval_expr,
}

module _ {Float Int Rat : Type 0} (u : Unicode Float) (b : BigNumbers Int Rat) (total : ℕ) where
  -- The loops of operators.
  module _ {Op : Type 0} (op_at : ℕ → Option Op)
      (join : Op → Rat → Rat → Text → Outcome CalcError Rat)
      (safe : (o : Op) (x y : Rat) (s : Text) → Safe (join o x y s)) {n : ℕ} {operand : Parser Rat}
      (good : Good n operand) where
    chain_op-Returns :
        (left : Rat) (c : ℕ) (cs : Text) (go : Rat → Parser Rat) (o : Option Op)
        → length cs < n
        → ((v : Rat) (s : Text) → length s < length cs → Returns (Leaves s) (go v s))
        → Returns (Leaves (c ∷ cs)) (chain_op u b total op_at join operand left c cs go o)
    chain_op-Returns left c cs go none h k = holds (omega arith)
    chain_op-Returns left c cs go (some o) h k = Returns-bind (good cs h) λ p took.
        Returns-bind (safe o left p.0 p.1)
          λ v _. Returns-weaken (k v p.1 took) λ r le. omega (arith, le, took)

    chain_at-Returns :
        (left : Rat) (s : Text) (go : Rat → Parser Rat)
        → length s < suc n
        → ((v : Rat) (s' : Text) → suc (length s') < length s → Returns (Leaves s') (go v s'))
        → Returns (Leaves s) (chain_at u b total op_at join operand left s go)
    chain_at-Returns left [] go h k = holds (omega arith)
    chain_at-Returns left (c ∷ cs) go h k =
        chain_op-Returns left c cs go (op_at c) (omega (arith, h))
          (λ v s l. k v s (omega (arith, l)))

    chain-Returns :
        (fuel : ℕ) (left : Rat) (s : Text)
        → length s < suc n
        → length s < fuel
        → Returns (Leaves s) (chain u b total op_at join operand fuel left s)
    unfolding chain
    chain-Returns zero left s h k = absurd (omega (arith, k))
    chain-Returns (suc fuel) left s h k =
        let le = trim_left-le u.is_space s in
        Returns-weaken
          (chain_at-Returns left (trim_left u.is_space s) _ (omega (arith, h, le))
            λ v s' l. chain-Returns fuel v s' (omega (arith, l, h, le)) (omega (arith, l, k, le)))
          λ r l. omega (arith, l, le)

    level-Good : Good n (level u b total op_at join operand)
    unfolding level
    level-Good s h = Returns-bind (good s h) λ p took.
        Returns-weaken
          (chain-Returns (suc (length p.1)) p.0 p.1 (omega (arith, took, h)) (omega arith))
          λ r le. omega (arith, le, took)

  add_join-Safe : (o : AddOp) (x y : Rat) (s : Text) → Safe (add_join u b total o x y s)
  add_join-Safe plus x y s = holds tt
  add_join-Safe minus x y s = holds tt

  mul_join-Safe : (o : MulOp) (x y : Rat) (s : Text) → Safe (mul_join u b total o x y s)
  mul_join-Safe times x y s = holds tt
  mul_join-Safe over x y s = Returns-if (b.is_zero y) (λ e. rejected) (λ e. holds tt)
  mul_join-Safe modulo x y s = Returns-if (b.is_zero y) (λ e. rejected) (λ e. rat_mod-Safe b x y e)

  module _ {n : ℕ} {expr : Parser Rat} (good : Good n expr) where
    close_at-Leaves : (v : Rat) (s : Text) → Returns (Leaves s) (close_at u b total expr v s)
    close_at-Leaves v [] = rejected
    close_at-Leaves v (c ∷ cs) = Returns-if (c == b')') (λ e. holds (omega arith)) (λ e. rejected)

    next_arg-Leaves :
        (k : ArgStep) (name : Text) (args : List Rat) (c : ℕ) (cs : Text)
        (go : List Rat → Parser (List Rat))
        → Returns (Leaves cs) (go args cs)
        → Returns (Leaves (c ∷ cs)) (next_arg u b total expr k name args c cs go)
    next_arg-Leaves more name args c cs go h = Returns-weaken h λ r le. omega (arith, le)
    next_arg-Leaves closing name args c cs go h = holds (omega arith)
    next_arg-Leaves neither name args c cs go h = rejected

    after_arg-Leaves :
        (name : Text) (args : List Rat) (s : Text) (go : List Rat → Parser (List Rat))
        → ((s' : Text) → length s' < length s → Returns (Leaves s') (go args s'))
        → Returns (Leaves s) (after_arg u b total expr name args s go)
    after_arg-Leaves name args [] go h = rejected
    after_arg-Leaves name args (c ∷ cs) go h =
        next_arg-Leaves (arg_step c) name args c cs go (h cs (omega arith))

    call_args-Leaves :
        (fuel : ℕ) (name : Text) (args : List Rat) (s : Text)
        → length s < n
        → length s < fuel
        → Returns (Leaves s) (call_args u b total expr fuel name args s)
    unfolding call_args
    call_args-Leaves zero name args s h k = absurd (omega (arith, k))
    call_args-Leaves (suc fuel) name args s h k = Returns-bind (good s h) λ p took.
        let le = trim_left-le u.is_space p.1 in
        Returns-weaken
          (after_arg-Leaves name (args ++ p.0 ∷ []) (trim_left u.is_space p.1) _ λ s' l.
            call_args-Leaves fuel name _ s' (omega (arith, l, le, took, h))
              (omega (arith, l, le, took, k)))
          λ r l. omega (arith, l, le, took)

    all_args-Leaves :
        (name s : Text) → length s < n → Returns (Leaves s) (all_args u b total expr name s)
    all_args-Leaves name [] h = call_args-Leaves 1 name [] [] h (omega arith)
    all_args-Leaves name (c ∷ cs) h =
        Returns-if (c == b')') (λ e. holds (omega arith))
          (λ e. call_args-Leaves _ name [] (c ∷ cs) h (omega arith))

    called-Leaves :
        (start name s : Text)
        → length s < suc n
        → Returns (Leaves s) (called u b total expr start name s)
    called-Leaves start name [] h = rejected
    called-Leaves start name (c ∷ cs) h =
        let le = trim_left-le u.is_space cs in
        Returns-if (c == b'(')
          (λ e.
            Returns-bind (all_args-Leaves name (trim_left u.is_space cs) (omega (arith, le, h)))
              λ p l.
                Returns-bind (call_func-Safe b total p.1 name p.0)
                  λ v _. holds (omega (arith, l, le)))
          (λ e. rejected)

    parse_call-Takes :
        (c : ℕ) (cs : Text)
        → u.is_letter c ≡ true
        → length cs < n
        → Returns (Takes (c ∷ cs)) (parse_call u b total expr (c ∷ cs))
    unfolding parse_call
    parse_call-Takes c cs e h =
        let rest = (span_of (is_name_rune u b total) (c ∷ cs)).1 in
        let first = span_of-first (is_name_rune u b total) c cs (ground (arith, e)) in
        let le = trim_left-le u.is_space rest in
        Returns-weaken
          (called-Leaves (c ∷ cs) _ (trim_left u.is_space rest) (omega (arith, le, first, h)))
          λ r l. omega (arith, l, le, first)

    primary_at-Takes :
        (s : Text) → length s < suc n → Returns (Takes s) (primary_at u b total expr s)
    primary_at-Takes [] h = rejected
    primary_at-Takes (c ∷ cs) h =
        Returns-if (c == 0) (λ e. rejected)
          (λ e0.
            Returns-if (c == b'(')
              (λ e. Returns-bind (good cs (omega (arith, h))) λ p took.
                let le = trim_left-le u.is_space p.1 in
                Returns-weaken (close_at-Leaves p.0 (trim_left u.is_space p.1))
                  λ r l. omega (arith, l, le, took))
              (λ e1.
                Returns-if (u.is_digit c || c == b'.')
                  (λ e. parse_number-Takes u b total c cs (ground (arith, e)))
                  (λ e2.
                    Returns-if (u.is_letter c) (λ e. parse_call-Takes c cs e (omega (arith, h)))
                      (λ e. rejected))))

    parse_primary-Takes :
        (s : Text) → length s < suc n → Returns (Takes s) (parse_primary u b total expr s)
    unfolding parse_primary
    parse_primary-Takes s h =
        let le = trim_left-le u.is_space s in
        Returns-weaken (primary_at-Takes (trim_left u.is_space s) (omega (arith, le, h)))
          λ r l. omega (arith, l, le)

    power_at-Leaves :
        (unary : Parser Rat) (base : Rat) (s : Text)
        → ((s' : Text) → length s' < length s → Returns (Takes s') (unary s'))
        → Returns (Leaves s) (power_at u b total expr unary base s)
    power_at-Leaves unary base [] k = holds (omega arith)
    power_at-Leaves unary base (c ∷ cs) k =
        Returns-if (c == b'^')
          (λ e. Returns-bind (k cs (omega arith)) λ p took.
            Returns-bind (pow-Safe b total p.1 base p.0) λ v _. holds (omega (arith, took)))
          (λ e. holds (omega arith))

    parse_power-Takes :
        (unary : Parser Rat) (s : Text)
        → length s < suc n
        → ((s' : Text) → suc (length s') < length s → Returns (Takes s') (unary s'))
        → Returns (Takes s) (parse_power u b total expr unary s)
    unfolding parse_power
    parse_power-Takes unary s h k = Returns-bind (parse_primary-Takes s h) λ p took.
        let le = trim_left-le u.is_space p.1 in
        Returns-weaken
          (power_at-Leaves unary p.0 (trim_left u.is_space p.1)
            λ s' l. k s' (omega (arith, l, le, took)))
          λ r l. omega (arith, l, le, took)

    unary_next-Takes :
        (k : UnaryStep) (c : ℕ) (cs : Text) (go : Parser Rat)
        → suc (length cs) < suc n
        → ((s' : Text) → length s' < suc (length cs) → Returns (Takes s') (go s'))
        → Returns (Takes (c ∷ cs)) (unary_next u b total expr k c cs go)
    unary_next-Takes negates c cs go h k =
        Returns-bind (k cs (omega arith)) λ p took. holds (omega (arith, took))
    unary_next-Takes keeps c cs go h k =
        Returns-weaken (k cs (omega arith)) λ r took. omega (arith, took)
    unary_next-Takes no_sign c cs go h k =
        parse_power-Takes go (c ∷ cs) h (λ s' l. k s' (omega (arith, l)))

    unary_at-Takes :
        (s : Text) (go : Parser Rat)
        → length s < suc n
        → ((s' : Text) → length s' < length s → Returns (Takes s') (go s'))
        → Returns (Takes s) (unary_at u b total expr s go)
    unary_at-Takes [] go h k = parse_power-Takes go [] h (λ s' l. absurd (omega (arith, l)))
    unary_at-Takes (c ∷ cs) go h k = unary_next-Takes (unary_step c) c cs go h k

    unary_from-Takes :
        (fuel : ℕ) (s : Text)
        → length s < suc n
        → length s < fuel
        → Returns (Takes s) (unary_from u b total expr fuel s)
    unfolding unary_from
    unary_from-Takes zero s h k = absurd (omega (arith, k))
    unary_from-Takes (suc fuel) s h k =
        let le = trim_left-le u.is_space s in
        Returns-weaken
          (unary_at-Takes (trim_left u.is_space s) _ (omega (arith, le, h))
            λ s' l. unary_from-Takes fuel s' (omega (arith, l, le, h)) (omega (arith, l, le, k)))
          λ r l. omega (arith, l, le)

    parse_unary-Good : Good (suc n) (parse_unary u b total expr)
    unfolding parse_unary
    parse_unary-Good s h = unary_from-Takes (suc (length s)) s h (omega arith)

    parse_sum-Good : Good (suc n) (parse_sum u b total expr)
    unfolding parse_sum parse_term
    parse_sum-Good =
        level-Good add_op (add_join u b total) add_join-Safe
          (level-Good mul_op (mul_join u b total) mul_join-Safe parse_unary-Good)

  parse_expr-Good : (fuel : ℕ) → Good fuel (parse_expr u b total fuel)
  unfolding parse_expr
  parse_expr-Good zero s h = absurd (omega (arith, h))
  parse_expr-Good (suc fuel) s h = parse_sum-Good (parse_expr-Good fuel) s h

  end_of-Safe : (v : Rat) (s : Text) → Safe (end_of u b total v s)
  end_of-Safe v [] = holds tt
  end_of-Safe v (c ∷ cs) = rejected

  evaluate-Safe : (s : Text) → Safe (evaluate u b total s)
  evaluate-Safe s =
      Returns-bind (parse_expr-Good (suc (length s)) s (omega arith)) λ p took. end_of-Safe p.0 _

-- On every text evalExpr returns a value or an error: no division by zero of package math/big, and the
-- fuel suffices.
pub eval_expr_total :
    {Float Int Rat : Type 0} (u : Unicode Float) (b : BigNumbers Int Rat) (src : Text)
    → ((v : Rat) × (eval_expr u b src ≡ ok v)) ⊎ ((e : CalcError) × (eval_expr u b src ≡ failed e))
unfolding eval_expr
eval_expr_total u b src =
    let s = trim u.is_space src in
    Returns-cases (
      Returns-if (text_eq s []) (λ e. rejected)
        (λ e.
          Returns-if (ltb 2000 (byte_len s)) (λ k. rejected) (λ k. evaluate-Safe u b (length s) s)))
