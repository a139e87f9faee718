-- ===== src/Tools/Calc/Safe.antt =====
-- internal/tools/calc.go: no division by zero in the arithmetic of the calculator.
use bepaylot.Prelude.{
  ℕ, suc, ◌≡◌, Text, Bool, true, false, ◌||◌, not, Option, none, some, List, [], ◌∷◌, length,
  Outcome, Returns, holds, rejected, Returns-if, Returns-bind, arith,
}
use bepaylot.GoLibrary.{BigNumbers}
use bepaylot.Tools.Calc.Arithmetic.{
  CalcError, max_exponent, rat_quo, checked, set_frac, rat_trunc, rat_floor, rat_mod, ratio, scaled,
  rat_round, raised, pow, Function, abs_fn, floor_fn, ceil_fn, round_fn, min_fn, max_fn, sum_fn,
  avg_fn, function_named, ceil_of, rounded, applied, call_found, call_func,
}

-- The call returned a value or an error.
abbrev pub Safe : {A : Type 0} → Outcome CalcError A → Type 0
Safe {A} r = Returns (λ (a : A). Unit {0}) r

module _ {Int Rat : Type 0} (b : BigNumbers Int Rat) where
  checked-Safe :
      (op : Int → Int → Int) (x y : Int) → b.int_is_zero y ≡ false → Safe (checked b op x y)
  checked-Safe op x y h = Returns-if (b.int_is_zero y) (λ e. cc) (λ e. holds tt)

  rat_quo-Safe : (x y : Rat) → b.is_zero y ≡ false → Safe (rat_quo b x y)
  rat_quo-Safe x y h = Returns-if (b.is_zero y) (λ e. cc) (λ e. holds tt)

  set_frac-Safe : (x y : Int) → b.int_is_zero y ≡ false → Safe (set_frac b x y)
  set_frac-Safe x y h = Returns-if (b.int_is_zero y) (λ e. cc) (λ e. holds tt)

  rat_trunc-Safe : (r : Rat) → Safe (rat_trunc b r)
  unfolding rat_trunc
  rat_trunc-Safe r =
      Returns-bind (checked-Safe b.int_quo (b.num r) (b.denom r) (b.denom-int_is_zero r))
        λ q h. holds tt

  rat_floor-Safe : (r : Rat) → Safe (rat_floor b r)
  unfolding rat_floor
  rat_floor-Safe r =
      Returns-bind (checked-Safe b.int_div (b.num r) (b.denom r) (b.denom-int_is_zero r))
        λ q h. holds tt

  pub rat_mod-Safe : (x y : Rat) → b.is_zero y ≡ false → Safe (rat_mod b x y)
  unfolding rat_mod
  rat_mod-Safe x y h =
      Returns-bind (rat_quo-Safe x y h) λ q hq. Returns-bind (rat_trunc-Safe q) λ t ht. holds tt

  ratio-nonzero : (n m : ℕ) → Returns (λ v. b.is_zero v ≡ false) (ratio b (suc n) (suc m))
  ratio-nonzero n m =
      Returns-if (b.int_is_zero (b.int_of (suc m)))
        (λ e. absurd (ground (arith, e, b.int_of-int_is_zero m)))
        (λ e. holds (b.of_frac-is_zero _ _ (b.int_of-int_is_zero n)))

  scaled-Safe : (up : Bool) (x scale : Rat) → b.is_zero scale ≡ false → Safe (scaled b up x scale)
  scaled-Safe true x scale h = holds tt
  scaled-Safe false x scale h = rat_quo-Safe x scale h

  power_of_ten : (digits : ℕ) → b.is_zero (b.of_int (b.int_exp (b.int_of 10) digits)) ≡ false
  power_of_ten digits =
      b.of_int-is_zero _ (b.exp-int_is_zero (b.int_of 10) digits (b.int_of-int_is_zero 9))

  rat_round-Safe : (r : Rat) (negative : Bool) (digits : ℕ) → Safe (rat_round b r negative digits)
  unfolding rat_round
  rat_round-Safe r negative digits =
      Returns-bind (scaled-Safe (not negative) r _ (power_of_ten digits)) λ x hx.
        Returns-bind (ratio-nonzero 0 1) λ half hh.
          Returns-bind (rat_trunc-Safe _) λ t ht. scaled-Safe negative t _ (power_of_ten digits)

  raised-Safe :
      (total : ℕ) (rest : Text) (base : Rat) (negative : Bool) (n : ℕ)
      → Safe (raised b total rest base negative n)
  raised-Safe total rest base negative n =
      Returns-if negative
        (λ e.
          Returns-if (b.int_is_zero (b.int_exp (b.num base) n)) (λ z. rejected)
            (λ z. set_frac-Safe _ _ z))
        (λ e. set_frac-Safe _ _ (b.exp-int_is_zero (b.denom base) n (b.denom-int_is_zero base)))

  pub pow-Safe : (total : ℕ) (rest : Text) (base e : Rat) → Safe (pow b total rest base e)
  unfolding pow
  pow-Safe total rest base e =
      Returns-if (not (b.is_int e)) (λ h. rejected)
        (λ h.
          Returns-if (b.int_exceeds (b.num e) max_exponent) (λ k. rejected)
            (λ k. raised-Safe total rest base _ _))

  ceil_of-Safe : (x floor : Rat) → Safe (ceil_of b x floor)
  ceil_of-Safe x floor =
      Returns-if (not (b.is_int x)) (λ e. Returns-bind (ratio-nonzero 0 0) λ one h. holds tt)
        (λ e. holds tt)

  rounded-Safe : (total : ℕ) (rest : Text) (x digits : Rat) → Safe (rounded b total rest x digits)
  rounded-Safe total rest x digits =
      Returns-if (not (b.is_int digits) || b.int_exceeds (b.num digits) 50) (λ e. rejected)
        (λ e. rat_round-Safe x _ _)

  applied-Safe :
      (total : ℕ) (rest name : Text) (f : Function b) (args : List Rat)
      → Safe (applied b total rest name f args)
  applied-Safe total rest name abs_fn [] = rejected
  applied-Safe total rest name floor_fn [] = rejected
  applied-Safe total rest name ceil_fn [] = rejected
  applied-Safe total rest name round_fn [] = rejected
  applied-Safe total rest name min_fn [] = rejected
  applied-Safe total rest name max_fn [] = rejected
  applied-Safe total rest name sum_fn [] = rejected
  applied-Safe total rest name avg_fn [] = rejected
  applied-Safe total rest name abs_fn (x ∷ []) = holds tt
  applied-Safe total rest name abs_fn (x ∷ y ∷ ys) = rejected
  applied-Safe total rest name floor_fn (x ∷ []) = rat_floor-Safe x
  applied-Safe total rest name floor_fn (x ∷ y ∷ ys) = rejected
  applied-Safe total rest name ceil_fn (x ∷ []) =
      Returns-bind (rat_floor-Safe x) λ floor h. ceil_of-Safe x floor
  applied-Safe total rest name ceil_fn (x ∷ y ∷ ys) = rejected
  applied-Safe total rest name round_fn (x ∷ []) = rat_round-Safe x false 0
  applied-Safe total rest name round_fn (x ∷ d ∷ []) = rounded-Safe total rest x d
  applied-Safe total rest name round_fn (x ∷ d ∷ y ∷ ys) = rejected
  applied-Safe total rest name min_fn (x ∷ xs) = holds tt
  applied-Safe total rest name max_fn (x ∷ xs) = holds tt
  applied-Safe total rest name sum_fn (x ∷ xs) = holds tt
  applied-Safe total rest name avg_fn (x ∷ xs) =
      Returns-bind (ratio-nonzero (length xs) 0) λ n h. rat_quo-Safe _ n h

  call_found-Safe :
      (total : ℕ) (rest name : Text) (args : List Rat) (f : Option (Function b))
      → Safe (call_found b total rest name args f)
  call_found-Safe total rest name args none = rejected
  call_found-Safe total rest name args (some f) = applied-Safe total rest name f args

  pub call_func-Safe :
      (total : ℕ) (rest name : Text) (args : List Rat) → Safe (call_func b total rest name args)
  unfolding call_func
  call_func-Safe total rest name args = call_found-Safe total rest name args (function_named b name)
