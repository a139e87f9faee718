-- ===== src/CheckExpr/Operators/Laws.antt =====
-- `compare` of internal/checkexpr/eval.go.
use bepaylot.Prelude.{◌≡◌, Bool, true, ◌||◌, not, Option, none, some, arith}
use bepaylot.GoLibrary.{Library, Sign}
use bepaylot.CheckExpr.Syntax.{CompareOp}
use bepaylot.CheckExpr.Value.{Value, bool}
use bepaylot.CheckExpr.Operators.{holds_at, compare, sign_of}

-- The operator that holds where `op` does not.
abbrev pub opposite : CompareOp → CompareOp
opposite CompareOp.eq = CompareOp.ne
opposite CompareOp.ne = CompareOp.eq
opposite CompareOp.lt = CompareOp.ge
opposite CompareOp.ge = CompareOp.lt
opposite CompareOp.le = CompareOp.gt
opposite CompareOp.gt = CompareOp.le

abbrev pub not_known : Option Bool → Option Bool
not_known none = none
not_known (some b) = some (not b)

module _ {Float Time : Type 0} where
  -- The truth value of a comparison, if it has one.
  abbrev pub truth : Value Float Time → Option Bool
  truth (bool b refs note) = some b
  truth _ = none

holds-opposite : (op : CompareOp) (s : Sign) → holds_at (opposite op) s ≡ not (holds_at op s)
unfolding holds_at
holds-opposite op s = ground arith

-- `a <= b` holds exactly if `a < b` or `a = b` does.
abbrev pub or_known : Option Bool → Option Bool → Option Bool
or_known (some b) (some c) = some (b || c)
or_known _ _ = none

module _ {Float Time : Type 0} (lib : Library Float Time) where
  -- On any two values the opposite operator has the opposite truth value, and none where the operator
  -- has none.
  pub compare-opposite :
      (op : CompareOp) (a b : Value Float Time)
      → truth (compare lib (opposite op) a b) ≡ not_known (truth (compare lib op a b))
  unfolding compare
  compare-opposite op a b = ground (arith, holds-opposite op (sign_of lib a b).0)

  -- Where the values have an order, `<=` has the truth value of `<` or `=`.
  pub compare-le :
      (a b : Value Float Time)
      → (sign_of lib a b).1 ≡ true
      → truth (compare lib CompareOp.le a b)
        ≡ or_known (truth (compare lib CompareOp.lt a b)) (truth (compare lib CompareOp.eq a b))
  unfolding compare holds_at
  compare-le a b ordered = ground arith
