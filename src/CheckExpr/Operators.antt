-- ===== src/CheckExpr/Operators.antt =====
-- internal/checkexpr/eval.go: the operators on values, and how they go through lists.
pub mod Laws
use bepaylot.Prelude.{
  ℕ, suc, ◌+◌, Text, text_eq, lit, join, Bool, true, false, ◌&&◌, ◌||◌, not, Option, none, some,
  List, [], ◌∷◌, ◌++◌, ◌==◌, ltb, if◌then◌else◌, length, map,
}
use bepaylot.GoLibrary.{Library, Sign, below, equal, above}
use bepaylot.TextUtil.{value_key}
use bepaylot.CheckExpr.Syntax.{ArithOp, CompareOp}
use bepaylot.CheckExpr.Value.{
  Ref, Value, Values, num, str, date, bool, list, pair, nil, cons, refs_of, missing_of, is_unknown,
  is_whole, values, unknown_why, show, as_text,
}

-- `strings.Compare`, by code points.
unfoldable pub text_compare : Text → Text → Sign
text_compare [] [] = equal
text_compare [] (y ∷ ys) = below
text_compare (x ∷ xs) [] = above
text_compare (x ∷ xs) (y ∷ ys) =
    let rest = text_compare xs ys in if ltb x y then below else if ltb y x then above else rest

-- The table of `ok` in compare: what an operator says of a sign.
unfoldable pub holds_at : CompareOp → Sign → Bool
holds_at CompareOp.eq equal = true
holds_at CompareOp.ne below = true
holds_at CompareOp.ne above = true
holds_at CompareOp.lt below = true
holds_at CompareOp.le below = true
holds_at CompareOp.le equal = true
holds_at CompareOp.gt above = true
holds_at CompareOp.ge above = true
holds_at CompareOp.ge equal = true
holds_at _ _ = false

-- The table of `sym`.
unfoldable pub symbol : CompareOp → Text
symbol CompareOp.eq = lit "="
symbol CompareOp.ne = lit "≠"
symbol CompareOp.lt = lit "<"
symbol CompareOp.le = lit "≤"
symbol CompareOp.gt = lit ">"
symbol CompareOp.ge = lit "≥"

abbrev pub is_equality : CompareOp → Bool
is_equality CompareOp.eq = true
is_equality CompareOp.ne = true
is_equality _ = false

unfoldable pub arith_symbol : ArithOp → Text
arith_symbol ArithOp.add = lit "+"
arith_symbol ArithOp.sub = lit "-"
arith_symbol ArithOp.mul = lit "*"
arith_symbol ArithOp.div = lit "/"

abbrev pub label_before : List Ref → List Text
label_before (r ∷ []) = r.label ∷ []
label_before _ = []

module _ {Float Time : Type 0} where
  abbrev pub is_list : Value Float Time → Bool
  is_list (list l) = true
  is_list _ = false

  -- `mapBool`
  unfoldable mutual
    pub map_bool : (Bool → List Ref → Text → Value Float Time) → Value Float Time → Value Float Time
    map_bool f (bool b refs note) = f b refs note
    map_bool f (list l) = list (map_bool_items f l)
    map_bool f (Value.unknown why refs) = Value.unknown why refs
    map_bool f (num x refs whole) = num x refs whole
    map_bool f (str s refs) = str s refs
    map_bool f (date t s refs) = date t s refs
    map_bool f (pair a b) = pair a b

    pub map_bool_items :
        (Bool → List Ref → Text → Value Float Time) → Values Float Time → Values Float Time
    map_bool_items f nil = nil
    map_bool_items f (cons v vs) = cons (map_bool f v) (map_bool_items f vs)

  -- The end of `broadcast2`, where neither side is a list.
  unfoldable pub apply_known :
      (Value Float Time → Value Float Time → Value Float Time)
      → Value Float Time
      → Value Float Time
      → Value Float Time
  apply_known f l r =
      if is_unknown l || is_unknown r
      then Value.unknown (missing_of l ++ missing_of r) (refs_of l ++ refs_of r)
      else f l r

  -- `broadcast2` where `l` is no list.
  unfoldable mutual
    pub broadcast_right :
        (Value Float Time → Value Float Time → Value Float Time)
        → Value Float Time
        → Value Float Time
        → Value Float Time
    broadcast_right f l (list r) = list (broadcast_right_items f l r)
    broadcast_right f l r = apply_known f l r

    pub broadcast_right_items :
        (Value Float Time → Value Float Time → Value Float Time)
        → Value Float Time
        → Values Float Time
        → Values Float Time
    broadcast_right_items f l nil = nil
    broadcast_right_items f l (cons x xs) =
        cons (broadcast_right f l x) (broadcast_right_items f l xs)

  abbrev pub lists_differ : Value Float Time
  lists_differ =
      unknown_why (lit "hai danh sách không cùng số giấy tờ, hãy gộp bằng SUM/MIN/MAX" ∷ [])

  -- `broadcast2`
  unfoldable mutual
    pub broadcast2 :
        (Value Float Time → Value Float Time → Value Float Time)
        → Value Float Time
        → Value Float Time
        → Value Float Time
    broadcast2 f (list l) (list r) =
        let zipped = list (broadcast_zip f l r) in
        if length (values l) == length (values r) then zipped else lists_differ
    broadcast2 f (list l) r = list (broadcast_left f l r)
    broadcast2 f (Value.unknown why refs) r = broadcast_right f (Value.unknown why refs) r
    broadcast2 f (num x refs whole) r = broadcast_right f (num x refs whole) r
    broadcast2 f (str s refs) r = broadcast_right f (str s refs) r
    broadcast2 f (date t s refs) r = broadcast_right f (date t s refs) r
    broadcast2 f (bool b refs note) r = broadcast_right f (bool b refs note) r
    broadcast2 f (pair a b) r = broadcast_right f (pair a b) r

    pub broadcast_left :
        (Value Float Time → Value Float Time → Value Float Time)
        → Values Float Time
        → Value Float Time
        → Values Float Time
    broadcast_left f nil r = nil
    broadcast_left f (cons x xs) r = cons (broadcast2 f x r) (broadcast_left f xs r)

    pub broadcast_zip :
        (Value Float Time → Value Float Time → Value Float Time)
        → Values Float Time
        → Values Float Time
        → Values Float Time
    broadcast_zip f nil r = nil
    broadcast_zip f (cons x xs) nil = nil
    broadcast_zip f (cons x xs) (cons y ys) = cons (broadcast2 f x y) (broadcast_zip f xs ys)

module _ {Float Time : Type 0} (lib : Library Float Time) where
  open lib use {unicode as uni, floats as fl, calendar as cal}

  -- The comparison of two numbers: equal below half a cent.
  unfoldable pub compare_floats : Float → Float → Sign
  compare_floats x y =
      if fl.lt (fl.abs (fl.minus x y)) fl.half_cent
      then equal
      else if fl.lt x y
      then below
      else above

  abbrev pub compare_bools : Bool → Bool → Sign
  compare_bools true true = equal
  compare_bools false false = equal
  compare_bools _ _ = above

  -- `c` of compare, and whether the values have an order.
  unfoldable pub sign_of : Value Float Time → Value Float Time → Sign × Bool
  sign_of (num x _ _) (num y _ _) = (compare_floats x y, true)
  sign_of (date s _ _) (date t _ _) = (cal.compare s t, true)
  sign_of (bool b _ _) (bool c _ _) = (compare_bools b c, true)
  sign_of a b =
      (text_compare (value_key uni (as_text lib a)) (value_key uni (as_text lib b)), false)

  abbrev pub with_colon : List Text → Text
  with_colon [] = []
  with_colon (s ∷ _) = s ++ lit ": "

  -- `label`
  unfoldable pub compare_label : Value Float Time → Value Float Time → Text
  compare_label a b =
      if length (refs_of a) == 1 && not (is_whole a)
      then with_colon (label_before (refs_of a))
      else if length (refs_of b) == 1 && not (is_whole b) && length (refs_of a) == 0
      then with_colon (label_before (refs_of b))
      else []

  unfoldable pub compare_note : Bool → CompareOp → Value Float Time → Value Float Time → Text
  unfolding compare_label
  compare_note yes_holds op a b =
      compare_label a b
      ++ (show lib a
          ++ ((if yes_holds then lit " " else lit " không ")
              ++ (symbol op ++ (lit " " ++ show lib b))))

  abbrev pub not_ordered : Value Float Time → Value Float Time → Value Float Time
  not_ordered a b =
      unknown_why
        ((lit "không so lớn nhỏ được " ++ (show lib a ++ (lit " với " ++ show lib b))) ∷ [])

  -- `compare`
  unfoldable pub compare : CompareOp → Value Float Time → Value Float Time → Value Float Time
  compare op a b =
      if not (sign_of a b).1 && not (is_equality op)
      then not_ordered a b
      else bool (holds_at op (sign_of a b).0) (refs_of a ++ refs_of b)
          (compare_note (holds_at op (sign_of a b).0) op a b)

  abbrev pub many_refs : List Ref → Bool
  many_refs rs = ltb 1 (length rs)

  abbrev pub combined : Float → Value Float Time → Value Float Time → Value Float Time
  combined x l r =
      num x (refs_of l ++ refs_of r)
        (is_whole l || is_whole r || many_refs (refs_of l ++ refs_of r))

  -- The `switch op` of arith, on two numbers.
  unfoldable pub arith_numbers :
      ArithOp → Float → Float → Value Float Time → Value Float Time → Value Float Time
  arith_numbers ArithOp.add x y l r = combined (fl.plus x y) l r
  arith_numbers ArithOp.sub x y l r = combined (fl.minus x y) l r
  arith_numbers ArithOp.mul x y l r = combined (fl.times x y) l r
  arith_numbers ArithOp.div x y l r =
      if fl.eq y (fl.from_nat 0)
      then unknown_why (lit "chia cho 0" ∷ [])
      else combined (fl.over x y) l r

  abbrev pub as_number : Value Float Time → Option Float
  as_number (num x refs whole) = some x
  as_number _ = none

  abbrev pub not_numbers : ArithOp → Value Float Time → Value Float Time → Value Float Time
  not_numbers op l r = unknown_why (
      (lit "phép "
        ++ (arith_symbol op
            ++ (lit " chỉ dùng cho số, nhận " ++ (show lib l ++ (lit " và " ++ show lib r)))))
      ∷ [])

  abbrev pub arith_options :
      ArithOp → Option Float → Option Float → Value Float Time → Value Float Time → Value Float Time
  arith_options op (some x) (some y) l r = arith_numbers op x y l r
  arith_options op _ _ l r = not_numbers op l r

  -- `arith` where neither side is a list.
  unfoldable pub arith_items : ArithOp → Value Float Time → Value Float Time → Value Float Time
  arith_items op l r =
      if is_unknown l || is_unknown r
      then unknown_why (missing_of l ++ missing_of r)
      else arith_options op (as_number l) (as_number r) l r

  -- `arith`; `broadcast2` calls it again on items that are no lists.
  unfoldable pub arith : ArithOp → Value Float Time → Value Float Time → Value Float Time
  arith op l r =
      if is_list l || is_list r then broadcast2 (arith_items op) l r else arith_items op l r
