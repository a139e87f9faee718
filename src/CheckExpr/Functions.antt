-- ===== src/CheckExpr/Functions.antt =====
-- internal/checkexpr/eval.go: the table `funcs`. A function reads its arguments by index, and an index
-- out of range panics.
use bepaylot.Prelude.{
  ℕ, suc, ◌-◌, Text, text_eq, lit, join, Bool, true, false, ◌&&◌, ◌||◌, Option, none, some, List,
  [], ◌∷◌, ◌++◌, ltb, if◌then◌else◌, length, get_elem?, Outcome, ok, panicked, ◌>>=◌,
}
use bepaylot.GoLibrary.{Library, ℤ, pos}
use bepaylot.TextUtil.{normalize}
use bepaylot.CheckExpr.Syntax.{LogicOp, CompareOp}
use bepaylot.CheckExpr.Value.{
  Ref, Value, Values, num, str, date, bool, list, pair, nil, cons, pass, fail, Result, refs_of,
  missing_of, string_of, is_unknown, unknown_why, show,
}
use bepaylot.CheckExpr.Verdict.{logic, fail_notes}
use bepaylot.CheckExpr.Operators.{compare}

-- The keys of `funcs`.
pub data Fn : Type 0 where
  sum min max average count exists abs round between same match contains_fn if_fn and_fn or_fn
        date_add today :
      Fn

-- The names, in the order of the table.
unfoldable pub fn_of : Text → Option Fn
fn_of name =
    if text_eq name (lit "SUM")
    then some sum
    else if text_eq name (lit "MIN")
    then some Fn.min
    else if text_eq name (lit "MAX")
    then some Fn.max
    else if text_eq name (lit "AVERAGE")
    then some average
    else if text_eq name (lit "COUNT")
    then some count
    else if text_eq name (lit "EXISTS")
    then some exists
    else if text_eq name (lit "ABS")
    then some abs
    else if text_eq name (lit "ROUND")
    then some round
    else if text_eq name (lit "BETWEEN")
    then some between
    else if text_eq name (lit "SAME")
    then some same
    else if text_eq name (lit "MATCH")
    then some match
    else if text_eq name (lit "CONTAINS")
    then some contains_fn
    else if text_eq name (lit "IF")
    then some if_fn
    else if text_eq name (lit "AND")
    then some and_fn
    else if text_eq name (lit "OR")
    then some or_fn
    else if text_eq name (lit "DATE_ADD")
    then some date_add
    else if text_eq name (lit "TODAY")
    then some today
    else none

-- `min` and `max` of the table; `none` is -1, no maximum.
unfoldable pub arity : Fn → ℕ × Option ℕ
arity sum = (1, none)
arity Fn.min = (1, none)
arity Fn.max = (1, none)
arity average = (1, none)
arity count = (1, none)
arity exists = (1, some 1)
arity abs = (1, some 1)
arity round = (1, some 2)
arity between = (3, some 3)
arity same = (1, none)
arity match = (2, some 3)
arity contains_fn = (2, some 2)
arity if_fn = (2, some 3)
arity and_fn = (2, none)
arity or_fn = (2, none)
arity date_add = (3, some 3)
arity today = (0, some 0)

-- `args[i]`
abbrev pub arg {ℓ} : {A : Type ℓ} → List A → ℕ → Outcome Text A
arg args i = elim (get_elem? args i) [ none ↦ panicked | some v ↦ ok v ]

abbrev pub rest_of {ℓ} : {A : Type ℓ} → List A → List A
rest_of [] = []
rest_of (x ∷ xs) = xs

module _ {Float Time : Type 0} where
  -- `flat`
  unfoldable mutual
    pub flat_value : Value Float Time → List (Value Float Time)
    flat_value (list l) = flat_values l
    flat_value (Value.unknown why refs) = Value.unknown why refs ∷ []
    flat_value (num x refs whole) = num x refs whole ∷ []
    flat_value (str s refs) = str s refs ∷ []
    flat_value (date t s refs) = date t s refs ∷ []
    flat_value (bool b refs note) = bool b refs note ∷ []
    flat_value (pair a b) = pair a b ∷ []

    pub flat_values : Values Float Time → List (Value Float Time)
    flat_values nil = []
    flat_values (cons v vs) = flat_value v ++ flat_values vs

  unfoldable pub flat : List (Value Float Time) → List (Value Float Time)
  unfolding flat_value
  flat [] = []
  flat (v ∷ vs) = flat_value v ++ flat vs

  -- `refsOf`
  unfoldable pub all_refs : List (Value Float Time) → List Ref
  all_refs [] = []
  all_refs (v ∷ vs) = refs_of v ++ all_refs vs

  unfoldable pub known_count : List (Value Float Time) → ℕ
  known_count [] = 0
  known_count (v ∷ vs) = let n = known_count vs in if is_unknown v then n else suc n

  unfoldable pub first_known : List (Value Float Time) → Option (Value Float Time)
  first_known [] = none
  first_known (v ∷ vs) = let later = first_known vs in if is_unknown v then later else some v

module _ {Float Time : Type 0} (lib : Library Float Time) where
  open lib use {unicode as uni, floats as fl, calendar as cal, formats as fmt}

  unfoldable pub add_item :
      Text → Value Float Time → List Float × List Text → List Float × List Text
  add_item name (num x refs whole) (xs, missing) = (x ∷ xs, missing)
  add_item name (Value.unknown why refs) (xs, missing) = (xs, why ++ missing)
  add_item name w (xs, missing) = (xs, (name ++ (lit " cần số, nhận " ++ show lib w)) ∷ missing)

  -- The loop of `agg`: the numbers, and the reasons why there are not more.
  unfoldable pub collect : Text → List (Value Float Time) → List Float × List Text
  collect name [] = ([], [])
  collect name (v ∷ vs) = add_item name v (collect name vs)

  unfoldable pub sum_from : Float → List Float → Float
  sum_from s [] = s
  sum_from s (x ∷ xs) = sum_from (fl.plus s x) xs

  -- `f(xs)` of SUM, MIN, MAX and AVERAGE.
  unfoldable pub aggregate : Fn → List Float → Outcome Text Float
  aggregate Fn.min xs = arg (fl.sort xs) 0
  aggregate Fn.max xs = arg (fl.sort xs) (length (fl.sort xs) - 1)
  aggregate average xs = ok (fl.over (sum_from (fl.from_nat 0) xs) (fl.from_nat (length xs)))
  aggregate _ xs = ok (sum_from (fl.from_nat 0) xs)

  unfoldable pub agg_name : Fn → Text
  agg_name Fn.min = lit "MIN"
  agg_name Fn.max = lit "MAX"
  agg_name average = lit "AVERAGE"
  agg_name _ = lit "SUM"

  abbrev pub is_sum : Fn → Bool
  is_sum sum = true
  is_sum _ = false

  abbrev pub no_items : Fn → Value Float Time
  no_items f =
      if is_sum f
      then num (fl.from_nat 0) [] false
      else unknown_why ((agg_name f ++ lit ": không có giá trị nào") ∷ [])

  abbrev pub aggregated :
      Fn → List (Value Float Time) → List Float × List Text → Outcome Text (Value Float Time)
  aggregated f items (xs, m ∷ missing) = ok (unknown_why (m ∷ missing))
  aggregated f items ([], []) = ok (no_items f)
  aggregated f items (x ∷ xs, []) = aggregate f (x ∷ xs) >>= λ y. ok (num y (all_refs items) true)

  -- `agg`
  unfoldable pub agg : Fn → List (Value Float Time) → Outcome Text (Value Float Time)
  agg f args = aggregated f (flat args) (collect (agg_name f) (flat args))

  abbrev pub exists_value : Option (Value Float Time) → Value Float Time
  exists_value (some v) = bool true [] (lit "có " ++ show lib v)
  exists_value none = bool false [] (lit "không có giấy tờ hoặc giá trị nào")

  abbrev pub abs_value : Value Float Time → Value Float Time
  abs_value (num x refs whole) = num (fl.abs x) refs whole
  abs_value _ = unknown_why (lit "ABS cần số" ∷ [])

  -- `p` of ROUND
  abbrev pub digits_of : Option (Value Float Time) → Float
  digits_of (some (num p refs whole)) = p
  digits_of _ = fl.from_nat 0

  abbrev pub round_value : Float → Value Float Time → Value Float Time
  round_value p (num x refs whole) =
      num (fl.over (fl.round (fl.times x (fl.pow_ten p))) (fl.pow_ten p)) refs whole
  round_value p _ = unknown_why (lit "ROUND cần số" ∷ [])

  abbrev pub first_label : List Ref → Text
  first_label [] = []
  first_label (r ∷ rs) = r.label ++ lit ": "

  abbrev pub in_range :
      Value Float Time → Value Float Time → Value Float Time → Bool → Value Float Time
  in_range x lo hi inside = bool inside (refs_of x ++ (refs_of lo ++ refs_of hi)) (
      first_label (refs_of x)
      ++ (show lib x
          ++ ((if inside then lit " trong khoảng " else lit " ngoài khoảng ")
              ++ (show lib lo ++ (lit " – " ++ show lib hi)))))

  abbrev pub join_bounds :
      Value Float Time
      → Value Float Time
      → Value Float Time
      → Value Float Time
      → Value Float Time
      → Value Float Time
  join_bounds x lo hi (bool ge _ _) (bool le _ _) = in_range x lo hi (ge && le)
  join_bounds x lo hi v w = unknown_why (missing_of v ++ missing_of w)

  -- The function that BETWEEN sends through broadcast2, with the bounds that `pair` keeps.
  unfoldable pub between_item :
      Value Float Time → Value Float Time → Value Float Time → Value Float Time
  between_item lo hi x =
      if is_unknown lo || is_unknown hi
      then unknown_why (missing_of lo ++ missing_of hi)
      else join_bounds x lo hi (compare lib CompareOp.ge x lo) (compare lib CompareOp.le x hi)

  abbrev pub no_documents_apply : Result → Value Float Time
  no_documents_apply c = bool true [] (lit "không áp dụng: " ++ join (lit "; ") (fail_notes lib c))

  -- IF, by the status of the condition.
  unfoldable pub branch : Result → List (Value Float Time) → Outcome Text (Value Float Time)
  branch c args = elim c.status [
    | pass ↦ arg args 1
    | fail ↦ if ltb 2 (length args) then arg args 2 else ok (no_documents_apply c)
    | _ ↦ ok (unknown_why c.missing)
  ]

  -- The loops of AND and OR.
  unfoldable pub fold_logic :
      LogicOp → Value Float Time → List (Value Float Time) → Value Float Time
  fold_logic op v [] = v
  fold_logic op v (w ∷ ws) = fold_logic op (logic lib op v w) ws

  abbrev pub unit_is : Text → List Text → Bool
  unit_is w [] = false
  unit_is w (x ∷ xs) = text_eq w x || unit_is w xs

  -- The `switch` on the unit of DATE_ADD.
  unfoldable pub shift_date : Text → ℤ → Time → List Ref → Value Float Time
  shift_date unit n t refs =
      if unit_is unit (lit "ngay" ∷ lit "day" ∷ lit "days" ∷ [])
      then date (cal.add_date (pos 0) (pos 0) n t) [] refs
      else if unit_is unit (lit "thang" ∷ lit "month" ∷ lit "months" ∷ [])
      then date (cal.add_date (pos 0) n (pos 0) t) [] refs
      else if unit_is unit (lit "nam" ∷ lit "year" ∷ lit "years" ∷ [])
      then date (cal.add_date n (pos 0) (pos 0) t) [] refs
      else unknown_why (lit "DATE_ADD: đơn vị phải là ngày, tháng hoặc năm" ∷ [])

  abbrev pub fits :
      Value Float Time
      → Value Float Time
      → Option (Value Float Time)
      → Outcome Text (Value Float Time)
  fits (date t s refs) (num x refs' whole) none = panicked
  fits (date t s refs) (num x refs' whole) (some w) =
      ok (shift_date (normalize uni (string_of w)) (fl.to_int x) t refs)
  fits _ _ _ = ok (unknown_why (lit "DATE_ADD cần ngày và số" ∷ []))

  -- DATE_ADD on a date that is no list: `a[1]` is read, and `a[2]` only if the first two fit.
  unfoldable pub date_add_item :
      Value Float Time
      → Option (Value Float Time)
      → Option (Value Float Time)
      → Outcome Text (Value Float Time)
  date_add_item a none c = panicked
  date_add_item a (some b) c =
      if is_unknown a || is_unknown b
      then ok (unknown_why (missing_of a ++ missing_of b))
      else fits a b c

  abbrev pub both_given {ℓ} : {A : Type ℓ} → Option A → Option A → Bool
  both_given (some a) (some b) = true
  both_given _ _ = false

  -- DATE_ADD; over a list it is called again for each item with both other arguments.
  unfoldable mutual
    pub date_add_value :
        Value Float Time
        → Option (Value Float Time)
        → Option (Value Float Time)
        → Outcome Text (Value Float Time)
    date_add_value (list l) b c = date_add_items l b c >>= λ vs. ok (list vs)
    date_add_value (Value.unknown why refs) b c = date_add_item (Value.unknown why refs) b c
    date_add_value (num x refs whole) b c = date_add_item (num x refs whole) b c
    date_add_value (str s refs) b c = date_add_item (str s refs) b c
    date_add_value (date t s refs) b c = date_add_item (date t s refs) b c
    date_add_value (bool v refs note) b c = date_add_item (bool v refs note) b c
    date_add_value (pair v w) b c = date_add_item (pair v w) b c

    pub date_add_items :
        Values Float Time
        → Option (Value Float Time)
        → Option (Value Float Time)
        → Outcome Text (Values Float Time)
    date_add_items nil b c = ok nil
    date_add_items (cons v vs) b c = elim (both_given b c) [
      | false ↦ panicked
      | true ↦ date_add_value v b c >>= λ w. date_add_items vs b c >>= λ ws. ok (cons w ws)
    ]
