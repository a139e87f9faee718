-- ===== src/CheckExpr/Calls.antt =====
-- internal/checkexpr/eval.go: SAME, MATCH and CONTAINS, and the call of a function of the table.
use bepaylot.Prelude.{
  ℕ, zero, suc, ◌+◌, ◌-◌, ◌*◌, Text, text_eq, contains, lit, join, Bool, true, false, ◌&&◌, ◌||◌,
  not, Option, none, some, List, [], ◌∷◌, ◌++◌, ◌==◌, ltb, if◌then◌else◌, length, map, keep,
  Outcome, ok, panicked, ◌>>=◌,
}
use bepaylot.GoLibrary.{Library}
use bepaylot.TextUtil.{normalize, value_key, value_in}
use bepaylot.TextUtil.Distance.{levenshtein}
use bepaylot.CheckExpr.Syntax.{LogicOp}
use bepaylot.CheckExpr.Value.{
  Ref, Value, num, date, bool, pair, refs_of, missing_of, string_of, is_unknown, unknown_why, show,
  as_text, dedupe,
}
use bepaylot.CheckExpr.Verdict.{verdict}
use bepaylot.CheckExpr.Operators.{broadcast2}
use bepaylot.CheckExpr.Functions.{
  Fn, sum, average, count, exists, abs, round, between, same, match, contains_fn, if_fn, and_fn,
  or_fn, date_add, today, fn_of, arg, rest_of, flat, flat_value, all_refs, known_count, first_known,
  agg, exists_value, abs_value, digits_of, round_value, between_item, branch, fold_logic,
  date_add_value,
}
use bepaylot.Prelude.{get_elem?}

-- `strings.ReplaceAll` of a text by " ": the runes after a match are searched on.
unfoldable pub drop_prefix : Text → Text → Option Text
drop_prefix [] s = some s
drop_prefix (p ∷ ps) [] = none
drop_prefix (p ∷ ps) (r ∷ rs) = let rest = drop_prefix ps rs in if p == r then rest else none

unfoldable pub replace_all : ℕ → Text → Text → Text
replace_all zero w s = s
replace_all (suc f) w [] = []
replace_all (suc f) w (r ∷ rs) = elim (drop_prefix w (r ∷ rs)) [
  | none ↦ r ∷ replace_all f w rs
  | some rest ↦ b' ' ∷ replace_all f w rest
]

-- `companyWords`
unfoldable pub company_words : List Text
company_words =
    lit "cong ty"
    ∷ lit "trach nhiem huu han"
    ∷ lit "tnhh"
    ∷ lit "co phan"
    ∷ lit "cp"
    ∷ lit "mot thanh vien"
    ∷ lit "mtv"
    ∷ lit "chi nhanh"
    ∷ lit "tap doan"
    ∷ lit "doanh nghiep tu nhan"
    ∷ lit "dntn"
    ∷ []

-- The loop of `companyKey`.
unfoldable pub drop_words : List Text → Text → Text
unfolding replace_all
drop_words [] s = s
drop_words (w ∷ ws) s = drop_words ws (replace_all (suc (length s)) (b' ' ∷ (w ++ b' ' ∷ [])) s)

abbrev pub is_blank : Text → Bool
is_blank [] = true
is_blank (_ ∷ _) = false

-- `digits`
abbrev pub is_ascii_digit : ℕ → Bool
is_ascii_digit r = not (ltb r b'0') && not (ltb b'9' r)

unfoldable pub digits : Text → Text
digits s = keep is_ascii_digit s

abbrev pub either_contains : Text → Text → Bool
either_contains a b = text_eq a b || contains a b || contains b a

abbrev pub is_one_of : Text → List Text → Bool
is_one_of w [] = false
is_one_of w (x ∷ xs) = text_eq w x || is_one_of w xs

module _ {Float Time : Type 0} (lib : Library Float Time) where
  open lib use {unicode as uni, floats as fl, calendar as cal, formats as fmt}

  -- `companyKey`
  unfoldable pub company_key : Text → Text
  company_key s = value_key uni (drop_words company_words (b' ' ∷ (normalize uni s ++ b' ' ∷ [])))

  -- `textutil.Similarity`
  unfoldable pub similarity : Text → Text → Float
  similarity [] [] = fl.from_nat 1
  similarity a b = fl.minus (fl.from_nat 1) (
      fl.over (fl.from_nat (levenshtein a b))
        (fl.from_nat (if ltb (length a) (length b) then length b else length a)))

  abbrev pub similar : Text → Text → Bool
  similar a b =
      if is_blank a || is_blank b
      then false
      else either_contains a b || fl.ge (similarity a b) fl.four_fifths

  -- `matches`
  unfoldable pub matches : Text → Text → Text → Bool
  matches a b mode =
      if is_one_of mode (lit "so" ∷ lit "number" ∷ lit "digits" ∷ [])
      then not (is_blank (digits a)) && text_eq (digits a) (digits b)
      else if is_one_of mode (lit "ten" ∷ lit "name" ∷ [])
      then not (is_blank (company_key a)) && either_contains (company_key a) (company_key b)
      else if is_one_of mode (lit "chua" ∷ lit "contains" ∷ [])
      then value_in uni b a
      else similar (value_key uni a) (value_key uni b)

  abbrev pub matched : Value Float Time → Value Float Time → Value Float Time
  matched x y = bool true (refs_of x ++ refs_of y) (show lib x ++ (lit " khớp " ++ show lib y))

  -- The two loops of matchAny over the pairs: the first match, or the reasons of the unknown pairs.
  unfoldable pub match_pairs :
      Text
      → List Text
      → List (Value Float Time × Value Float Time)
      → Option (Value Float Time) × List Text
  match_pairs mode missing [] = (none, missing)
  match_pairs mode missing ((x, y) ∷ ps) = elim (is_unknown x || is_unknown y) [
    | true ↦ match_pairs mode (missing ++ (missing_of x ++ missing_of y)) ps
    | false ↦ elim (matches (as_text lib x) (as_text lib y) mode) [
      | true ↦ (some (matched x y), missing)
      | false ↦ match_pairs mode missing ps
    ]
  ]

  abbrev pub all_pairs {ℓ} : {A : Type ℓ} → List A → List A → List (A × A)
  all_pairs [] bs = []
  all_pairs (x ∷ xs) bs = map (λ y. (x, y)) bs ++ all_pairs xs bs

  abbrev pub match_result :
      Value Float Time → Value Float Time → Option (Value Float Time) × List Text → Value Float Time
  match_result a b (some v, missing) = v
  match_result a b (none, missing) =
      if ltb 0 (length missing) && length missing == length (flat_value a) * length (flat_value b)
      then unknown_why missing
      else bool false (all_refs (flat_value a ++ flat_value b))
          (show lib a ++ (lit " không khớp " ++ show lib b))

  -- `matchAny`
  unfoldable pub match_any : Value Float Time → Value Float Time → Text → Value Float Time
  match_any a b mode =
      match_result a b (match_pairs mode [] (all_pairs (flat_value a) (flat_value b)))

  -- `byKey` and `order` of SAME: the groups of equal values, in the order of their first ones.
  unfoldable pub add_to_group :
      Text
      → Value Float Time
      → List (Text × List (Value Float Time))
      → List (Text × List (Value Float Time))
  add_to_group k v [] = (k, v ∷ []) ∷ []
  add_to_group k v ((j, vs) ∷ gs) =
      let rest = add_to_group k v gs in
      if text_eq j k then (j, vs ++ v ∷ []) ∷ gs else (j, vs) ∷ rest

  unfoldable pub group_values :
      List (Value Float Time)
      → List (Text × List (Value Float Time))
      → List (Text × List (Value Float Time))
  group_values [] gs = gs
  group_values (v ∷ vs) gs =
      group_values vs
        (if is_unknown v then gs else add_to_group (value_key uni (as_text lib v)) v gs)

  unfoldable pub missing_all : List (Value Float Time) → List Text
  missing_all [] = []
  missing_all (v ∷ vs) = missing_of v ++ missing_all vs

  abbrev pub group_text : Text × List (Value Float Time) → Text
  group_text (k, []) = []
  group_text (k, v ∷ vs) =
      show lib v
      ++ (lit " ("
          ++ (join (lit ", ") (dedupe (map (λ (r : Ref). r.label) (all_refs (v ∷ vs)))) ++ lit ")"))

  abbrev pub same_result :
      List (Value Float Time) → ℕ → List (Text × List (Value Float Time)) → Value Float Time
  same_result items known ((k, v ∷ vs) ∷ []) =
      bool true (all_refs items) (fmt.decimal known ++ (lit " giá trị giống nhau: " ++ show lib v))
  same_result items known gs =
      bool false (all_refs items) (lit "không giống nhau: " ++ join (lit " ≠ ") (map group_text gs))

  -- SAME; `known` counts the items less the reasons of the unknown ones.
  unfoldable pub same_fn : List (Value Float Time) → Value Float Time
  same_fn args =
      let items = flat args in
      let missing = missing_all items in
      if ltb (length items) (length missing + 2)
      then unknown_why (missing ++ lit "cần ít nhất 2 giá trị để so" ∷ [])
      else same_result items (length items - length missing) (group_values items [])

  -- `mode` of MATCH
  abbrev pub match_mode : List (Value Float Time) → Text
  match_mode args = elim (get_elem? args 2) [
    | none ↦ lit "gần đúng"
    | some v ↦ normalize uni (string_of v)
  ]

  -- `funcs[name].fn(args)`
  unfoldable pub call_fn : Fn → List (Value Float Time) → Outcome Text (Value Float Time)
  call_fn sum args = agg lib sum args
  call_fn Fn.min args = agg lib Fn.min args
  call_fn Fn.max args = agg lib Fn.max args
  call_fn average args = agg lib average args
  call_fn count args = ok (num (fl.from_nat (known_count (flat args))) [] false)
  call_fn exists args = ok (exists_value lib (first_known (flat args)))
  call_fn abs args = arg args 0 >>= λ a. ok (abs_value lib a)
  call_fn round args = arg args 0 >>= λ a. ok (round_value lib (digits_of lib (get_elem? args 1)) a)
  call_fn between args = arg args 0 >>= λ a. arg args 1 >>= λ lo.
      arg args 2 >>= λ hi. ok (broadcast2 (λ x _. between_item lib lo hi x) a (pair lo hi))
  call_fn same args = ok (same_fn args)
  call_fn match args = arg args 0 >>= λ a. arg args 1 >>= λ b. ok (match_any a b (match_mode args))
  call_fn contains_fn args = arg args 0 >>= λ a. arg args 1 >>= λ b. ok (match_any a b (lit "chua"))
  call_fn if_fn args = arg args 0 >>= λ a. branch lib (verdict lib a) args
  call_fn and_fn args = arg args 0 >>= λ a. ok (fold_logic lib LogicOp.and a (rest_of args))
  call_fn or_fn args = arg args 0 >>= λ a. ok (fold_logic lib LogicOp.or a (rest_of args))
  call_fn date_add args =
      arg args 0 >>= λ a. date_add_value lib a (get_elem? args 1) (get_elem? args 2)
  call_fn today args = ok (date cal.today [] [])

  -- `funcs[n.str].fn(args)`: a name that is not in the table gives a nil function.
  unfoldable pub call_name : Text → List (Value Float Time) → Outcome Text (Value Float Time)
  call_name name args = elim (fn_of name) [ none ↦ panicked | some f ↦ call_fn f args ]
