-- ===== src/CheckExpr/Eval.antt =====
-- internal/checkexpr/eval.go: the evaluator and `Eval`.
use bepaylot.Prelude.{
  Text, text_eq, lit, trim, Bool, true, false, ◌||◌, not, Option, none, some, List, [], ◌∷◌, ◌++◌,
  if◌then◌else◌, Outcome, ok, failed, panicked, out_of_fuel, ◌>>=◌,
}
use bepaylot.GoLibrary.{Library}
use bepaylot.TextUtil.{normalize}
use bepaylot.TextUtil.Numbers.{parse_number}
use bepaylot.CheckExpr.Syntax.{Node, Nodes, ident, member, call, neg, ParseError, ArithOp}
use bepaylot.CheckExpr.Parser.{parse}
use bepaylot.CheckExpr.Value.{
  Ref, FieldValue, Doc, FieldInfo, TypeInfo, Scope, Value, Values, num, str, date, bool, list, nil,
  cons, error, Result, unknown_why,
}
use bepaylot.CheckExpr.Verdict.{verdict, logic, only_status}
use bepaylot.CheckExpr.Operators.{map_bool, broadcast2, compare, arith}
use bepaylot.CheckExpr.Calls.{call_name, is_one_of}

-- `sc.typeOf`
unfoldable pub type_of : Scope → Text → Option Text
type_of sc name = elim (sc.single_type name) [
  | some t ↦ some t
  | none ↦ elim (sc.types name) [ some info ↦ some name | none ↦ none ]
]

-- A key that a map lacks gives the zero value.
abbrev pub or_zero_type : Option TypeInfo → TypeInfo
or_zero_type (some info) = info
or_zero_type none = record { title = []; fields = λ _. none }

abbrev pub or_zero_info : Option FieldInfo → FieldInfo
or_zero_info (some info) = info
or_zero_info none = record { label = []; value_type = [] }

abbrev pub or_zero_value : Option FieldValue → FieldValue
or_zero_value (some v) = v
or_zero_value none = record { text = []; field_id = [] }

abbrev pub type_info : Scope → Text → TypeInfo
type_info sc t = or_zero_type (sc.types t)

abbrev pub or_else : Text → Text → Text
or_else [] other = other
or_else (r ∷ rs) other = r ∷ rs

abbrev pub doc_ref : Doc → Ref
doc_ref d = record { doc = d.id; label = d.label; field_id = [] }

-- `dateLayouts`
unfoldable pub date_layouts : List Text
date_layouts =
    lit "2006-01-02"
    ∷ lit "02/01/2006"
    ∷ lit "2/1/2006"
    ∷ lit "02-01-2006"
    ∷ lit "02.01.2006"
    ∷ lit "2006/01/02"
    ∷ []

module _ {Float Time : Type 0} (lib : Library Float Time) where
  open lib use {unicode as uni, floats as fl, calendar as cal, formats as fmt}

  unfoldable pub first_layout : List Text → Text → Option Time
  first_layout [] s = none
  first_layout (l ∷ ls) s =
      let later = first_layout ls s in
      elim (cal.parse_layout l s) [ some t ↦ some t | none ↦ later ]

  -- `parseDate`
  unfoldable pub parse_date : Text → Option Time
  parse_date s = first_layout date_layouts (trim uni.is_space s)

  -- The values that `field` gives for a text that is not empty, by the type of the field.
  unfoldable pub unreadable : Text → Text → Text → Text → Ref → Value Float Time
  unreadable doc_label label t what ref =
      Value.unknown
        ((doc_label
            ++ (lit ": "
                ++ (label ++ (lit " " ++ (fmt.quote t ++ (lit " không đọc được thành " ++ what))))))
          ∷ [])
        (ref ∷ [])

  unfoldable pub bool_field : Text → Ref → Value Float Time
  bool_field t ref =
      if is_one_of (normalize uni t)
        (lit "co" ∷ lit "yes" ∷ lit "true" ∷ lit "dung" ∷ lit "x" ∷ lit "v" ∷ [])
      then bool true (ref ∷ []) []
      else if is_one_of (normalize uni t) (lit "khong" ∷ lit "no" ∷ lit "false" ∷ lit "sai" ∷ [])
      then bool false (ref ∷ []) []
      else str t (ref ∷ [])

  unfoldable pub typed_field : Text → Text → Text → Text → Ref → Value Float Time
  typed_field value_type doc_label label t ref =
      if text_eq value_type (lit "money") || text_eq value_type (lit "number")
      then elim (parse_number uni t) [
        | some x ↦ num x (ref ∷ []) false
        | none ↦ unreadable doc_label label t (lit "số") ref
      ]
      else if text_eq value_type (lit "date")
      then elim (parse_date t) [
        | some d ↦ date d [] (ref ∷ [])
        | none ↦ unreadable doc_label label t (lit "ngày") ref
      ]
      else if text_eq value_type (lit "bool")
      then bool_field t ref
      else str t (ref ∷ [])

  -- `evaluator.field`
  unfoldable pub field : Scope → Doc → Text → Text → Value Float Time
  field sc d typ key =
      let info = or_zero_info ((type_info sc typ).fields key) in
      let fv = or_zero_value (d.fields key) in
      let label = or_else info.label key in
      let t = trim uni.is_space fv.text in
      if text_eq t []
      then Value.unknown ((d.label ++ (lit ": thiếu " ++ label)) ∷ []) (doc_ref d ∷ [])
      else typed_field info.value_type d.label label t
          (record { doc = d.id; label = d.label; field_id = fv.field_id })

  abbrev pub label_value : Doc → Value Float Time
  label_value d = str d.label (doc_ref d ∷ [])

  abbrev pub list_of : (Doc → Value Float Time) → List Doc → Values Float Time
  list_of f [] = nil
  list_of f (d ∷ ds) = cons (f d) (list_of f ds)

  -- `case "ident"` and `case "member"`.
  unfoldable pub eval_ident : Scope → Text → Value Float Time
  eval_ident sc name = elim (sc.single name) [
    | some d ↦ label_value d
    | none ↦ list (list_of label_value (sc.groups name))
  ]

  abbrev pub type_or_empty : Option Text → Text
  type_or_empty none = []
  type_or_empty (some t) = t

  unfoldable pub eval_member : Scope → Text → Text → Value Float Time
  eval_member sc name key =
      let typ = type_or_empty (type_of sc name) in
      elim (sc.single name) [
        | some d ↦ field sc d typ key
        | none ↦ elim (sc.single_type name) [
          | some _ ↦ unknown_why ((lit "chưa có " ++ (type_info sc typ).title) ∷ [])
          | none ↦ list (list_of (λ d. field sc d typ key) (sc.groups name))
        ]
      ]

  abbrev pub negated : Bool → List Ref → Text → Value Float Time
  negated b refs note = bool (not b) refs (lit "không phải: " ++ note)

  unfoldable pub eval_str : Text → Value Float Time
  eval_str s = elim (parse_date s) [ some t ↦ date t s [] | none ↦ str s [] ]

  -- `evaluator.eval`
  unfoldable mutual
    pub eval : Scope → Node Float → Outcome Text (Value Float Time)
    eval sc (Node.num x at) = ok (num x [] false)
    eval sc (Node.str s at) = ok (eval_str s)
    eval sc (Node.bool b at) = ok (bool b [] [])
    eval sc (ident name at) = ok (eval_ident sc name)
    eval sc (member name key at) = ok (eval_member sc name key)
    eval sc (neg x at) =
        eval sc x >>= λ v. ok (arith lib ArithOp.sub (num (fl.from_nat 0) [] false) v)
    eval sc (Node.not x at) = eval sc x >>= λ v. ok (map_bool negated v)
    eval sc (Node.logic op l r at) = eval sc l >>= λ v. eval sc r >>= λ w. ok (logic lib op v w)
    eval sc (Node.arith op l r at) = eval sc l >>= λ v. eval sc r >>= λ w. ok (arith lib op v w)
    eval sc (Node.compare op l r at) =
        eval sc l >>= λ v. eval sc r >>= λ w. ok (broadcast2 (compare lib op) v w)
    eval sc (call name args at) = eval_args sc args >>= λ vs. call_name lib name vs

    pub eval_args : Scope → Nodes Float → Outcome Text (List (Value Float Time))
    eval_args sc Nodes.nil = ok []
    eval_args sc (Nodes.cons n ns) = eval sc n >>= λ v. eval_args sc ns >>= λ vs. ok (v ∷ vs)

  -- The texts of the parser's errors.
  unfoldable pub parse_message : ParseError → Text
  parse_message (ParseError.unclosed_quote i) =
      lit "thiếu dấu đóng ngoặc kép (vị trí " ++ (fmt.decimal i ++ lit ")")
  parse_message (ParseError.bad_rune r i) =
      lit "ký tự "
      ++ (fmt.quote (r ∷ [])
          ++ (lit " không dùng được trong công thức (vị trí " ++ (fmt.decimal i ++ lit ")")))
  parse_message ParseError.empty_formula = lit "công thức trống"
  parse_message (ParseError.trailing t i) =
      lit "thừa " ++ (fmt.quote t ++ (lit " ở vị trí " ++ fmt.decimal i))
  parse_message (ParseError.bad_number t) = lit "số " ++ (fmt.quote t ++ lit " không hợp lệ")
  parse_message ParseError.unclosed_paren = lit "thiếu dấu đóng ngoặc"
  parse_message (ParseError.unclosed_call name) = lit "thiếu dấu đóng ngoặc của " ++ name
  parse_message (ParseError.bad_field t) =
      lit "sau " ++ (fmt.quote t ++ lit ". phải là key của trường")
  parse_message ParseError.cut_short = lit "công thức dừng giữa chừng"
  parse_message (ParseError.not_understood t i) =
      lit "không hiểu " ++ (fmt.quote t ++ (lit " ở vị trí " ++ fmt.decimal i))

  abbrev pub error_result : Text → Result
  error_result detail = record (only_status error) { detail = detail }

  -- `Eval` after the parse.
  unfoldable pub eval_node : Scope → Node Float → Outcome Text Result
  eval_node sc n = elim (eval sc n) [
    | ok v ↦ ok (verdict lib v)
    | failed e ↦ ok (error_result e)
    | panicked ↦ panicked
    | out_of_fuel ↦ out_of_fuel
  ]

  -- `Eval`
  unfoldable pub eval_formula : Text → Scope → Outcome Text Result
  eval_formula src sc = elim (parse uni src) [
    | ok n ↦ eval_node sc n
    | failed e ↦ ok (error_result (parse_message e))
    | panicked ↦ panicked
    | out_of_fuel ↦ out_of_fuel
  ]
