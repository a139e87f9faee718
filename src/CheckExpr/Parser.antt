-- ===== src/CheckExpr/Parser.antt =====
-- internal/checkexpr/parse.go: the recursive-descent parser. The state `{toks, i}` of the parser is
-- the list of the tokens from index `i` on; reading past its end is the panic of `p.toks[p.i]`. A
-- method takes `expr`, the parser `p.or` that `primary` calls for what stands in brackets, and
-- `parse_expr` ties the knot on fuel, a unit for each level of brackets. The `for` loops run on fuel
-- of their own, a unit for each token left and one more.
pub mod Total
use bepaylot.Prelude.{
  ℕ, zero, suc, ◌+◌, Text, text, text_eq, Bool, true, false, ◌&&◌, ◌||◌, Option, none, some, List,
  [], ◌∷◌, ◌++◌, ◌==◌, if◌then◌else◌, length, Outcome, ok, failed, panicked, out_of_fuel, ◌>>=◌,
  trim,
}
use bepaylot.GoLibrary.{Unicode}
use bepaylot.CheckExpr.Syntax.{
  Token, Kind, ParseError, Node, Nodes, num, str, bool, ident, member, call, neg, not, logic, arith,
  compare, nil, cons, LogicOp, ArithOp, CompareOp, is_op_kind, is_ident, is_eof, is_rparen,
  is_lparen, is_comma, is_dot, is_num, bad_number, unclosed_paren, unclosed_call, bad_field,
  cut_short, not_understood, trailing, empty_formula,
}
use bepaylot.CheckExpr.Lexer.{lex}

abbrev pub Parser : Type 0 → Type 0
Parser A = List Token → Outcome ParseError (A × List Token)

-- `t.kind == "op" && t.text == w`.
unfoldable pub is_op : Text → Token → Bool
is_op w t = is_op_kind t.kind && text_eq t.text w

-- The comparison that an operator's text names, after `==` and `<>` are rewritten.
unfoldable pub compare_op : Text → Option CompareOp
compare_op w =
    if text_eq w (text "==") || text_eq w (text "=")
    then some CompareOp.eq
    else if text_eq w (text "<>") || text_eq w (text "!=")
    then some CompareOp.ne
    else if text_eq w (text "<")
    then some CompareOp.lt
    else if text_eq w (text "<=")
    then some CompareOp.le
    else if text_eq w (text ">")
    then some CompareOp.gt
    else if text_eq w (text ">=")
    then some CompareOp.ge
    else none

unfoldable pub compare_token : Token → Option CompareOp
unfolding compare_op
compare_token t = if is_op_kind t.kind then compare_op t.text else none

module _ {Float : Type 0} (u : Unicode Float) where
  -- `p.isWord(w)`, at the token `t` that `p.peek()` gives.
  unfoldable pub is_word : Text → Token → Bool
  is_word w t = is_ident t.kind && u.equal_fold t.text w

  unfoldable pub is_or : Token → Bool
  unfolding is_word is_op
  is_or t = is_word (text "OR") t || is_word (text "HOẶC") t || is_op (text "||") t

  unfoldable pub is_and : Token → Bool
  unfolding is_word is_op
  is_and t = is_word (text "AND") t || is_word (text "VÀ") t || is_op (text "&&") t

  unfoldable pub is_not : Token → Bool
  unfolding is_word is_op
  is_not t = is_word (text "NOT") t || is_word (text "KHÔNG") t || is_op (text "!") t

  unfoldable pub is_true : Text → Bool
  is_true w = u.equal_fold w (text "TRUE") || u.equal_fold w (text "ĐÚNG")

  unfoldable pub is_false : Text → Bool
  is_false w = u.equal_fold w (text "FALSE") || u.equal_fold w (text "SAI")

-- The operators of `add` and `mul`.
unfoldable pub add_op : Token → Option ArithOp
unfolding is_op
add_op t =
    if is_op (text "+") t
    then some ArithOp.add
    else if is_op (text "-") t
    then some ArithOp.sub
    else none

unfoldable pub mul_op : Token → Option ArithOp
unfolding is_op
mul_op t =
    if is_op (text "*") t
    then some ArithOp.mul
    else if is_op (text "/") t
    then some ArithOp.div
    else none

unfoldable pub logic_op : (Token → Bool) → LogicOp → Token → Option LogicOp
logic_op test o t = if test t then some o else none

module _ {Op Float : Type 0} where
  -- The loop that `or`, `and`, `add` and `mul` share: while the next token is an operator of the level,
  -- the operand after it is read and joined to what stands on the left.
  unfoldable pub chain :
      (Token → Option Op)
      → (Op → Node Float → Node Float → ℕ → Node Float)
      → Parser (Node Float)
      → ℕ
      → Node Float
      → Parser (Node Float)
  chain op_at join operand zero l ts = out_of_fuel
  chain op_at join operand (suc f) l [] = panicked
  chain op_at join operand (suc f) l (t ∷ ts) = elim (op_at t) [
    | none ↦ ok (l, t ∷ ts)
    | some o ↦ operand ts >>= λ (r, ts'). chain op_at join operand f (join o l r t.pos) ts'
  ]

  -- A level: its first operand, then the loop.
  unfoldable pub level :
      (Token → Option Op)
      → (Op → Node Float → Node Float → ℕ → Node Float)
      → Parser (Node Float)
      → Parser (Node Float)
  unfolding chain
  level op_at join operand ts =
      operand ts >>= λ (l, ts'). chain op_at join operand (suc (length ts')) l ts'

-- After an argument of a call: `again` reads the next ones.
unfoldable pub more_args :
    {Float : Type 0} → Node Float → Parser (Nodes Float) → Parser (Nodes Float)
more_args a again [] = panicked
more_args a again (t ∷ ts) =
    if is_comma t.kind
    then (again ts >>= λ (args, ts'). ok (cons a args, ts'))
    else ok (cons a nil, t ∷ ts)

unfoldable pub close_call : {Float : Type 0} → Text → ℕ → Nodes Float → Parser (Node Float)
close_call name at args [] = panicked
close_call name at args (t ∷ ts) =
    if is_rparen t.kind then ok (call name args at, ts) else failed (unclosed_call name)

module _ {Float : Type 0} (expr : Parser (Node Float)) where
  -- The loop over the arguments of a call.
  unfoldable pub call_args : ℕ → Parser (Nodes Float)
  unfolding more_args
  call_args zero ts = out_of_fuel
  call_args (suc f) ts = expr ts >>= λ (a, ts'). more_args a (call_args f) ts'

  -- After the `(` of a call.
  unfoldable pub call_rest : Text → ℕ → Parser (Node Float)
  call_rest name at [] = panicked
  call_rest name at (t ∷ ts) =
      if is_rparen t.kind
      then close_call name at nil (t ∷ ts)
      else call_args (suc (length (t ∷ ts))) (t ∷ ts) >>= λ (args, ts'). close_call name at args ts'

-- After the `.` of a member.
unfoldable pub member_rest : {Float : Type 0} → Token → Parser (Node Float)
member_rest t [] = panicked
member_rest t (f ∷ ts) =
    if is_ident f.kind || is_num f.kind
    then ok (member t.text f.text t.pos, ts)
    else failed (bad_field t.text)

unfoldable pub close_paren : {Float : Type 0} → Node Float → Parser (Node Float)
close_paren n [] = panicked
close_paren n (t ∷ ts) = if is_rparen t.kind then ok (n, ts) else failed unclosed_paren

module _ {Float : Type 0} (u : Unicode Float) (expr : Parser (Node Float)) where
  -- After an identifier that is no truth value: a call, a member, or the name itself.
  unfoldable pub name_rest : Token → Parser (Node Float)
  name_rest t [] = panicked
  name_rest t (v ∷ ts) =
      if is_lparen v.kind
      then call_rest expr (u.to_upper t.text) t.pos ts
      else if is_dot v.kind
      then member_rest t ts
      else ok (ident t.text t.pos, v ∷ ts)

  -- The `switch` of `primary` on the kind of the token that it has taken.
  unfoldable pub primary_at : Token → Kind → Parser (Node Float)
  primary_at t Kind.num ts = elim (u.parse_float t.text) [
    | none ↦ failed (bad_number t.text)
    | some x ↦ ok (num x t.pos, ts)
  ]
  primary_at t Kind.str ts = ok (str t.text t.pos, ts)
  primary_at t Kind.lparen ts = expr ts >>= λ (n, ts'). close_paren n ts'
  primary_at t Kind.ident ts =
      if is_true u t.text
      then ok (bool true t.pos, ts)
      else if is_false u t.text
      then ok (bool false t.pos, ts)
      else name_rest t ts
  primary_at t Kind.eof ts = failed cut_short
  primary_at t _ ts = failed (not_understood t.text (t.pos + 1))

  unfoldable pub primary : Parser (Node Float)
  primary [] = panicked
  primary (t ∷ ts) = primary_at t t.kind ts

  unfoldable pub unary : Parser (Node Float)
  unary [] = panicked
  unary (t ∷ ts) =
      let negated = unary ts >>= λ (x, ts'). ok (neg x t.pos, ts') in
      if is_op (text "-") t then negated else primary (t ∷ ts)

  unfoldable pub mul : Parser (Node Float)
  mul = level mul_op arith unary

  unfoldable pub add : Parser (Node Float)
  add = level add_op arith mul

  -- After the left side of a comparison.
  unfoldable pub cmp_rest : Node Float → Parser (Node Float)
  cmp_rest l [] = panicked
  cmp_rest l (t ∷ ts) = elim (compare_token t) [
    | none ↦ ok (l, t ∷ ts)
    | some o ↦ add ts >>= λ (r, ts'). ok (compare o l r t.pos, ts')
  ]

  unfoldable pub cmp : Parser (Node Float)
  cmp ts = add ts >>= λ (l, ts'). cmp_rest l ts'

  unfoldable pub negation : Parser (Node Float)
  negation [] = panicked
  negation (t ∷ ts) =
      let negated = negation ts >>= λ (x, ts'). ok (not x t.pos, ts') in
      if is_not u t then negated else cmp (t ∷ ts)

  unfoldable pub conjunction : Parser (Node Float)
  conjunction = level (logic_op (is_and u) LogicOp.and) logic negation

  unfoldable pub disjunction : Parser (Node Float)
  disjunction = level (logic_op (is_or u) LogicOp.or) logic conjunction

module _ {Float : Type 0} (u : Unicode Float) where
  -- `p.or` at a depth of brackets below the fuel.
  unfoldable pub parse_expr : ℕ → Parser (Node Float)
  parse_expr zero ts = out_of_fuel
  parse_expr (suc f) ts = disjunction u (parse_expr f) ts

  unfoldable pub finish : Node Float → List Token → Outcome ParseError (Node Float)
  finish n [] = panicked
  finish n (t ∷ ts) = if is_eof t.kind then ok n else failed (trailing t.text (t.pos + 1))

  -- `Parse` after `lex`.
  unfoldable pub parse_tokens : List Token → Outcome ParseError (Node Float)
  parse_tokens ts = parse_expr (suc (length ts)) ts >>= λ (n, rest). finish n rest

  -- `strings.TrimPrefix(s, "=")`.
  abbrev pub trim_equals : Text → Text
  trim_equals [] = []
  trim_equals (r ∷ rs) = if r == b'=' then rs else r ∷ rs

  abbrev pub formula_text : Text → Text
  formula_text src = trim u.is_space (trim_equals (trim u.is_space src))

  unfoldable pub parse : Text → Outcome ParseError (Node Float)
  parse src =
      if text_eq (formula_text src) []
      then failed empty_formula
      else lex u (formula_text src) >>= λ ts. parse_tokens ts
