-- ===== src/CheckExpr/Parser/Total.antt =====
-- `Parse` of internal/checkexpr/parse.go: the indices into `p.toks`, and the fuel of the model.
use bepaylot.Prelude.{
  ℕ, zero, suc, ◌≤◌, ◌<◌, ◌≡◌, refl, Text, text, text_eq, true, false, ◌||◌, Option, none, some,
  List, [], ◌∷◌, length, ◌>>=◌, ok, failed, Returns, holds, rejected, Returns-bind, Returns-if,
  Returns-weaken, Returns-cases, ◌⊎◌, arith as linear,
}
use bepaylot.GoLibrary.{Unicode}
use bepaylot.CheckExpr.Syntax.{
  bad_number, compare, CompareOp, Token, Kind, ParseError, Node, Nodes, LogicOp, ArithOp, is_eof,
  is_op_kind, is_ident, is_num, is_rparen, is_lparen, is_comma, is_dot, arith, logic,
}
use bepaylot.CheckExpr.Lexer.Total.{IsLexed, lex-Returns}
use bepaylot.CheckExpr.Parser.{
  Parser, is_op, compare_token, is_word, is_or, is_and, is_not, is_true, is_false, add_op, mul_op,
  logic_op, chain, level, more_args, call_args, close_call, call_rest, member_rest, close_paren,
  name_rest, primary_at, primary, unary, mul, add, cmp_rest, cmp, negation, conjunction,
  disjunction, parse_expr, finish, parse_tokens, parse, formula_text,
}

-- The tokens end in their only `eof`.
abbrev pub Ends : List Token → Type 0
Ends [] = ⊥
Ends (t ∷ []) = is_eof t.kind ≡ true
Ends (t ∷ v ∷ ts) = (is_eof t.kind ≡ false) × Ends (v ∷ ts)

IsLexed-Ends : (lo end : ℕ) (ts : List Token) → IsLexed lo end ts → Ends ts
IsLexed-Ends lo end [] h = h
IsLexed-Ends lo end (t ∷ []) h = h.0
IsLexed-Ends lo end (t ∷ v ∷ ts) h = (h.0, IsLexed-Ends (suc t.pos) end (v ∷ ts) h.2)

Ends-tail : (t : Token) (ts : List Token) → Ends (t ∷ ts) → is_eof t.kind ≡ false → Ends ts
Ends-tail t [] h e = ground linear
Ends-tail t (v ∷ ts) h e = h.1

-- What a parser leaves of `ts` still ends in `eof`; a method that takes a token leaves less.
abbrev Leaves {ℓ} : {A : Type ℓ} → List Token → A × List Token → Type 0
Leaves ts p = Ends p.1 × (length p.1 ≤ length ts)

abbrev Takes {ℓ} : {A : Type ℓ} → List Token → A × List Token → Type 0
Takes ts p = Ends p.1 × (length p.1 < length ts)

-- On fewer than `n` tokens the parser returns, and takes a token.
abbrev Good : {A : Type 0} → ℕ → Parser A → Type 0
Good n p = (ts : List Token) → Ends ts → length ts < n → Returns (Takes ts) (p ts)

op_not_eof : (k : Kind) → is_op_kind k ≡ true → is_eof k ≡ false
op_not_eof Kind.op h = refl
op_not_eof Kind.eof h = ground linear
op_not_eof _ h = refl

ident_not_eof : (k : Kind) → is_ident k ≡ true → is_eof k ≡ false
ident_not_eof Kind.ident h = refl
ident_not_eof Kind.eof h = ground linear
ident_not_eof _ h = refl

is_op_not_eof : (w : Text) (t : Token) → is_op w t ≡ true → is_eof t.kind ≡ false
unfolding is_op
is_op_not_eof w t h = ground (linear, op_not_eof t.kind)

compare_not_eof : (t : Token) {o : _} → compare_token t ≡ some o → is_eof t.kind ≡ false
unfolding compare_token
compare_not_eof t h = ground (linear, op_not_eof t.kind)

add_not_eof : (t : Token) (o : ArithOp) → add_op t ≡ some o → is_eof t.kind ≡ false
unfolding add_op
add_not_eof t o h = ground (linear, is_op_not_eof (text "+") t, is_op_not_eof (text "-") t)

mul_not_eof : (t : Token) (o : ArithOp) → mul_op t ≡ some o → is_eof t.kind ≡ false
unfolding mul_op
mul_not_eof t o h = ground (linear, is_op_not_eof (text "*") t, is_op_not_eof (text "/") t)

module _ {Float : Type 0} (u : Unicode Float) where
  is_word_not_eof : (w : Text) (t : Token) → is_word u w t ≡ true → is_eof t.kind ≡ false
  unfolding is_word
  is_word_not_eof w t h = ground (linear, ident_not_eof t.kind)

  -- `or`, `and` and `not` are told by two words and an operator.
  word_not_eof :
      (v w o : Text) (t : Token)
      → (is_word u v t || is_word u w t || is_op o t) ≡ true
      → is_eof t.kind ≡ false
  word_not_eof v w o t h =
      ground (linear, is_word_not_eof v t, is_word_not_eof w t, is_op_not_eof o t)

  or_not_eof :
      (t : Token) (o : LogicOp) → logic_op (is_or u) LogicOp.or t ≡ some o → is_eof t.kind ≡ false
  unfolding logic_op is_or
  or_not_eof t o h = ground (linear, word_not_eof (text "OR") (text "HOẶC") (text "||") t)

  and_not_eof :
      (t : Token) (o : LogicOp) → logic_op (is_and u) LogicOp.and t ≡ some o → is_eof t.kind ≡ false
  unfolding logic_op is_and
  and_not_eof t o h = ground (linear, word_not_eof (text "AND") (text "VÀ") (text "&&") t)

  not_not_eof : (t : Token) → is_not u t ≡ true → is_eof t.kind ≡ false
  unfolding is_not
  not_not_eof t h = word_not_eof (text "NOT") (text "KHÔNG") (text "!") t h

module _ {Op Float : Type 0} (op_at : Token → Option Op)
    (join : Op → Node Float → Node Float → ℕ → Node Float)
    (not_eof : (t : Token) (o : Op) → op_at t ≡ some o → is_eof t.kind ≡ false) {n : ℕ}
    {operand : Parser (Node Float)} (good : Good n operand) where
  chain-Returns :
      (f : ℕ) (l : Node Float) (ts : List Token)
      → Ends ts
      → length ts < n
      → length ts < f
      → Returns (Leaves ts) (chain op_at join operand f l ts)
  unfolding chain
  chain-Returns zero l ts e h k = absurd (omega linear)
  chain-Returns (suc f) l [] e h k = absurd e
  chain-Returns (suc f) l (t ∷ ts) e h k = go (chain-Returns f) (op_at t) refl
    where
      go :
          ((l' : Node Float) (ts' : List Token)
            → Ends ts'
            → length ts' < n
            → length ts' < f
            → Returns (Leaves ts') (chain op_at join operand f l' ts'))
          → (found : Option Op) → op_at t ≡ found
          → Returns (Leaves (t ∷ ts)) (elim found [
            | none ↦ ok (l, t ∷ ts)
            | some o ↦ operand ts >>= λ (r, ts'). chain op_at join operand f (join o l r t.pos) ts'
          ])
      go again none _ = holds (e, omega linear)
      go again (some o) found =
          Returns-bind (good ts (Ends-tail t ts e (not_eof t o found)) (omega linear)) λ p took.
            Returns-weaken
              (again (join o l p.0 t.pos) p.1 took.0 (omega (linear, took.1))
                (omega (linear, took.1)))
              λ q left. (left.0, omega (linear, left.1, took.1))

  level-Good : Good n (level op_at join operand)
  unfolding level
  level-Good ts e h = Returns-bind (good ts e h) λ p took.
      Returns-weaken
        (chain-Returns (suc (length p.1)) p.0 p.1 took.0 (omega (linear, took.1)) (omega linear))
        λ q left. (left.0, omega (linear, left.1, took.1))

rparen_not_eof : (k : Kind) → is_rparen k ≡ true → is_eof k ≡ false
rparen_not_eof Kind.eof h = ground linear
rparen_not_eof Kind.num h = refl
rparen_not_eof _ h = refl

comma_not_eof : (k : Kind) → is_comma k ≡ true → is_eof k ≡ false
comma_not_eof Kind.eof h = ground linear
comma_not_eof Kind.num h = refl
comma_not_eof _ h = refl

lparen_not_eof : (k : Kind) → is_lparen k ≡ true → is_eof k ≡ false
lparen_not_eof Kind.eof h = ground linear
lparen_not_eof Kind.num h = refl
lparen_not_eof _ h = refl

dot_not_eof : (k : Kind) → is_dot k ≡ true → is_eof k ≡ false
dot_not_eof Kind.eof h = ground linear
dot_not_eof Kind.num h = refl
dot_not_eof _ h = refl

field_not_eof : (k : Kind) → (is_ident k || is_num k) ≡ true → is_eof k ≡ false
field_not_eof Kind.eof h = ground linear
field_not_eof Kind.num h = refl
field_not_eof _ h = refl

module _ {Float : Type 0} where
  close_paren-Returns :
      (n : Node Float) (ts : List Token) → Ends ts → Returns (Takes ts) (close_paren n ts)
  unfolding close_paren
  close_paren-Returns n [] e = absurd e
  close_paren-Returns n (t ∷ ts) e =
      Returns-if (is_rparen t.kind)
        (λ h. holds (Ends-tail t ts e (rparen_not_eof t.kind h), omega linear)) (λ _. rejected)

  member_rest-Returns :
      (t : Token) (ts : List Token)
      → Ends ts
      → Returns (Takes ts) (member_rest {Float = Float} t ts)
  unfolding member_rest
  member_rest-Returns t [] e = absurd e
  member_rest-Returns t (f ∷ ts) e =
      Returns-if (is_ident f.kind || is_num f.kind)
        (λ h. holds (Ends-tail f ts e (field_not_eof f.kind h), omega linear)) (λ _. rejected)

  close_call-Returns :
      (name : Text) (at : ℕ) (args : Nodes Float) (ts : List Token)
      → Ends ts
      → Returns (Takes ts) (close_call name at args ts)
  unfolding close_call
  close_call-Returns name at args [] e = absurd e
  close_call-Returns name at args (t ∷ ts) e =
      Returns-if (is_rparen t.kind)
        (λ h. holds (Ends-tail t ts e (rparen_not_eof t.kind h), omega linear)) (λ _. rejected)

module _ {Float : Type 0} {n : ℕ} {expr : Parser (Node Float)} (good : Good n expr) where
  more_args-Returns :
      (a : Node Float) (again : Parser (Nodes Float)) (ts : List Token)
      → Ends ts
      → ((ts' : List Token) → Ends ts' → length ts' < length ts → Returns (Takes ts') (again ts'))
      → Returns (Leaves ts) (more_args a again ts)
  unfolding more_args
  more_args-Returns a again [] e k = absurd e
  more_args-Returns a again (t ∷ ts) e k =
      Returns-if (is_comma t.kind)
        (λ h.
          Returns-bind (k ts (Ends-tail t ts e (comma_not_eof t.kind h)) (omega linear))
            λ p took. holds (took.0, omega (linear, took.1)))
        (λ _. holds (e, omega linear))

  call_args-Returns :
      (f : ℕ) (ts : List Token)
      → Ends ts
      → length ts < n
      → length ts < f
      → Returns (Takes ts) (call_args expr f ts)
  unfolding call_args
  call_args-Returns zero ts e h k = absurd (omega linear)
  call_args-Returns (suc f) ts e h k = Returns-bind (good ts e h) λ p took.
      Returns-weaken
        (more_args-Returns p.0 (call_args expr f) p.1 took.0 λ ts' e' shorter.
          call_args-Returns f ts' e' (omega (linear, took.1)) (omega (linear, took.1)))
        λ q left. (left.0, omega (linear, left.1, took.1))

  call_rest-Returns :
      (name : Text) (at : ℕ) (ts : List Token)
      → Ends ts
      → length ts < n
      → Returns (Takes ts) (call_rest expr name at ts)
  unfolding call_rest
  call_rest-Returns name at [] e h = absurd e
  call_rest-Returns name at (t ∷ ts) e h =
      Returns-if (is_rparen t.kind) (λ _. close_call-Returns name at _ (t ∷ ts) e)
        (λ _.
          Returns-bind (call_args-Returns (suc (length (t ∷ ts))) (t ∷ ts) e h (omega linear))
            λ p took.
              Returns-weaken (close_call-Returns name at p.0 p.1 took.0)
                λ q took'. (took'.0, omega (linear, took.1, took'.1)))

  module _ (u : Unicode Float) where
    name_rest-Returns :
        (t : Token) (ts : List Token)
        → Ends ts
        → length ts < suc n
        → Returns (Leaves ts) (name_rest u expr t ts)
    unfolding name_rest
    name_rest-Returns t [] e h = absurd e
    name_rest-Returns t (v ∷ ts) e h =
        Returns-if (is_lparen v.kind)
          (λ p.
            Returns-weaken
              (call_rest-Returns _ _ ts (Ends-tail v ts e (lparen_not_eof v.kind p)) (omega linear))
              λ q took. (took.0, omega (linear, took.1)))
          (λ _.
            Returns-if (is_dot v.kind)
              (λ p.
                Returns-weaken (member_rest-Returns t ts (Ends-tail v ts e (dot_not_eof v.kind p)))
                  λ q took. (took.0, omega (linear, took.1)))
              (λ _. holds (e, omega linear)))

    primary_at-Returns :
        (t : Token) (k : Kind) (ts : List Token)
        → (is_eof k ≡ false → Ends ts)
        → length ts < n
        → Returns (Leaves ts) (primary_at u expr t k ts)
    unfolding primary_at
    primary_at-Returns t Kind.num ts e h = number (u.parse_float t.text)
      where
        number :
            (o : Option Float)
            → Returns
                (Leaves ts)
                (elim o [ none ↦ failed (bad_number t.text) | some x ↦ ok (Node.num x t.pos, ts) ])
        number none = rejected
        number (some x) = holds (e refl, omega linear)
    primary_at-Returns t Kind.str ts e h = holds (e refl, omega linear)
    primary_at-Returns t Kind.lparen ts e h = Returns-bind (good ts (e refl) h) λ p took.
        Returns-weaken (close_paren-Returns p.0 p.1 took.0)
          λ q took'. (took'.0, omega (linear, took.1, took'.1))
    primary_at-Returns t Kind.ident ts e h =
        Returns-if (is_true u t.text) (λ _. holds (e refl, omega linear))
          (λ _.
            Returns-if (is_false u t.text) (λ _. holds (e refl, omega linear))
              (λ _. name_rest-Returns t ts (e refl) (omega linear)))
    primary_at-Returns t Kind.eof ts e h = rejected
    primary_at-Returns t _ ts e h = rejected

    primary-Good : Good (suc n) (primary u expr)
    unfolding primary
    primary-Good [] e h = absurd e
    primary-Good (t ∷ ts) e h =
        Returns-weaken (primary_at-Returns t t.kind ts (Ends-tail t ts e) (omega linear))
          λ q left. (left.0, omega (linear, left.1))

    unary-Good : Good (suc n) (unary u expr)
    unfolding unary
    unary-Good [] e h = absurd e
    unary-Good (t ∷ ts) e h =
        Returns-if (is_op (text "-") t)
          (λ p.
            Returns-bind
              (unary-Good ts (Ends-tail t ts e (is_op_not_eof (text "-") t p)) (omega linear))
              λ q took. holds (took.0, omega (linear, took.1)))
          (λ _. primary-Good (t ∷ ts) e h)

    mul-Good : Good (suc n) (mul u expr)
    unfolding mul
    mul-Good = level-Good mul_op arith mul_not_eof unary-Good

    add-Good : Good (suc n) (add u expr)
    unfolding add
    add-Good = level-Good add_op arith add_not_eof mul-Good

    cmp_rest-Returns :
        (l : Node Float) (ts : List Token)
        → Ends ts
        → length ts < suc n
        → Returns (Leaves ts) (cmp_rest u expr l ts)
    unfolding cmp_rest
    cmp_rest-Returns l [] e h = absurd e
    cmp_rest-Returns l (t ∷ ts) e h = go (compare_token t) refl
      where
        go :
            (found : Option CompareOp)
            → compare_token t ≡ found
            → Returns (Leaves (t ∷ ts)) (elim found [
              | none ↦ ok (l, t ∷ ts)
              | some o ↦ add u expr ts >>= λ (r, ts'). ok (compare o l r t.pos, ts')
            ])
        go none _ = holds (e, omega linear)
        go (some o) found =
            Returns-bind (add-Good ts (Ends-tail t ts e (compare_not_eof t found)) (omega linear))
              λ p took. holds (took.0, omega (linear, took.1))

    cmp-Good : Good (suc n) (cmp u expr)
    unfolding cmp
    cmp-Good ts e h = Returns-bind (add-Good ts e h) λ p took.
        Returns-weaken (cmp_rest-Returns p.0 p.1 took.0 (omega (linear, took.1)))
          λ q left. (left.0, omega (linear, left.1, took.1))

    negation-Good : Good (suc n) (negation u expr)
    unfolding negation
    negation-Good [] e h = absurd e
    negation-Good (t ∷ ts) e h =
        Returns-if (is_not u t)
          (λ p.
            Returns-bind (negation-Good ts (Ends-tail t ts e (not_not_eof u t p)) (omega linear))
              λ q took. holds (took.0, omega (linear, took.1)))
          (λ _. cmp-Good (t ∷ ts) e h)

    conjunction-Good : Good (suc n) (conjunction u expr)
    unfolding conjunction
    conjunction-Good = level-Good _ logic (and_not_eof u) negation-Good

    disjunction-Good : Good (suc n) (disjunction u expr)
    unfolding disjunction
    disjunction-Good = level-Good _ logic (or_not_eof u) conjunction-Good

module _ {Float : Type 0} (u : Unicode Float) where
  parse_expr-Good : (f : ℕ) → Good f (parse_expr u f)
  unfolding parse_expr
  parse_expr-Good zero ts e h = absurd (omega linear)
  parse_expr-Good (suc f) ts e h = disjunction-Good (parse_expr-Good f) u ts e h

  finish-Returns :
      (n : Node Float) (ts : List Token) → Ends ts → Returns (λ _. Unit {0}) (finish u n ts)
  unfolding finish
  finish-Returns n [] e = absurd e
  finish-Returns n (t ∷ ts) e = Returns-if (is_eof t.kind) (λ _. holds tt) (λ _. rejected)

  pub parse_tokens-Returns :
      (ts : List Token) → Ends ts → Returns (λ _. Unit {0}) (parse_tokens u ts)
  unfolding parse_tokens
  parse_tokens-Returns ts e =
      Returns-bind (parse_expr-Good (suc (length ts)) ts e (omega linear))
        λ p took. finish-Returns p.0 p.1 took.0

  parse-Returns : (src : Text) → Returns (λ _. Unit {0}) (parse u src)
  unfolding parse
  parse-Returns src =
      Returns-if (text_eq (formula_text u src) []) (λ _. rejected)
        (λ _.
          Returns-bind (lex-Returns u (formula_text u src))
            λ ts lexed. parse_tokens-Returns ts (IsLexed-Ends _ _ ts lexed))

  -- For every source `Parse` gives a formula or an error: it never reads past the end of the tokens,
  -- and the fuel of the model suffices.
  pub parse_total :
      (src : Text)
      → ((n : Node Float) × (parse u src ≡ ok n)) ⊎ ((e : ParseError) × (parse u src ≡ failed e))
  parse_total src = Returns-cases (parse-Returns src)
