-- ===== src/Tests/CheckExprTests.antt =====
-- internal/checkexpr on concrete formulas.
use bepaylot.Prelude.{
  ℕ, some, ◌≡◌, ◌≢◌, ◌⊎◌, refl, Text, text, text_eq, contains_rune, trim, lit, true, false, Bool,
  List, [], ◌∷◌, ok, failed, Returns, contains_text,
}
use bepaylot.CheckExpr.Syntax.{Node, ParseError, LogicOp, CompareOp, sub}
use bepaylot.CheckExpr.Lexer.{
  lex, lex_step, lex_symbol, span, two_runes, is_two_rune_op, one_rune_op, punctuation,
}
use bepaylot.CheckExpr.Lexer.Total.{IsLexed, lex-Returns}
use bepaylot.CheckExpr.Parser.{
  parse, parse_tokens, parse_expr, finish, disjunction, conjunction, negation, cmp, cmp_rest, unary,
  primary, primary_at, name_rest, is_or, is_and, is_not, is_true, is_false, level, logic_op,
  compare_token, add_op, mul_op, call_rest, call_args, more_args, close_call, member_rest,
  add as parse_add, mul as parse_mul,
}
use bepaylot.CheckExpr.Parser.Total.{parse_total}
use bepaylot.CheckExpr.Value.{Ref, Value, Status, num, nil, cons, list, Result, group_digits}
use bepaylot.CheckExpr.Value.Digits.{Grouped, group_digits_lem}
use bepaylot.CheckExpr.Value.Dedupe.{dedupe_lem, distinct}
use bepaylot.CheckExpr.Value.{dedupe}
use bepaylot.CheckExpr.Verdict.{verdict, logic, to_bool}
use bepaylot.CheckExpr.Verdict.Worst.{verdict-logic, verdict-list, verdict-ill_typed, numbers}
use bepaylot.CheckExpr.Verdict.Lists.{verdict-compare}
use bepaylot.CheckExpr.Operators.{compare, broadcast2, sign_of, holds_at, compare_floats}
use bepaylot.CheckExpr.Operators.Laws.{truth, not_known, or_known, compare-opposite, compare-le}
use bepaylot.CheckExpr.Functions.{fn_of, arity}
use bepaylot.CheckExpr.Eval.{eval_formula, type_of}
use bepaylot.CheckExpr.Check.{check, walk, check_member, check_call}
use bepaylot.CheckExpr.Safety.{check-eval_safe}
use bepaylot.Tests.Sample.{ascii, library, sample_scope}

abbrev formula : Text
formula = text "= 1 + 2*3 < SUM(hd.gia)"

formula_parses :
    parse ascii (text "1-2-3")
    ≡ ok (Node.arith sub (Node.arith sub (Node.num 1 0) (Node.num 2 2) 1) (Node.num 3 4) 3)
unfolding parse trim text_eq lex lex_step span lex_symbol is_two_rune_op two_runes contains_rune
    one_rune_op punctuation parse_tokens parse_expr finish disjunction conjunction negation cmp
    cmp_rest unary primary primary_at is_or is_and is_not level logic_op compare_token add_op mul_op
    parse_add parse_mul
formula_parses = refl

formula_checks : check ascii formula sample_scope ≡ ok ((text "hd", text "gia") ∷ [])
unfolding check walk check_member check_call type_of fn_of arity lit parse trim text_eq lex lex_step
    span lex_symbol is_two_rune_op two_runes contains_rune one_rune_op punctuation parse_tokens
    parse_expr finish disjunction conjunction negation cmp cmp_rest unary primary primary_at is_or
    is_and is_not is_true is_false level logic_op compare_token add_op mul_op parse_add parse_mul
    name_rest call_rest call_args more_args close_call member_rest
formula_checks = refl

check-eval_safe_example : (r : Result) × (eval_formula library formula sample_scope ≡ ok r)
check-eval_safe_example =
    check-eval_safe library formula sample_scope sample_scope ((text "hd", text "gia") ∷ [])
      formula_checks

parse_total_example :
    ((n : Node ℕ) × (parse ascii formula ≡ ok n))
    ⊎ ((e : ParseError) × (parse ascii formula ≡ failed e))
parse_total_example = parse_total ascii formula

lex-Returns_example : Returns (IsLexed 0 23) (lex ascii formula)
lex-Returns_example = lex-Returns ascii formula

-- A value that is not known, for a reason, and one that is false.
abbrev unread : Value ℕ ℕ
unread = Value.unknown (text "no date" ∷ []) []

abbrev denied : Value ℕ ℕ
denied = Value.bool false [] []

verdict-logic_example :
    (to_bool library (verdict library (logic library LogicOp.and unread denied)).status
      ≡ some false)
    × ((verdict library (logic library LogicOp.and unread denied)).status ≢ Status.error)
unfolding verdict
verdict-logic_example = verdict-logic library LogicOp.and unread denied

verdict-list_example : (verdict library (list (cons unread (cons denied nil)))).status ≡ Status.fail
unfolding verdict contains_text dedupe
verdict-list_example = verdict-list library unread (cons denied nil) (λ h. refl, (λ h. cc, tt))

-- Where a price was read.
abbrev place : Ref
place = record { doc = text "1"; label = text "hd"; field_id = text "gia" }

verdict-ill_typed_example :
    (verdict library (
      broadcast2
        (compare library CompareOp.lt)
        (list (cons (num 5 (place ∷ []) false) nil))
        (logic library LogicOp.and (num 1 [] false) (num 2 [] false)))).status
    ≡ Status.pass
verdict-ill_typed_example =
    verdict-ill_typed library CompareOp.lt (5, place ∷ [], false) [] 1 2 [] [] false false

compare-opposite_example :
    truth (compare library CompareOp.ge (num 3 [] false) (num 4 [] false))
    ≡ not_known (truth (compare library CompareOp.lt (num 3 [] false) (num 4 [] false)))
compare-opposite_example = compare-opposite library CompareOp.lt (num 3 [] false) (num 4 [] false)

compare-le_example :
    truth (compare library CompareOp.le (num 3 [] false) (num 4 [] false))
    ≡ or_known
        (truth (compare library CompareOp.lt (num 3 [] false) (num 4 [] false)))
        (truth (compare library CompareOp.eq (num 3 [] false) (num 4 [] false)))
unfolding sign_of
compare-le_example = compare-le library (num 3 [] false) (num 4 [] false) refl

abbrev two_prices : List (ℕ × List Ref × Bool)
two_prices = (3, place ∷ [], false) ∷ (7, place ∷ [], false) ∷ []

-- Of the prices 3 and 7 not all are below 5.
verdict-compare_example :
    (verdict library (
      broadcast2
        (compare library CompareOp.lt)
        (list (numbers library two_prices))
        (num 5 [] false))).status
    ≡ Status.fail
unfolding sign_of holds_at compare_floats
verdict-compare_example =
    verdict-compare library CompareOp.lt (3, place ∷ [], false) ((7, place ∷ [], false) ∷ []) 5 []
      false

dedupe_lem_example :
    (distinct (dedupe (text "a" ∷ text "a" ∷ [])) ≡ true)
    × ((a : Text)
        → contains_text (dedupe (text "a" ∷ text "a" ∷ [])) a
          ≡ contains_text (text "a" ∷ text "a" ∷ []) a)
dedupe_lem_example = dedupe_lem (text "a" ∷ text "a" ∷ [])

group_digits_lem_example : Grouped (text "1234567") (text "1.234.567")
unfolding group_digits
group_digits_lem_example = group_digits_lem b'1' (text "234567")
