-- ===== src/CheckExpr/Syntax.antt =====
-- internal/checkexpr/parse.go: tokens, formula nodes and the errors of reading a formula.
use bepaylot.Prelude.{ℕ, Text, Bool, true, false}

-- `token.kind`: the source's one-character kinds are named.
pub data Kind : Type 0 where
  num str ident op lparen rparen comma dot eof : Kind

pub record Token : Type 0 where
  pub kind : Kind
  pub text : Text
  pub pos : ℕ

abbrev pub is_op_kind : Kind → Bool
is_op_kind Kind.op = true
is_op_kind _ = false

abbrev pub is_ident : Kind → Bool
is_ident Kind.ident = true
is_ident _ = false

abbrev pub is_num : Kind → Bool
is_num Kind.num = true
is_num _ = false

abbrev pub is_eof : Kind → Bool
is_eof Kind.eof = true
is_eof _ = false

abbrev pub is_rparen : Kind → Bool
is_rparen Kind.rparen = true
is_rparen _ = false

abbrev pub is_lparen : Kind → Bool
is_lparen Kind.lparen = true
is_lparen _ = false

abbrev pub is_comma : Kind → Bool
is_comma Kind.comma = true
is_comma _ = false

abbrev pub is_dot : Kind → Bool
is_dot Kind.dot = true
is_dot _ = false

-- The operator names of `node.op`.
pub data LogicOp : Type 0 where
  and or : LogicOp

pub data ArithOp : Type 0 where
  add sub mul div : ArithOp

pub data CompareOp : Type 0 where
  eq ne lt le gt ge : CompareOp

-- `node`: one constructor for each group of `op` names. The only argument of a member is the
-- identifier node of its name, at the same position. The last field is `pos`.
mutual
  pub data Node (Float : Type 0) : Type 0 where
    num : Float → ℕ → Node Float
    str : Text → ℕ → Node Float
    bool : Bool → ℕ → Node Float
    ident : Text → ℕ → Node Float
    member : Text → Text → ℕ → Node Float
    call : Text → Nodes Float → ℕ → Node Float
    neg : Node Float → ℕ → Node Float
    not : Node Float → ℕ → Node Float
    logic : LogicOp → Node Float → Node Float → ℕ → Node Float
    arith : ArithOp → Node Float → Node Float → ℕ → Node Float
    compare : CompareOp → Node Float → Node Float → ℕ → Node Float

  -- `node.args` of a call.
  pub data Nodes (Float : Type 0) : Type 0 where
    nil : Nodes Float
    cons : Node Float → Nodes Float → Nodes Float

-- The errors of `lex` and `Parse`, with what their messages show. Positions in messages count from 1.
pub data ParseError : Type 0 where
  unclosed_quote : ℕ → ParseError
  bad_rune : ℕ → ℕ → ParseError
  empty_formula : ParseError
  trailing : Text → ℕ → ParseError
  bad_number : Text → ParseError
  unclosed_paren : ParseError
  unclosed_call : Text → ParseError
  bad_field : Text → ParseError
  cut_short : ParseError
  not_understood : Text → ℕ → ParseError
