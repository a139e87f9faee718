-- ===== src/CheckExpr/Lexer.antt =====
-- internal/checkexpr/parse.go: `lex`. One iteration of its loop is `lex_step`; the loop runs on fuel,
-- one unit for each rune and one more.
pub mod Total
use bepaylot.Prelude.{
  ℕ, zero, suc, ◌+◌, Text, text, text_eq, contains_rune, Bool, true, false, ◌&&◌, ◌||◌, not, Option,
  none, some, List, [], ◌∷◌, ◌++◌, ◌==◌, if◌then◌else◌, length, Outcome, ok, failed, panicked,
  out_of_fuel, ◌>>=◌,
}
use bepaylot.GoLibrary.{Unicode}
use bepaylot.CheckExpr.Syntax.{Token, Kind, ParseError, unclosed_quote, bad_rune}

-- The longest prefix of runes that satisfy `p`, and the rest.
unfoldable pub span : (ℕ → Bool) → Text → Text × Text
span p [] = ([], [])
span p (r ∷ rs) = let (taken, rest) = span p rs in if p r then (r ∷ taken, rest) else ([], r ∷ rs)

-- `”` and `“`, the typographic quotes.
abbrev pub close_quote : ℕ
close_quote = 0x201d

abbrev pub open_quote : ℕ
open_quote = 0x201c

-- The text up to the closing quote, and what follows the quote. A typographic quote may also be
-- closed by `"`.
abbrev pub add_rune : ℕ → Option (Text × Text) → Option (Text × Text)
add_rune r none = none
add_rune r (some (taken, rest)) = some (r ∷ taken, rest)

unfoldable pub quoted : ℕ → Text → Option (Text × Text)
quoted end [] = none
quoted end (r ∷ rs) =
    let more = add_rune r (quoted end rs) in
    if not (r == end) && not (end == close_quote && r == b'"') then more else some ([], rs)

unfoldable pub two_runes : Text → Text
two_runes (r ∷ s ∷ _) = r ∷ s ∷ []
two_runes _ = []

unfoldable pub is_two_rune_op : Text → Bool
is_two_rune_op two =
    text_eq two (text "<=")
    || text_eq two (text ">=")
    || text_eq two (text "!=")
    || text_eq two (text "<>")
    || text_eq two (text "==")
    || text_eq two (text "&&")
    || text_eq two (text "||")

-- The operator that a single rune stands for.
unfoldable pub one_rune_op : ℕ → Text
one_rune_op r =
    if r == 0x2264
    then text "<="
    else if r == 0x2265
    then text ">="
    else if r == 0x2260
    then text "!="
    else r ∷ []

unfoldable pub punctuation : ℕ → Kind
punctuation r =
    if r == b'('
    then Kind.lparen
    else if r == b')'
    then Kind.rparen
    else if r == b','
    then Kind.comma
    else Kind.dot

abbrev pub token : Kind → Text → ℕ → Token
token k t i = record { kind = k; text = t; pos = i }

-- What one iteration does: it may give a token, and moves on to a rune, with the runes from there.
pub record Step : Type 0 where
  pub emitted : Option Token
  pub at : ℕ
  pub rest : Text

abbrev pub give : Kind → Text → ℕ → ℕ → Text → Step
give k t i j rest = record { emitted = some (token k t i); at = j; rest = rest }

abbrev pub after_one : Text → Text
after_one [] = []
after_one (_ ∷ s) = s

-- `default`: operators and punctuation. `rs` are the runes after `r`.
unfoldable pub lex_symbol : ℕ → ℕ → Text → Outcome ParseError Step
lex_symbol i r rs =
    if is_two_rune_op (two_runes (r ∷ rs))
    then ok (give Kind.op (two_runes (r ∷ rs)) i (i + 2) (after_one rs))
    else if contains_rune (text "+-*/=<>!≤≥≠") r
    then ok (give Kind.op (one_rune_op r) i (i + 1) rs)
    else if contains_rune (text "(),.") r
    then ok (give (punctuation r) (r ∷ []) i (i + 1) rs)
    else failed (bad_rune r (i + 1))

abbrev pub add_token : Option Token → List Token → List Token
add_token none ts = ts
add_token (some t) ts = t ∷ ts

module _ {Float : Type 0} (u : Unicode Float) where
  open u use {is_space, is_digit, is_letter}

  abbrev pub is_number_rune : ℕ → Bool
  is_number_rune r = is_digit r || r == b'.'

  abbrev pub is_name_rune : ℕ → Bool
  is_name_rune r = is_letter r || is_digit r || r == b'_' || r == b'-'

  abbrev pub is_quote : ℕ → Bool
  is_quote r = r == b'"' || r == 0x27 || r == open_quote || r == close_quote

  unfoldable pub lex_quoted : ℕ → ℕ → Text → Outcome ParseError Step
  lex_quoted i r rs = elim (quoted (if r == open_quote then close_quote else r) rs) [
    | none ↦ failed (unclosed_quote (i + 1))
    | some (inside, rest) ↦ ok (give Kind.str inside i (i + 2 + length inside) rest)
  ]

  -- One iteration of the loop, at rune `r` of index `i`, with `rs` the runes after it.
  unfoldable pub lex_step : ℕ → ℕ → Text → Outcome ParseError Step
  lex_step i r rs =
      if is_space r
      then ok (record { emitted = none; at = i + 1; rest = rs })
      else if is_digit r
      then (let (taken, rest) = span is_number_rune rs in
          ok (give Kind.num (r ∷ taken) i (i + 1 + length taken) rest))
      else if is_quote r
      then lex_quoted i r rs
      else if is_letter r || r == b'_'
      then (let (taken, rest) = span is_name_rune rs in
          ok (give Kind.ident (r ∷ taken) i (i + 1 + length taken) rest))
      else lex_symbol i r rs

  unfoldable pub lex_from : ℕ → ℕ → Text → Outcome ParseError (List Token)
  lex_from zero i rs = out_of_fuel
  lex_from (suc f) i [] = ok (token Kind.eof [] i ∷ [])
  lex_from (suc f) i (r ∷ rs) =
      lex_step i r rs >>= λ s. lex_from f s.at s.rest >>= λ ts. ok (add_token s.emitted ts)

  unfoldable pub lex : Text → Outcome ParseError (List Token)
  unfolding lex_from
  lex src = lex_from (suc (length src)) 0 src
