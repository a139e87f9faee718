-- ===== src/Tools/Calc/Literal.antt =====
-- internal/tools/calc.go: number literals of the calculator.
use bepaylot.Prelude.{
  ℕ, suc, Text, Bool, true, false, ◌||◌, not, Option, none, some, [], ◌∷◌, ◌++◌, ◌==◌, ltb,
  if◌then◌else◌, keep, Outcome, ok, trim_left,
}
use bepaylot.GoLibrary.{Unicode, BigNumbers}
use bepaylot.Tools.Calc.Arithmetic.{
  CalcError, fail, max_exponent, thousand_separators, two_numbers, big_literal_exponent,
  invalid_number,
}

abbrev pub Parser : Type 0 → Type 0
Parser A = Text → Outcome CalcError (A × Text)

abbrev pub before_rune : ℕ → Text × Text → Text × Text
before_rune c (s, rest) = (c ∷ s, rest)

-- A loop that goes on while a rune passes the test: what it passes over, and what is left.
unfoldable pub span_of : (ℕ → Bool) → Text → Text × Text
span_of test [] = ([], [])
span_of test (c ∷ cs) =
    let more = span_of test cs in if test c then before_rune c more else ([], c ∷ cs)

-- strings.Count(s, ".")
abbrev pub count_dots : Text → ℕ
count_dots [] = 0
count_dots (c ∷ cs) = let n = count_dots cs in if c == b'.' then suc n else n

-- What stands after the first `e` or `E`.
abbrev pub after_exponent_mark : Text → Option Text
after_exponent_mark [] = none
after_exponent_mark (c ∷ cs) =
    let more = after_exponent_mark cs in if c == b'e' || c == b'E' then some cs else more

-- strings.TrimPrefix(s, "+")
abbrev pub trim_plus : Text → Text
trim_plus [] = []
trim_plus (c ∷ cs) = if c == b'+' then cs else c ∷ cs

module _ {Float Int Rat : Type 0} (u : Unicode Float) (b : BigNumbers Int Rat) (total : ℕ) where
  abbrev pub is_name_rune : ℕ → Bool
  is_name_rune r = u.is_letter r || (u.is_digit r || r == b'_')

  abbrev pub is_number_rune : ℕ → Bool
  is_number_rune r = u.is_digit r || (r == b'.' || r == b'_')

  abbrev pub starts_digit : Text → Bool
  starts_digit [] = false
  starts_digit (c ∷ cs) = u.is_digit c

  -- The digits of an exponent after its mark and sign, if there is one.
  abbrev pub exponent_digits : Text → Text → Text × Text → Text × Text
  exponent_digits mark s otherwise =
      if starts_digit s
      then (mark ++ (span_of u.is_digit s).0, (span_of u.is_digit s).1)
      else otherwise

  abbrev pub after_mark : ℕ → Text → Text × Text
  after_mark e [] = ([], e ∷ [])
  after_mark e (c ∷ cs) =
      if c == b'+' || c == b'-'
      then exponent_digits (e ∷ c ∷ []) cs ([], e ∷ c ∷ cs)
      else exponent_digits (e ∷ []) (c ∷ cs) ([], e ∷ c ∷ cs)

  unfoldable pub exponent_part : Text → Text × Text
  exponent_part [] = ([], [])
  exponent_part (c ∷ cs) = if c == b'e' || c == b'E' then after_mark c cs else ([], c ∷ cs)

  abbrev pub too_big : Option Int → Bool
  too_big none = true
  too_big (some e) = b.int_exceeds e max_exponent

  abbrev pub big_exponent : Option Text → Bool
  big_exponent none = false
  big_exponent (some s) = too_big (b.read_int (trim_plus s))

  abbrev pub read_value : Text → Text → Option Rat → Outcome CalcError (Rat × Text)
  read_value literal rest none = fail total (invalid_number literal) rest
  read_value literal rest (some v) = ok (v, rest)

  -- The checks of a literal that starts at `start`, before `rest`.
  abbrev pub literal_at : Text → Text → Text → Outcome CalcError (Rat × Text)
  literal_at start literal rest =
      if ltb 1 (count_dots literal)
      then fail total (thousand_separators literal) start
      else if starts_digit rest
      then fail total two_numbers rest
      else if big_exponent (after_exponent_mark literal)
      then fail total (big_literal_exponent literal) rest
      else read_value literal rest (b.read_rat literal)

  -- parseNumber
  unfoldable pub parse_number : Parser Rat
  parse_number s =
      let (digits, s') = span_of is_number_rune s in
      let (exponent, s'') = exponent_part s' in
      literal_at s (keep (λ r. not (r == b'_')) (digits ++ exponent)) (trim_left u.is_space s'')
