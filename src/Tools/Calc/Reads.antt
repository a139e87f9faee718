-- ===== src/Tools/Calc/Reads.antt =====
-- internal/tools/calc.go: what the number literals of the calculator read of a text.
use bepaylot.Prelude.{
  ℕ, suc, ◌≤◌, ◌<◌, ◌≡◌, Text, trim_left, Bool, true, ◌||◌, not, Option, none, some, [], ◌∷◌, ◌++◌,
  ◌==◌, ltb, if-intro, length, keep, Returns, holds, rejected, Returns-if, Returns-weaken, arith,
}
use bepaylot.GoLibrary.{Unicode, BigNumbers}
use bepaylot.Tools.Calc.Literal.{
  Parser, span_of, is_number_rune, starts_digit, exponent_digits, after_mark, exponent_part,
  read_value, literal_at, parse_number, count_dots, big_exponent, after_exponent_mark,
}

pub trim_left-le : (space : ℕ → Bool) (s : Text) → length (trim_left space s) ≤ length s
unfolding trim_left
trim_left-le space [] = omega arith
trim_left-le space (c ∷ cs) = ground (arith, trim_left-le space cs)

pub span_of-le : (test : ℕ → Bool) (s : Text) → length (span_of test s).1 ≤ length s
unfolding span_of
span_of-le test [] = omega arith
span_of-le test (c ∷ cs) = ground (arith, span_of-le test cs)

pub span_of-first :
    (test : ℕ → Bool) (c : ℕ) (cs : Text)
    → test c ≡ true
    → length (span_of test (c ∷ cs)).1 ≤ length cs
unfolding span_of
span_of-first test c cs h = ground (arith, span_of-le test cs, h)

-- What is left of a text after something was read from it, and at least a rune.
abbrev pub Leaves : {A : Type 0} → Text → A × Text → Type 0
Leaves s r = length r.1 ≤ length s

abbrev pub Takes : {A : Type 0} → Text → A × Text → Type 0
Takes s r = length r.1 < length s

abbrev pub Good : {A : Type 0} → ℕ → Parser A → Type 0
Good n p = (s : Text) → length s < n → Returns (Takes s) (p s)

module _ {Float Int Rat : Type 0} (u : Unicode Float) (b : BigNumbers Int Rat) (total : ℕ) where
  exponent_digits-le :
      (mark s : Text) (otherwise : Text × Text) (m : ℕ)
      → length s ≤ m
      → length otherwise.1 ≤ m
      → length (exponent_digits u b total mark s otherwise).1 ≤ m
  exponent_digits-le mark s otherwise m h k =
      if-intro (λ (r : Text × Text). length r.1 ≤ m) (starts_digit u b total s) _ _
        (λ e. omega (arith, h, span_of-le u.is_digit s)) (λ e. k)

  after_mark-le : (e : ℕ) (s : Text) → length (after_mark u b total e s).1 ≤ suc (length s)
  after_mark-le e [] = omega arith
  after_mark-le e (c ∷ cs) =
      if-intro (λ (r : Text × Text). length r.1 ≤ suc (suc (length cs))) (c == b'+' || c == b'-') _
        _ (λ h. exponent_digits-le (e ∷ c ∷ []) cs _ _ (omega arith) (omega arith))
        (λ h. exponent_digits-le (e ∷ []) (c ∷ cs) _ _ (omega arith) (omega arith))

  exponent_part-le : (s : Text) → length (exponent_part u b total s).1 ≤ length s
  unfolding exponent_part
  exponent_part-le [] = omega arith
  exponent_part-le (c ∷ cs) =
      if-intro (λ (r : Text × Text). length r.1 ≤ suc (length cs)) (c == b'e' || c == b'E') _ _
        (λ h. after_mark-le c cs) (λ h. omega arith)

  read_value-Leaves :
      (literal rest : Text) (v : Option Rat)
      → Returns (Leaves rest) (read_value u b total literal rest v)
  read_value-Leaves literal rest none = rejected
  read_value-Leaves literal rest (some v) = holds (omega arith)

  literal_at-Leaves :
      (start literal rest : Text) → Returns (Leaves rest) (literal_at u b total start literal rest)
  literal_at-Leaves start literal rest =
      Returns-if (ltb 1 (count_dots literal)) (λ e. rejected)
        (λ e.
          Returns-if (starts_digit u b total rest) (λ h. rejected)
            (λ h.
              Returns-if (big_exponent u b total (after_exponent_mark literal)) (λ k. rejected)
                (λ k. read_value-Leaves literal rest _)))

  pub parse_number-Takes :
      (c : ℕ) (cs : Text)
      → is_number_rune u b total c ≡ true
      → Returns (Takes (c ∷ cs)) (parse_number u b total (c ∷ cs))
  unfolding parse_number
  parse_number-Takes c cs h =
      let s' = (span_of (is_number_rune u b total) (c ∷ cs)).1 in
      let s'' = (exponent_part u b total s').1 in
      Returns-weaken
        (literal_at-Leaves (c ∷ cs)
          (keep (λ r. not (r == b'_'))
            ((span_of (is_number_rune u b total) (c ∷ cs)).0 ++ (exponent_part u b total s').0))
          (trim_left u.is_space s''))
        λ r le. omega (
          arith,
          le,
          trim_left-le u.is_space s'',
          exponent_part-le s',
          span_of-first (is_number_rune u b total) c cs h,
        )
