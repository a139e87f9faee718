-- ===== src/CheckExpr/Lexer/Total.antt =====
-- `lex` of internal/checkexpr/parse.go: its loop, and the tokens it returns.
use bepaylot.Prelude.{
  ℕ, zero, suc, ◌+◌, ◌≤◌, ◌<◌, ◌≡◌, refl, Text, Bool, true, false, Option, none, some, List, [],
  ◌∷◌, arith, if◌then◌else◌, length, Returns, holds, rejected, Returns-bind, Returns-if,
  Option-cases, inl, inr, text_eq, ◌==◌, ok, failed, ◌||◌, contains_rune, text, subst, sym, ◌∙◌,
}
use mathlib.Core.Bool.{false≢true}
use bepaylot.GoLibrary.{Unicode}
use bepaylot.CheckExpr.Syntax.{Token, Kind, is_eof, unclosed_quote}
use bepaylot.CheckExpr.Lexer.{
  span, quoted, Step, lex_symbol, lex_quoted, lex_step, lex_from, lex, add_token, punctuation,
  is_quote, is_number_rune, is_name_rune, is_two_rune_op, two_runes, after_one, give, open_quote,
  close_quote,
}

-- The tokens end in the only `eof` token, which stands at `end`, and the positions rise from `lo`.
abbrev pub IsLexed : ℕ → ℕ → List Token → Type 0
IsLexed lo end [] = ⊥
IsLexed lo end (t ∷ []) = (is_eof t.kind ≡ true) × (t.pos ≡ end) × (lo ≤ end)
IsLexed lo end (t ∷ u ∷ ts) =
    (is_eof t.kind ≡ false) × (lo ≤ t.pos) × IsLexed (suc t.pos) end (u ∷ ts)

length-span : (p : ℕ → Bool) (rs : Text) → length (span p rs).0 + length (span p rs).1 ≡ length rs
unfolding span
length-span p [] = refl
length-span p (r ∷ rs) = ground (arith, length-span p rs)

-- The closing quote is not counted on either side.
length-quoted :
    (end : ℕ) (rs : Text) {taken rest : Text}
    → quoted end rs ≡ some (taken, rest)
    → length taken + length rest + 1 ≡ length rs
unfolding quoted
length-quoted end [] h = ground arith
length-quoted end (r ∷ rs) h = elim (Option-cases (quoted end rs)) [
  | inl e ↦ ground arith
  | inr ((a, b), e) ↦ ground (arith, length-quoted end rs e)
]

abbrev is_eof_of : Option Token → Bool
is_eof_of none = false
is_eof_of (some t) = is_eof t.kind

abbrev StartsAt : Option Token → ℕ → Type 0
StartsAt none i = Unit
StartsAt (some t) i = t.pos ≡ i

-- A step from index `i` with `n` runes left gives a token at `i` or none, and moves on.
record Advances (i n : ℕ) (s : Step) : Type 0 where
  onward : i < s.at
  measured : s.at + length s.rest ≡ i + n
  not_eof : is_eof_of s.emitted ≡ false
  placed : StartsAt s.emitted i

no_two : (r : ℕ) → is_two_rune_op (two_runes (r ∷ [])) ≡ false
unfolding is_two_rune_op two_runes text_eq
no_two r = refl

punctuation_not_eof : (r : ℕ) → is_eof (punctuation r) ≡ false
unfolding punctuation
punctuation_not_eof r = ground arith

lex_symbol-Returns :
    (i r : ℕ) (rs : Text) → Returns (Advances i (suc (length rs))) (lex_symbol i r rs)
unfolding lex_symbol
lex_symbol-Returns i r rs =
    Returns-if (is_two_rune_op (two_runes (r ∷ rs)))
      (λ e. holds (record {
        onward = omega arith;
        measured = two_left i r rs e;
        not_eof = refl;
        placed = refl;
      }))
      (λ _.
        Returns-if (contains_rune (text "+-*/=<>!≤≥≠") r)
          (λ _. holds (record {
            onward = omega arith;
            measured = omega arith;
            not_eof = refl;
            placed = refl;
          }))
          (λ _.
            Returns-if (contains_rune (text "(),.") r)
              (λ _. holds (record {
                onward = omega arith;
                measured = omega arith;
                not_eof = punctuation_not_eof r;
                placed = refl;
              }))
              (λ _. rejected)))
  where
    two_left :
        (i r : ℕ) (rs : Text)
        → is_two_rune_op (two_runes (r ∷ rs)) ≡ true
        → i + 2 + length (after_one rs) ≡ i + suc (length rs)
    two_left i r [] e = absurd (false≢true (sym (no_two r) ∙ e))
    two_left i r (q ∷ rs) e = omega arith

lex_quoted-Returns :
    {Float : Type 0} (u : Unicode Float) (i r : ℕ) (rs : Text)
    → Returns (Advances i (suc (length rs))) (lex_quoted u i r rs)
unfolding lex_quoted
lex_quoted-Returns u i r rs = go _ refl
  where
    go :
        (o : Option (Text × Text))
        → quoted (if r == open_quote then close_quote else r) rs ≡ o
        → Returns (Advances i (suc (length rs))) (elim o [
          | none ↦ failed (unclosed_quote (i + 1))
          | some (inside, rest) ↦ ok (give Kind.str inside i (i + 2 + length inside) rest)
        ])
    go none e = rejected
    go (some (inside, rest)) e = holds (record {
      onward = omega arith;
      measured = omega (arith, length-quoted _ rs e);
      not_eof = refl;
      placed = refl;
    })

-- What follows a token is lexed, from a higher index on.
IsLexed-cons :
    (i lo end : ℕ) (o : Option Token) (ts : List Token)
    → is_eof_of o ≡ false
    → StartsAt o i
    → i < lo
    → IsLexed lo end ts
    → IsLexed i end (add_token o ts)
IsLexed-cons i lo end none [] e p h l = elim l [ ]
IsLexed-cons i lo end (some s) [] e p h l = elim l [ ]
IsLexed-cons i lo end none (t ∷ []) e p h (a, b, c) = (a, b, omega arith)
IsLexed-cons i lo end none (t ∷ v ∷ ts) e p h (a, b, c) = (a, omega arith, c)
IsLexed-cons i lo end (some s) (t ∷ []) e p h (a, b, c) = (e, omega arith, (a, b, omega arith))
IsLexed-cons i lo end (some s) (t ∷ v ∷ ts) e p h (a, b, c) = (e, omega arith, (a, omega arith, c))

module _ {Float : Type 0} (u : Unicode Float) where
  lex_step-Returns :
      (i r : ℕ) (rs : Text) → Returns (Advances i (suc (length rs))) (lex_step u i r rs)
  unfolding lex_step
  lex_step-Returns i r rs =
      Returns-if (u.is_space r) (λ _. holds space)
        (λ _.
          Returns-if (u.is_digit r) (λ _. holds (number (is_number_rune u)))
            (λ _.
              Returns-if (is_quote u r) (λ _. lex_quoted-Returns u i r rs)
                (λ _.
                  Returns-if (u.is_letter r || r == b'_') (λ _. holds (name (is_name_rune u)))
                    (λ _. lex_symbol-Returns i r rs))))
    where
      space : Advances i (suc (length rs)) (record { emitted = none; at = i + 1; rest = rs })
      space = record { onward = omega arith; measured = omega arith; not_eof = refl; placed = tt }

      number :
          (p : ℕ → Bool)
          → Advances i
              (suc (length rs))
              (give Kind.num (r ∷ (span p rs).0) i (i + 1 + length (span p rs).0) (span p rs).1)
      number p = record {
        onward = omega arith;
        measured = omega (arith, length-span p rs);
        not_eof = refl;
        placed = refl;
      }

      name :
          (p : ℕ → Bool)
          → Advances i
              (suc (length rs))
              (give Kind.ident (r ∷ (span p rs).0) i (i + 1 + length (span p rs).0) (span p rs).1)
      name p = record {
        onward = omega arith;
        measured = omega (arith, length-span p rs);
        not_eof = refl;
        placed = refl;
      }

  lex_from-Returns :
      (f i : ℕ) (rs : Text)
      → length rs < f
      → Returns (IsLexed i (i + length rs)) (lex_from u f i rs)
  unfolding lex_from
  lex_from-Returns zero i rs h = absurd (omega arith)
  lex_from-Returns (suc f) i [] h = holds (refl, omega arith, omega arith)
  lex_from-Returns (suc f) i (r ∷ rs) h = Returns-bind (lex_step-Returns i r rs) λ s adv.
      Returns-bind (lex_from-Returns f s.at s.rest (omega (arith, adv.onward, adv.measured)))
        λ ts lexed. holds (
          IsLexed-cons i s.at _ s.emitted ts adv.not_eof adv.placed adv.onward
            (subst (λ n. IsLexed s.at n ts) adv.measured lexed))

  -- `lex` returns on every input, with an error or with tokens that end in the only `eof` token, at
  -- the length of the source, and whose positions strictly rise: it neither panics nor runs on.
  pub lex-Returns : (src : Text) → Returns (IsLexed 0 (length src)) (lex u src)
  unfolding lex
  lex-Returns src =
      subst (λ n. Returns (IsLexed 0 n) (lex_from u (suc (length src)) 0 src)) (omega arith)
        (lex_from-Returns (suc (length src)) 0 src (omega arith))
