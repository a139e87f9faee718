-- ===== src/CheckExpr/Value/Dedupe.antt =====
-- `dedupe` of internal/checkexpr/eval.go.
use bepaylot.Prelude.{
  ◌≡◌, refl, ap, Text, text_eq, text_eq_refl, text_eq_sound, contains_text, Bool, true, ◌&&◌, not,
  List, [], ◌∷◌, Bool-cases, inl, inr, arith,
}
use bepaylot.CheckExpr.Value.{dedupe, dedupe_from}

-- No text occurs twice.
abbrev pub distinct : List Text → Bool
distinct [] = true
distinct (x ∷ xs) = not (contains_text xs x) && distinct xs

contains_eq :
    (seen : List Text) (x a : Text)
    → text_eq x a ≡ true
    → contains_text seen x ≡ contains_text seen a
contains_eq seen x a h = ap (contains_text seen) (text_eq_sound x a h)

-- What is kept of `xs` after `seen`: the texts of `xs` that were not seen.
contains-dedupe_from :
    (seen xs : List Text) (a : Text)
    → contains_text (dedupe_from seen xs) a ≡ (contains_text xs a && not (contains_text seen a))
unfolding dedupe_from contains_text
contains-dedupe_from seen [] a = refl
contains-dedupe_from seen (x ∷ xs) a = elim (Bool-cases (contains_text seen x)) [
  | inl old ↦
      rw (old, dedupe_from) (ground (arith, contains-dedupe_from seen xs a, contains_eq seen x a))
  | inr new ↦
      rw (new, dedupe_from)
        (ground (arith, contains-dedupe_from (x ∷ seen) xs a, contains_eq seen x a))
]

distinct-dedupe_from : (seen xs : List Text) → distinct (dedupe_from seen xs) ≡ true
unfolding dedupe_from contains_text
distinct-dedupe_from seen [] = refl
distinct-dedupe_from seen (x ∷ xs) = elim (Bool-cases (contains_text seen x)) [
  | inl old ↦ rw (old, dedupe_from) (distinct-dedupe_from seen xs)
  | inr new ↦
      rw (new, dedupe_from)
        (ground (
          arith,
          distinct-dedupe_from (x ∷ seen) xs,
          contains-dedupe_from (x ∷ seen) xs x,
          text_eq_refl x,
        ))
]

-- `dedupe` gives every text of its argument and no other, each of them once.
pub dedupe_lem :
    (xs : List Text)
    → (distinct (dedupe xs) ≡ true)
      × ((a : Text) → contains_text (dedupe xs) a ≡ contains_text xs a)
unfolding dedupe
dedupe_lem xs = (
  distinct-dedupe_from [] xs,
  λ a. unfold contains_text in ground (arith, contains-dedupe_from [] xs a),
)
