-- ===== src/CheckExpr/Value/Digits.antt =====
-- The grouping of digits by `fmtNum` of internal/checkexpr/eval.go.
use bepaylot.Prelude.{
  ℕ, suc, ◌%◌, ◌≡◌, ◌≤◌, refl, ap, ◌∙◌, Text, List, [], ◌∷◌, ◌++◌, length, ◌==◌, arith, All,
  Bool-cases, inl, inr,
}
use bepaylot.CheckExpr.Value.{group_digits}

-- Groups of digits, joined by dots and joined by nothing.
abbrev pub dotted : Text → List Text → Text
dotted g [] = g
dotted g (h ∷ hs) = g ++ (b'.' ∷ dotted h hs)

abbrev pub undotted : Text → List Text → Text
undotted g [] = g
undotted g (h ∷ hs) = g ++ undotted h hs

abbrev pub OfThree : Text → Type 0
OfThree g = length g ≡ 3

-- `out` is `digits` in groups of three, of which the leftmost may be shorter, with a dot between them.
abbrev pub Grouped : Text → Text → Type 0
Grouped digits out =
    (g : Text) × (hs : List Text) × (undotted g hs ≡ digits)
    × (dotted g hs ≡ out)
    × (1 ≤ length g)
    × (length g ≤ 3)
    × All OfThree hs

-- A text of one digit more than `n` has the leftmost group `g`: they have the same length modulo 3.
abbrev Counted : ℕ → Text → Type 0
Counted n g = suc n % 3 ≡ length g % 3

undotted-cons : (d : ℕ) (g : Text) (hs : List Text) → undotted (d ∷ g) hs ≡ d ∷ undotted g hs
undotted-cons d g [] = refl
undotted-cons d g (h ∷ hs) = refl

dotted-cons : (d : ℕ) (g : Text) (hs : List Text) → dotted (d ∷ g) hs ≡ d ∷ dotted g hs
dotted-cons d g [] = refl
dotted-cons d g (h ∷ hs) = refl

grouped_with :
    (d : ℕ) (s : Text)
    → (g : Text) × (hs : List Text) × (undotted g hs ≡ d ∷ s)
      × (dotted g hs ≡ group_digits (d ∷ s))
      × (1 ≤ length g)
      × (length g ≤ 3)
      × All OfThree hs
      × Counted (length s) g
unfolding group_digits
grouped_with d [] = (d ∷ [], [], refl, refl, omega arith, omega arith, tt, refl)
grouped_with d (e ∷ ds) =
    let (g, hs, u, v, lo, hi, three, c) = grouped_with e ds in
    elim (Bool-cases (suc (length ds) % 3 == 0)) [
      | inl b ↦ (
        d ∷ [],
        g ∷ hs,
        ap (λ t. d ∷ t) u,
        ap (λ t. d ∷ b'.' ∷ t) v ∙ ground (arith, b),
        omega arith,
        omega arith,
        (ground (arith, b, c, lo, hi), three),
        ground (arith, b),
      )
      | inr b ↦ (
        d ∷ g,
        hs,
        undotted-cons d g hs ∙ ap (λ t. d ∷ t) u,
        dotted-cons d g hs ∙ ap (λ t. d ∷ t) v ∙ ground (arith, b),
        omega arith,
        ground (arith, b, c, lo, hi),
        three,
        ground (arith, c),
      )
    ]

-- Grouping the digits of a text that is not empty cuts it into groups of three, of which only the
-- leftmost may be shorter, and puts a dot between each two.
pub group_digits_lem : (d : ℕ) (s : Text) → Grouped (d ∷ s) (group_digits (d ∷ s))
group_digits_lem d s =
    let (g, hs, u, v, lo, hi, three, c) = grouped_with d s in (g, hs, u, v, lo, hi, three)
