-- ===== src/Prelude/Texts.antt =====
-- A Go string as the list of its code points (`[]rune(s)`), with the tests the code makes on it.
use Prim.Native.Nat.{ℕ}
use Prim.Native.Char.{code}
use Prim.Native.String.{String}
use mathlib.Core.Path.{◌≡◌, refl}
use mathlib.Core.Logic.{◌↔◌}
use mathlib.Core.List.{List, [], ◌∷◌, ◌++◌}
use mathlib.Core.Bool.{Bool, true, false, ◌&&◌, ◌||◌}
use native.Mathlib.Omega.{arith}
use bepaylot.Prelude.Tests.{◌==◌, ==_iff, if◌then◌else◌}

abbrev pub Text : Type 0
Text = List ℕ

-- The code points of a literal.
abbrev pub text : String → Text
text String.[] = []
text (String.◌∷◌ c s) = code c ∷ text s

unfoldable pub text_eq : Text → Text → Bool
text_eq [] [] = true
text_eq (x ∷ xs) (y ∷ ys) = x == y && text_eq xs ys
text_eq _ _ = false

pub text_eq_refl : (s : Text) → text_eq s s ≡ true
unfolding text_eq
text_eq_refl [] = refl
text_eq_refl (x ∷ xs) = ground (arith, text_eq_refl xs)

pub text_eq_sound : (s t : Text) → text_eq s t ≡ true → s ≡ t
unfolding text_eq
text_eq_sound [] [] h = refl
text_eq_sound [] (y ∷ ys) h = ground arith
text_eq_sound (x ∷ xs) [] h = ground arith
text_eq_sound (x ∷ xs) (y ∷ ys) h = ground (arith, text_eq_sound xs ys, ==_iff x y)

pub text_eq_iff : (s t : Text) → (text_eq s t ≡ true) ↔ (s ≡ t)
text_eq_iff s t = (text_eq_sound s t, λ e. ground (arith, text_eq_refl s))

-- `strings.ContainsRune`, and membership in a `map[string]bool`.
unfoldable pub contains_rune : Text → ℕ → Bool
contains_rune [] r = false
contains_rune (x ∷ xs) r = x == r || contains_rune xs r

unfoldable pub contains_text : List Text → Text → Bool
contains_text [] s = false
contains_text (x ∷ xs) s = text_eq x s || contains_text xs s

-- `strings.HasPrefix(s, p)`.
unfoldable pub has_prefix : Text → Text → Bool
has_prefix s [] = true
has_prefix [] (y ∷ ys) = false
has_prefix (x ∷ xs) (y ∷ ys) = x == y && has_prefix xs ys

-- `strings.Contains(s, p)`.
unfoldable pub contains : Text → Text → Bool
unfolding has_prefix
contains [] p = has_prefix [] p
contains (x ∷ xs) p = has_prefix (x ∷ xs) p || contains xs p

-- `strings.TrimLeftFunc` and `strings.TrimFunc`.
unfoldable pub trim_left : (ℕ → Bool) → Text → Text
trim_left space [] = []
trim_left space (x ∷ xs) = let rest = trim_left space xs in if space x then rest else x ∷ xs

-- The rune goes with the white space after it, if nothing else follows.
abbrev pub drop_space : (ℕ → Bool) → ℕ → Text → Text
drop_space space x [] = if space x then [] else x ∷ []
drop_space space x (y ∷ ys) = x ∷ y ∷ ys

unfoldable pub trim_right : (ℕ → Bool) → Text → Text
trim_right space [] = []
trim_right space (x ∷ xs) = drop_space space x (trim_right space xs)

unfoldable pub trim : (ℕ → Bool) → Text → Text
unfolding trim_left trim_right
trim space s = trim_right space (trim_left space s)

-- `strings.Join`.
unfoldable pub join : Text → List Text → Text
join sep [] = []
join sep (x ∷ []) = x
join sep (x ∷ y ∷ ys) = x ++ (sep ++ join sep (y ∷ ys))

-- A literal that proofs do not look into.
unfoldable pub lit : String → Text
lit s = text s
