-- ===== src/Tools/Calc/Format/Decimals.antt =====
-- decimalsNeeded and terminates of internal/tools/calc.go: the denominators of decimals that end.
use bepaylot.Prelude.{
  ℕ, zero, suc, ◌*◌, ◌/◌, ◌%◌, ◌^◌, ◌≤◌, ◌<◌, ◌≡◌, refl, sym, ap, ◌∙◌, subst, max, true, false,
  ◌==◌, if-intro, ◌↔◌, arith,
}
use bepaylot.Tools.Calc.Format.{strip_factor, count_factor, decimals_needed, terminates}
use native.Mathlib.Nat.{mul_assoc, one-mul, mul-one, pow-suc, pow-zero, mul_comm}

power_suc : (p n : ℕ) → p ^ suc n ≡ p * p ^ n
power_suc p n = pow-suc p n ∙ mul_comm (p ^ n) p

-- A factor, with what division by it does.
module _ (p : ℕ) (exact : (x : ℕ) → (x % p == 0) ≡ true → x ≡ p * (x / p))
    (smaller : (x : ℕ) → 0 < x → x / p < x)
    (positive : (x : ℕ) → 0 < x → (x % p == 0) ≡ true → 0 < x / p)
    (back : (x : ℕ) → ((p * x % p == 0) ≡ true) × (p * x / p ≡ x)) where
  power_zero : (x : ℕ) → p ^ 0 * x ≡ x
  power_zero x = ap (λ y. y * x) (pow-zero p) ∙ one-mul x

  -- A number as a power of the factor times a number that it does not divide.
  abbrev Stripped : ℕ → ℕ × ℕ → Type 0
  Stripped x r = (x ≡ p ^ r.0 * r.1) × ((r.1 % p == 0) ≡ false) × (0 < r.1)

  strip_factor-Stripped : (fuel x : ℕ) → 0 < x → x ≤ fuel → Stripped x (strip_factor p fuel x)
  unfolding strip_factor
  strip_factor-Stripped zero x h k = absurd (omega (arith, h, k))
  strip_factor-Stripped (suc fuel) x h k =
      if-intro (Stripped x) (x % p == 0) _ _
        (λ e.
          let ih =
            strip_factor-Stripped fuel (x / p) (positive x h e) (omega (arith, k, smaller x h)) in
          let r = strip_factor p fuel (x / p) in
          (
            exact x e
                ∙ ap (λ y. p * y) ih.0
                ∙ sym (mul_assoc p (p ^ r.0) r.1)
                ∙ ap (λ y. y * r.1) (sym (power_suc p r.0)),
            ih.1,
            ih.2,
          ))
        (λ e. (sym (power_zero x), e, h))

  strip_factor-power :
      (fuel a m x : ℕ)
      → (m % p == 0) ≡ false
      → x ≡ p ^ a * m
      → 0 < x
      → x ≤ fuel
      → strip_factor p fuel x ≡ (a, m)
  unfolding strip_factor
  strip_factor-power zero a m x e q h k = absurd (omega (arith, h, k))
  strip_factor-power (suc fuel) zero m x e q h k =
      let same = q ∙ power_zero m in
      if-intro (λ (r : ℕ × ℕ). r ≡ (0, m)) (x % p == 0) _ _
        (λ d. absurd (ground (arith, e, subst (λ y. (y % p == 0) ≡ true) same d)))
        (λ d. ap (λ y. (0, y)) same)
  strip_factor-power (suc fuel) (suc a) m x e q h k =
      let parts : x ≡ p * (p ^ a * m) =
        q ∙ ap (λ y. y * m) (power_suc p a) ∙ mul_assoc p (p ^ a) m in
      let divides = subst (λ y. (y % p == 0) ≡ true) (sym parts) (back (p ^ a * m)).0 in
      let quotient = ap (λ y. y / p) parts ∙ (back (p ^ a * m)).1 in
      if-intro (λ (r : ℕ × ℕ). r ≡ (suc a, m)) (x % p == 0) _ _
        (λ d.
          ap (λ (r : ℕ × ℕ). (suc r.0, r.1))
            (strip_factor-power fuel a m (x / p) e quotient (positive x h d)
              (omega (arith, k, smaller x h))))
        (λ d. absurd (ground (arith, d, divides)))

two_exact : (x : ℕ) → (x % 2 == 0) ≡ true → x ≡ 2 * (x / 2)
two_exact x h = ground (arith, h)

five_exact : (x : ℕ) → (x % 5 == 0) ≡ true → x ≡ 5 * (x / 5)
five_exact x h = ground (arith, h)

two_smaller : (x : ℕ) → 0 < x → x / 2 < x
two_smaller x h = omega (arith, h)

five_smaller : (x : ℕ) → 0 < x → x / 5 < x
five_smaller x h = omega (arith, h)

two_positive : (x : ℕ) → 0 < x → (x % 2 == 0) ≡ true → 0 < x / 2
two_positive x h e = ground (arith, h, e)

five_positive : (x : ℕ) → 0 < x → (x % 5 == 0) ≡ true → 0 < x / 5
five_positive x h e = ground (arith, h, e)

two_back : (x : ℕ) → ((2 * x % 2 == 0) ≡ true) × (2 * x / 2 ≡ x)
two_back x = (ground arith, omega arith)

five_back : (x : ℕ) → ((5 * x % 5 == 0) ≡ true) × (5 * x / 5 ≡ x)
five_back x = (ground arith, omega arith)

-- A power of five is odd, and not zero.
five_power : (n : ℕ) → ((5 ^ n % 2 == 0) ≡ false) × (0 < 5 ^ n)
five_power zero = (refl, omega arith)
five_power (suc n) =
    let ih = five_power n in
    (ground (arith, ih.0, power_suc 5 n), omega (arith, ih.1, power_suc 5 n))

count_two :
    (x : ℕ) → 0 < x → Stripped 2 two_exact two_smaller two_positive two_back x (count_factor 2 x)
count_two x h =
    strip_factor-Stripped 2 two_exact two_smaller two_positive two_back x x h (omega arith)

count_five :
    (x : ℕ)
    → 0 < x
    → Stripped 5 five_exact five_smaller five_positive five_back x (count_factor 5 x)
count_five x h =
    strip_factor-Stripped 5 five_exact five_smaller five_positive five_back x x h (omega arith)

-- The twos and fives of the denominator of a decimal that ends.
count_power : (d a b : ℕ) → 0 < d → d ≡ 2 ^ a * 5 ^ b → terminates d ≡ true
unfolding terminates
count_power d a b h e =
    let twos =
      strip_factor-power 2 two_exact two_smaller two_positive two_back d a (5 ^ b) d
        (five_power b).0 e h (omega arith) in
    let fives =
      strip_factor-power 5 five_exact five_smaller five_positive five_back (5 ^ b) b 1 (5 ^ b) refl
        (sym (mul-one (5 ^ b))) (five_power b).1 (omega arith) in
    ap (λ (r : ℕ × ℕ). (count_factor 5 r.1).1 == 1) twos ∙ ap (λ (r : ℕ × ℕ). r.1 == 1) fives

-- A decimal with a positive denominator `d` ends exactly when terminates says so, that is, when `d` is a product
-- of twos and fives; then decimalsNeeded gives the larger of their numbers.
pub terminates_iff :
    (d : ℕ)
    → 0 < d
    → (terminates d ≡ true)
      ↔ ((a : ℕ) × (b : ℕ) × (d ≡ 2 ^ a * 5 ^ b) × (decimals_needed d ≡ max a b))
unfolding decimals_needed terminates
terminates_iff d h =
    let twos = count_two d h in
    let fives = count_five (count_factor 2 d).1 twos.2 in
    (
      λ e. (
        (count_factor 2 d).0,
        (count_factor 5 (count_factor 2 d).1).0,
        twos.0
            ∙ ap (λ y. 2 ^ (count_factor 2 d).0 * y)
                (fives.0
                  ∙ ap (λ y. 5 ^ (count_factor 5 (count_factor 2 d).1).0 * y) (ground (arith, e))
                  ∙ mul-one _),
        refl,
      ),
      λ (a, b, e, _). count_power d a b h e,
    )
