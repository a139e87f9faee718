-- ===== src/Prelude/Outcomes.antt =====
-- What a call of Go code comes to: a value, an error, a run-time panic (an index out of range, a call
-- of a nil function), or the end of the fuel, which the code itself does not have.
use mathlib.Core.Path.{◌≡◌, refl, subst, sym}
use mathlib.Core.Logic.{◌⊎◌, inl, inr}
use mathlib.Core.Bool.{Bool, true, false}
use bepaylot.Prelude.Tests.{if◌then◌else◌}

pub data Outcome {ℓ κ} (E : Type κ) (A : Type ℓ) : Type (ℓ ⊔ κ) where
  ok : A → Outcome E A
  failed : E → Outcome E A
  panicked : Outcome E A
  out_of_fuel : Outcome E A

module _ {ℓ κ μ} {E : Type κ} {A : Type ℓ} {B : Type μ} where
  infixl 5 ◌>>=◌ ◌>>◌
  abbrev pub ◌>>=◌ : Outcome E A → (A → Outcome E B) → Outcome E B
  ok a >>= f = f a
  failed e >>= f = failed e
  panicked >>= f = panicked
  out_of_fuel >>= f = out_of_fuel

  abbrev pub ◌>>◌ : Outcome E A → Outcome E B → Outcome E B
  m >> k = m >>= λ _. k

-- The call returned, with a value that satisfies `P` or with an error.
pub data Returns {ℓ κ μ} {E : Type κ} {A : Type ℓ} (P : A → Type μ)
    : Outcome E A → Type (ℓ ⊔ κ ⊔ μ) where
  holds : {a : A} → P a → Returns P (ok a)
  rejected : {e : E} → Returns P (failed e)

module _ {ℓ κ μ} {E : Type κ} {A : Type ℓ} {P : A → Type μ} where
  pub Returns-if :
      (b : Bool) {x y : Outcome E A}
      → (b ≡ true → Returns P x)
      → (b ≡ false → Returns P y)
      → Returns P (if b then x else y)
  Returns-if true hx hy = hx refl
  Returns-if false hx hy = hy refl

  pub Returns-bind {ℓ' μ'} :
      {B : Type ℓ'} {Q : B → Type μ'} {r : Outcome E A} {f : A → Outcome E B}
      → Returns P r
      → ((a : A) → P a → Returns Q (f a))
      → Returns Q (r >>= f)
  Returns-bind (holds {a} h) k = k a h
  Returns-bind rejected k = rejected

  pub Returns-ok : {r : Outcome E A} {a : A} → Returns P r → r ≡ ok a → P a
  Returns-ok (holds h) e = subst P (cc) h
  Returns-ok rejected e = cc

  pub Returns-weaken {μ'} :
      {Q : A → Type μ'} {r : Outcome E A} → Returns P r → ((a : A) → P a → Q a) → Returns Q r
  Returns-weaken (holds {a} h) k = holds (k a h)
  Returns-weaken rejected k = rejected

  pub Returns-cases :
      {r : Outcome E A} → Returns P r → ((a : A) × (r ≡ ok a)) ⊎ ((e : E) × (r ≡ failed e))
  Returns-cases (holds {a} h) = inl (a, refl)
  Returns-cases (rejected {e}) = inr (e, refl)

-- The call returned a value.
abbrev pub Gives {ℓ κ} : {E : Type κ} {A : Type ℓ} → Outcome E A → Type (ℓ ⊔ κ)
Gives {A} r = (a : A) × (r ≡ ok a)

module _ {ℓ κ} {E : Type κ} {A : Type ℓ} where
  pub Gives-if : (b : Bool) {x y : Outcome E A} → Gives x → Gives y → Gives (if b then x else y)
  Gives-if true gx gy = gx
  Gives-if false gx gy = gy

module _ {ℓ κ μ} {E : Type κ} {A : Type ℓ} {B : Type μ} where
  pub Gives-bind :
      {m : Outcome E A} {f : A → Outcome E B} → Gives m → ((a : A) → Gives (f a)) → Gives (m >>= f)
  Gives-bind {f = f} (a, e) k = subst (λ r. Gives (r >>= f)) (sym e) (k a)

  -- A chain that ends well went well at its first call, and then on the value of that.
  pub >>=-eq-ok :
      (call : Outcome E A) (rest : A → Outcome E B) {value : B}
      → (call >>= rest) ≡ ok value
      → (first : A) × (call ≡ ok first) × (rest first ≡ ok value)
  >>=-eq-ok panicked rest went_well = cc
  >>=-eq-ok out_of_fuel rest went_well = cc
  >>=-eq-ok (failed e) rest went_well = cc
  >>=-eq-ok (ok first) rest went_well = (first, refl, went_well)
