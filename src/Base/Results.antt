-- ===== src/Base/Results.antt =====
-- What a Go function gives back: a value, an error value, or a panic (an index or a slice out of
-- range, an allocation that is too large). `stuck` is no result of the source: a loop of the model
-- ran out of fuel.
use mathlib.Core.Path.{◌≡◌, refl}
use mathlib.Core.Logic.{◌≢◌, ◌⊎◌, inl, inr}

pub data Outcome {ℓ κ} (E : Type κ) (A : Type ℓ) : Type (ℓ ⊔ κ) where
  ok : A → Outcome E A
  err : E → Outcome E A
  panic : Outcome E A
  stuck : Outcome E A

infixl 5 ◌>>=◌
abbrev pub ◌>>=◌ {ℓ κ μ} :
    {E : Type μ} {X : Type ℓ} {Y : Type κ} → Outcome E X → (X → Outcome E Y) → Outcome E Y
stuck >>= next = stuck
panic >>= next = panic
err e >>= next = err e
ok x >>= next = next x

-- Inversion of a bind that gave a value.
pub >>=-eq-ok {ℓ κ μ} :
    {E : Type μ} {X : Type ℓ} {Y : Type κ} (run : Outcome E X) (next : X → Outcome E Y) {y : Y}
    → (run >>= next) ≡ ok y
    → (x : X) × (run ≡ ok x) × (next x ≡ ok y)
>>=-eq-ok stuck next e = cc
>>=-eq-ok panic next e = cc
>>=-eq-ok (err why) next e = cc
>>=-eq-ok (ok x) next e = (x, refl, e)

-- A bind whose parts are not `stuck`.
pub >>=-ne-stuck {ℓ κ μ} :
    {E : Type μ} {A : Type ℓ} {B : Type κ} (m : Outcome E A) (f : A → Outcome E B)
    → m ≢ stuck
    → ((a : A) → m ≡ ok a → f a ≢ stuck)
    → (m >>= f) ≢ stuck
>>=-ne-stuck (ok a) f h k = k a refl
>>=-ne-stuck (err e) f h k = λ p. cc
>>=-ne-stuck panic f h k = λ p. cc
>>=-ne-stuck stuck f h k = λ p. h refl

pub ok-ne-stuck {ℓ μ} : {E : Type μ} {A : Type ℓ} (a : A) → ◌≢◌ {A = Outcome E A} (ok a) stuck
ok-ne-stuck a = λ p. cc

-- A split of a result that keeps the equation of a value.
pub Outcome-cases {ℓ μ} :
    {E : Type μ} {A : Type ℓ} (r : Outcome E A) → ((a : A) × (r ≡ ok a)) ⊎ ((a : A) → r ≢ ok a)
Outcome-cases (ok a) = inl (a, refl)
Outcome-cases (err e) = inr (λ a p. cc)
Outcome-cases panic = inr (λ a p. cc)
Outcome-cases stuck = inr (λ a p. cc)
