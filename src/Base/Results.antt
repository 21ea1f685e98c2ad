-- ===== src/Base/Results.antt =====
-- A Go pair `(value, error)`: an error makes the value void.
use mathlib.Core.Path.{◌≡◌, refl}
use mathlib.Core.Bool.{Bool, true, false}
use mathlib.Core.Logic.{◌⊎◌, inl, inr}
use mathlib.Core.Option.{Option, none, some}

pub data Result {ℓ κ} (E : Type ℓ) (A : Type κ) : Type (ℓ ⊔ κ) where
  ok : A → Result E A
  err : E → Result E A

-- What comes after a call that may fail: `if err != nil { return err }`.
infixl 5 ◌>>=◌ ◌>>◌
abbrev pub ◌>>=◌ {ℓ κ μ} :
    {E : Type ℓ} {A : Type κ} {B : Type μ} → Result E A → (A → Result E B) → Result E B
err failure >>= continue = err failure
ok value >>= continue = continue value

-- `if !test { return err }`
abbrev pub require {ℓ} : {E : Type ℓ} → Bool → E → Result E (Unit {0})
require false failure = err failure
require true failure = ok tt

abbrev pub ◌>>◌ {ℓ μ} : {E : Type ℓ} {B : Type μ} → Result E (Unit {0}) → Result E B → Result E B
tested >> continue = tested >>= λ _. continue

-- `fmt.Errorf("…: %w", err)`: the error is wrapped.
abbrev pub wrap_err {ℓ κ μ} :
    {E : Type ℓ} {F : Type κ} {A : Type μ} → (E → F) → Result E A → Result F A
wrap_err f (ok a) = ok a
wrap_err f (err e) = err (f e)

abbrev pub or_err {ℓ κ} : {E : Type ℓ} {A : Type κ} → E → Option A → Result E A
or_err e none = err e
or_err e (some a) = ok a

-- A chain that succeeds, taken apart.
pub >>=-eq-ok {ℓ κ μ} :
    {E : Type ℓ} {A : Type κ} {B : Type μ} (call : Result E A) (continue : A → Result E B) {b : B}
    → (call >>= continue) ≡ ok b
    → (a : A) × (call ≡ ok a) × (continue a ≡ ok b)
>>=-eq-ok (err failure) continue chain = cc
>>=-eq-ok (ok value) continue chain = (value, refl, chain)

-- To split on a computed result and keep the equation.
pub Result-cases {ℓ κ} :
    {E : Type ℓ} {A : Type κ} (m : Result E A) → ((a : A) × (m ≡ ok a)) ⊎ ((e : E) × (m ≡ err e))
Result-cases (ok a) = inl (a, refl)
Result-cases (err e) = inr (e, refl)
