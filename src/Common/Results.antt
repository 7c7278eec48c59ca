-- ===== src/Common/Results.antt =====
-- A Go function's `(value, error)` as one value, with `do`.
use mathlib.Core.Path.{◌≡◌, refl}
use mathlib.Core.Bool.{Bool, true, false}
use mathlib.Core.Option.{Option, none, some}

pub data Result {ℓ} (E : Type 0) (A : Type ℓ) : Type ℓ where
  ok : A → Result E A
  err : E → Result E A

infixl 5 ◌>>=◌
infixl 5 ◌>>◌
abbrev pub ◌>>=◌ {ℓ₁ ℓ₂} :
    {E : Type 0} {X : Type ℓ₁} {Y : Type ℓ₂} → Result E X → (X → Result E Y) → Result E Y
(err failure) >>= next = err failure
(ok value) >>= next = next value

abbrev pub ◌>>◌ {ℓ} : {E : Type 0} {Y : Type ℓ} → Result E (Unit {0}) → Result E Y → Result E Y
(err failure) >> after = err failure
(ok value) >> after = after

-- `if test { return e }`.
abbrev pub fail_if : {E : Type 0} → Bool → E → Result E (Unit {0})
fail_if true e = err e
fail_if false e = ok tt

-- `if err != nil { return e }`.
abbrev pub or_fail {ℓ} : {E : Type 0} {A : Type ℓ} → Option A → E → Result E A
or_fail none e = err e
or_fail (some a) e = ok a

-- What a chain that succeeded went through.
pub >>=-eq-ok {ℓ₁ ℓ₂} :
    {E : Type 0} {X : Type ℓ₁} {Y : Type ℓ₂} (first : Result E X) (next : X → Result E Y) {y : Y}
    → (first >>= next) ≡ ok y
    → (x : X) × (first ≡ ok x) × (next x ≡ ok y)
>>=-eq-ok (err failure) next done = cc
>>=-eq-ok (ok x) next done = (x, refl, done)

pub ok-injective {ℓ} :
    {E : Type 0} {A : Type ℓ} {a b : A} → ◌≡◌ {A = Result E A} (ok a) (ok b) → a ≡ b
ok-injective h = cc h

pub >>-eq-ok {ℓ} :
    {E : Type 0} {Y : Type ℓ} (first : Result E (Unit {0})) (after : Result E Y) {y : Y}
    → (first >> after) ≡ ok y
    → (first ≡ ok tt) × (after ≡ ok y)
>>-eq-ok (err failure) after done = cc
>>-eq-ok (ok tt) after done = (refl, done)
