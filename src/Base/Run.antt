-- ===== src/Base/Run.antt =====
-- What a call can come to: a value, `fatal_failure` (which stops the machine), an access to
-- memory that the model does not hold, or the end of the fuel.
use mathlib.Core.Path.{◌≡◌, refl}
use mathlib.Core.Bool.{Bool, true, false}

pub data Run {ℓ} (A : Type ℓ) : Type ℓ where
  ok : A → Run A
  fatal : Run A
  fault : Run A
  out_of_fuel : Run A

infixl 5 ◌>>=◌
abbrev pub ◌>>=◌ {ℓ κ} : {A : Type ℓ} {B : Type κ} → Run A → (A → Run B) → Run B
ok a >>= f = f a
fatal >>= f = fatal
fault >>= f = fault
out_of_fuel >>= f = out_of_fuel

-- A bind that returns has had a first part that returned.
pub >>=-eq-ok {ℓ κ} :
    {A : Type ℓ} {B : Type κ} (call : Run A) (next : A → Run B) {result : B}
    → (call >>= next) ≡ ok result
    → (value : A) × (call ≡ ok value) × (next value ≡ ok result)
>>=-eq-ok fatal next returned = cc
>>=-eq-ok fault next returned = cc
>>=-eq-ok out_of_fuel next returned = cc
>>=-eq-ok (ok value) next returned = (value, refl, returned)

-- Binds whose next parts agree.
pub >>=-each {ℓ κ} :
    {A : Type ℓ} {B : Type κ} (call : Run A) (f g : A → Run B)
    → ((value : A) → f value ≡ g value)
    → (call >>= f) ≡ (call >>= g)
>>=-each (ok value) f g each = each value
>>=-each fatal f g each = refl
>>=-each fault f g each = refl
>>=-each out_of_fuel f g each = refl

pub ok-injective {ℓ} : {A : Type ℓ} {a b : A} → ◌≡◌ {A = Run A} (ok a) (ok b) → a ≡ b
ok-injective h = cc

-- A call returns.
abbrev pub Returns {ℓ} : {A : Type ℓ} → Run A → Type ℓ
Returns call = (value : _) × (call ≡ ok value)

pub >>=-Returns {ℓ κ} :
    {A : Type ℓ} {B : Type κ} (call : Run A) (next : A → Run B)
    → Returns call
    → ((value : A) → Returns (next value))
    → Returns (call >>= next)
>>=-Returns call next (value, returned) each = rw returned (each value)

-- The same as a test, for the tactics.
abbrev pub is_ok {ℓ} : {A : Type ℓ} → Run A → Bool
is_ok (ok a) = true
is_ok fatal = false
is_ok fault = false
is_ok out_of_fuel = false

pub is_ok-Returns {ℓ} : {A : Type ℓ} (call : Run A) → is_ok call ≡ true → Returns call
is_ok-Returns (ok a) h = (a, refl)
is_ok-Returns fatal h = absurd (cc h)
is_ok-Returns fault h = absurd (cc h)
is_ok-Returns out_of_fuel h = absurd (cc h)
