-- ===== src/Prelude/Result.antt =====
-- Functions that return a value or an error.
use mathlib.Core.Bool.{Bool, true, false}
use mathlib.Core.Path.{◌≡◌, refl}
use mathlib.Core.Logic.{◌⊎◌, inl, inr}

pub data Result {ℓ κ} (E : Type ℓ) (A : Type κ) : Type (ℓ ⊔ κ) where
  ok : A → Result E A
  err : E → Result E A

infixl 5 ◌>>=◌ ◌>>◌
abbrev pub ◌>>=◌ {ℓ κ μ} :
    {E : Type ℓ} {A : Type κ} {B : Type μ} → Result E A → (A → Result E B) → Result E B
ok a >>= f = f a
err e >>= f = err e

abbrev pub ◌>>◌ {ℓ μ} : {E : Type ℓ} {B : Type μ} → Result E (Unit {0}) → Result E B → Result E B
m >> k = m >>= λ _. k

-- `if !b { return e }`
abbrev pub ensure {ℓ} : {E : Type ℓ} → Bool → E → Result E (Unit {0})
ensure true e = ok tt
ensure false e = err e

-- What an operation promises of its value, if it returns one.
abbrev pub Returns {ε ℓ κ} : {E : Type ε} {A : Type ℓ} → (A → Type κ) → Result E A → Type κ
Returns P (ok a) = P a
Returns P (err e) = Unit

pub Returns-bind {ε ℓ μ κ} :
    {E : Type ε} {A : Type ℓ} {B : Type μ} (P : B → Type κ) (m : Result E A) (f : A → Result E B)
    → ((a : A) → m ≡ ok a → Returns P (f a))
    → Returns P (m >>= f)
Returns-bind P (ok a) f h = h a refl
Returns-bind P (err e) f h = tt

pub Returns-ok {ε ℓ κ} :
    {E : Type ε} {A : Type ℓ} (P : A → Type κ) (m : Result E A) (a : A)
    → Returns P m
    → m ≡ ok a
    → P a
Returns-ok P m a h e = rw e at h

-- To split on a computed result and keep the equation.
pub Result-cases {ε ℓ} :
    {E : Type ε} {A : Type ℓ} (r : Result E A) → ((a : A) × (r ≡ ok a)) ⊎ ((e : E) × (r ≡ err e))
Result-cases (ok a) = inl (a, refl)
Result-cases (err e) = inr (e, refl)

pub Returns-map {ε ℓ κ μ} :
    {E : Type ε} {A : Type ℓ} (P : A → Type κ) (Q : A → Type μ) (m : Result E A)
    → ((a : A) → P a → Q a)
    → Returns P m
    → Returns Q m
Returns-map P Q (ok a) f h = f a h
Returns-map P Q (err e) f h = tt

pub Returns-both {ε ℓ κ μ} :
    {E : Type ε} {A : Type ℓ} (P : A → Type κ) (Q : A → Type μ) (m : Result E A)
    → Returns P m
    → Returns Q m
    → Returns (λ a. P a × Q a) m
Returns-both P Q (ok a) h k = (h, k)
Returns-both P Q (err e) h k = tt

pub Returns-ensure {ε κ} :
    {E : Type ε} {Q : Type κ} (b : Bool) (e : E) → Q → Returns (λ u. Q) (ensure b e)
Returns-ensure true e q = q
Returns-ensure false e q = tt
