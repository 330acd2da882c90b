-- ===== src/Prelude/Results.antt =====
-- Code that throws: a result or an error. `SdkError` (errors.ts) carries a code and a message;
-- the SDK's messages are constructors of the error type of each component.
use mathlib.Core.Path.{◌≡◌, refl}
use mathlib.Core.Logic.{◌⊎◌, inl, inr}
use mathlib.Core.Bool.{Bool, true, false}

pub data Result {ℓ} (E : Type ℓ) (A : Type ℓ) : Type ℓ where
  ok : A → Result E A
  err : E → Result E A

pub Result-cases {ℓ} :
    {E A : Type ℓ} (r : Result E A) → ((a : A) × (r ≡ ok a)) ⊎ ((e : E) × (r ≡ err e))
Result-cases (ok a) = inl (a, refl)
Result-cases (err e) = inr (e, refl)

infixl 5 ◌>>=◌ ◌>>◌
abbrev pub ◌>>=◌ {ℓ} : {E A B : Type ℓ} → Result E A → (A → Result E B) → Result E B
ok a >>= f = f a
err e >>= f = err e

abbrev pub ◌>>◌ {ℓ} : {E B : Type ℓ} → Result E (Unit {ℓ}) → Result E B → Result E B
m >> k = m >>= λ _. k

-- `if (c) throw e`.
abbrev pub throw_if {ℓ} : {E : Type ℓ} → Bool → E → Result E (Unit {ℓ})
throw_if true e = err e
throw_if false e = ok tt

-- A property of what a computation returns, if it returns.
abbrev pub Ensures {ℓ κ} : {E A : Type ℓ} → (A → Type κ) → Result E A → Type κ
Ensures P (ok a) = P a
Ensures P (err e) = Unit

pub Ensures-bind {ℓ κ} :
    {E A B : Type ℓ} (P : B → Type κ) (m : Result E A) (f : A → Result E B)
    → ((a : A) → m ≡ ok a → Ensures P (f a))
    → Ensures P (m >>= f)
Ensures-bind P (ok a) f h = h a refl
Ensures-bind P (err e) f h = tt

pub Ensures-throw_if {ℓ κ} :
    {E B : Type ℓ} (P : B → Type κ) (b : Bool) (e : E) (k : Result E B)
    → (b ≡ false → Ensures P k)
    → Ensures P (throw_if b e >> k)
Ensures-throw_if P true e k h = tt
Ensures-throw_if P false e k h = h refl

pub Ensures-eq_ok {ℓ κ} :
    {E A : Type ℓ} (P : A → Type κ) {m : Result E A} {a : A} → Ensures P m → m ≡ ok a → P a
Ensures-eq_ok P h e = rw e at h

-- The rule of consequence for a bind.
pub Ensures-then {ℓ κ} :
    {E A B : Type ℓ} (Q : A → Type κ) (P : B → Type κ) (m : Result E A) (f : A → Result E B)
    → Ensures Q m
    → ((a : A) → Q a → Ensures P (f a))
    → Ensures P (m >>= f)
Ensures-then Q P (ok a) f q h = h a q
Ensures-then Q P (err e) f q h = tt

pub Ensures-map {ℓ κ} :
    {E A : Type ℓ} (Q P : A → Type κ) (m : Result E A)
    → Ensures Q m
    → ((a : A) → Q a → P a)
    → Ensures P m
Ensures-map Q P (ok a) q h = h a q
Ensures-map Q P (err e) q h = tt
