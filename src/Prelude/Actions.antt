-- ===== src/Prelude/Actions.antt =====
-- Asynchronous code that changes an object and may throw: from a state to the next one and a result.
-- A `throw` keeps the changes that came before it.
use mathlib.Core.Path.{◌≡◌, refl}
use mathlib.Core.Bool.{Bool, true, false}
use mathlib.Core.Option.{Option, none, some}
use native.Mathlib.Omega.{arith}
use ocash_sdk.Prelude.Results.{Result, ok, err}

abbrev pub Action : Type 0 → Type 0 → Type 0 → Type 0
Action S E A = S → S × Result E A

module _ {S E : Type 0} where
  abbrev pub returned : {A : Type 0} → A → Action S E A
  returned a s = (s, ok a)

  abbrev pub thrown : {A : Type 0} → E → Action S E A
  thrown e s = (s, err e)

  abbrev pub modify : (S → S) → Action S E (Unit {0})
  modify f s = (f s, ok tt)

  abbrev pub current : Action S E S
  current s = (s, ok s)

  abbrev pub run_next : {A B : Type 0} → (A → Action S E B) → S × Result E A → S × Result E B
  run_next f (s, ok a) = f a s
  run_next f (s, err e) = (s, err e)

  infixl 5 ◌>>=◌ ◌>>◌
  unfoldable pub ◌>>=◌ : {A B : Type 0} → Action S E A → (A → Action S E B) → Action S E B
  (m >>= f) s = run_next f (m s)

  abbrev pub ◌>>◌ : {B : Type 0} → Action S E (Unit {0}) → Action S E B → Action S E B
  m >> k = m >>= λ _. k

  abbrev pub handled : {A : Type 0} → (E → Action S E A) → S × Result E A → S × Result E A
  handled h (s, ok a) = (s, ok a)
  handled h (s, err e) = h e s

  -- `try { m } catch (e) { h }`.
  unfoldable pub catching : {A : Type 0} → Action S E A → (E → Action S E A) → Action S E A
  catching m h s = handled h (m s)

  -- `if (c) throw e`.
  abbrev pub throw_when : Bool → E → Action S E (Unit {0})
  throw_when true e = thrown e
  throw_when false e = returned tt

  -- A call that may throw: the state it leaves, and what it throws.
  abbrev pub raised : S → Option E → S × Result E (Unit {0})
  raised s none = (s, ok tt)
  raised s (some e) = (s, err e)

  -- What holds after a computation: `Q` of its result and the state, or `R` of the state where it threw.
  abbrev pub Post : {A : Type 0} → (A → S → Type 0) → (S → Type 0) → S × Result E A → Type 0
  Post Q R (s, ok a) = Q a s
  Post Q R (s, err e) = R s

  abbrev pub Leads :
      {A : Type 0} → (S → Type 0) → Action S E A → (A → S → Type 0) → (S → Type 0) → Type 0
  Leads I m Q R = (s : S) → I s → Post Q R (m s)

  Post-run_next :
      {A B : Type 0} (Q : A → S → Type 0) (T : B → S → Type 0) (R : S → Type 0)
      (f : A → Action S E B) (r : S × Result E A)
      → Post Q R r
      → ((a : A) → Leads (Q a) (f a) T R)
      → Post T R (run_next f r)
  Post-run_next Q T R f (s, ok a) q h = h a s q
  Post-run_next Q T R f (s, err e) q h = q

  pub Post-state : {A : Type 0} (I : S → Type 0) (r : S × Result E A) → Post (λ a. I) I r → I r.0
  Post-state I (s, ok a) h = h
  Post-state I (s, err e) h = h

  -- The rule of sequence.
  pub Leads-bind :
      {A B : Type 0} (I : S → Type 0) (Q : A → S → Type 0) (T : B → S → Type 0) (R : S → Type 0)
      (m : Action S E A) (f : A → Action S E B)
      → Leads I m Q R
      → ((a : A) → Leads (Q a) (f a) T R)
      → Leads I (m >>= f) T R
  unfolding ◌>>=◌
  Leads-bind I Q T R m f hm hf s i = Post-run_next Q T R f (m s) (hm s i) hf

  -- An assignment, where `I` before it gives `J` after it.
  pub Leads-modify :
      {B : Type 0} (I J : S → Type 0) (T : B → S → Type 0) (R : S → Type 0) (f : S → S)
      (k : Action S E B)
      → ((s : S) → I s → J (f s))
      → Leads J k T R
      → Leads I (modify f >> k) T R
  unfolding ◌>>=◌
  Leads-modify I J T R f k h hk s i = hk (f s) (h s i)

  -- A test that throws: what follows has its negation.
  pub Leads-throw_when :
      {B : Type 0} (I : S → Type 0) (T : B → S → Type 0) (R : S → Type 0) (b : Bool) (e : E)
      (k : Action S E B)
      → ((s : S) → I s → R s)
      → (b ≡ false → Leads I k T R)
      → Leads I (throw_when b e >> k) T R
  unfolding ◌>>=◌
  Leads-throw_when I T R true e k weak h s i = weak s i
  Leads-throw_when I T R false e k weak h s i = h refl s i

  pub Leads-passes :
      {B : Type 0} (I : S → Type 0) (T : B → S → Type 0) (R : S → Type 0) (b : Bool) (e : E)
      (k : Action S E B)
      → b ≡ false
      → Leads I k T R
      → Leads I (throw_when b e >> k) T R
  unfolding ◌>>=◌
  Leads-passes I T R true e k h hk = absurd (ground arith)
  Leads-passes I T R false e k h hk = hk

  Post-handled :
      {A : Type 0} (Q : A → S → Type 0) (R T : S → Type 0) (h : E → Action S E A)
      (r : S × Result E A)
      → Post Q R r
      → ((e : E) → Leads R (h e) Q T)
      → Post Q T (handled h r)
  Post-handled Q R T h (s, ok a) q k = q
  Post-handled Q R T h (s, err e) q k = k e s q

  pub Leads-catching :
      {A : Type 0} (I : S → Type 0) (Q : A → S → Type 0) (R T : S → Type 0) (m : Action S E A)
      (h : E → Action S E A)
      → Leads I m Q R
      → ((e : E) → Leads R (h e) Q T)
      → Leads I (catching m h) Q T
  unfolding catching
  Leads-catching I Q R T m h hm hh s i = Post-handled Q R T h (m s) (hm s i) hh
