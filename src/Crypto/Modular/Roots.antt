-- ===== src/Crypto/Modular/Roots.antt =====
-- `mod_sqrt`: what a prime modulus gives, and the searches of `tonelli_shanks`.
pub mod Shanks
pub mod Loop
pub mod Total
pub mod Bounds
use ocash_sdk.Prelude.{
  ℕ, zero, suc, ◌+◌, ◌-◌, ◌*◌, ◌/◌, ◌%◌, ◌^◌, ◌≤◌, ◌<◌, ◌≡◌, ◌≢◌, refl, sym, ap, ◌∙◌, true, false,
  ◌==◌, ltb, Bool-cases, arith, if◌then◌else◌, inl, inr, ==_iff, ◌↔◌, ◌⊎◌, some, not, ◌&&◌, lt→ltb,
}
use native.Mathlib.Nat
use ocash_sdk.Prelude.Int.{ℤ, pos, negsuc, eqb_ℤ}
use ocash_sdk.Crypto.Modular.{mod_pow, legendre, split_twos, find_nonresidue, order_loop}
use ocash_sdk.Crypto.Modular.Laws.{squared, squared-suc}
use ocash_sdk.Crypto.Modular.Power.{mod_pow-pow}

-- What `modSqrt` relies on of an odd prime: 1 has no square root but 1 and -1, Fermat's little
-- theorem, and a number that is no square.
pub record IsOddPrime (p : ℕ) : Type 0 where
  pub above_two : 2 < p
  pub odd : p % 2 ≡ 1
  pub roots_of_one : (x : ℕ) → x * x % p ≡ 1 → (x % p ≡ 1) ⊎ (x % p ≡ p - 1)
  pub fermat : (x : ℕ) → x % p ≢ 0 → x ^ (p - 1) % p ≡ 1
  pub nonresidue : ℕ
  pub nonresidue_range : (2 ≤ nonresidue) × (nonresidue < p)
  pub nonresidue_power : nonresidue ^ ((p - 1) / 2) % p ≡ p - 1

pub legendre-one :
    (a p : ℕ) → 2 < p → (eqb_ℤ (legendre a p) (pos 1) ≡ true) ↔ (a ^ ((p - 1) / 2) % p ≡ 1)
unfolding legendre
legendre-one a p h = rw (mod_pow-pow a ((p - 1) / 2) p (omega arith)) (ground arith)

pub legendre-minus_one :
    (a p : ℕ) → 2 < p → (eqb_ℤ (legendre a p) (negsuc 0) ≡ true) ↔ (a ^ ((p - 1) / 2) % p ≡ p - 1)
unfolding legendre
legendre-minus_one a p h = rw (mod_pow-pow a ((p - 1) / 2) p (omega arith)) (ground arith)

-- An odd factor and a power of two.
abbrev pub Splits : ℕ → ℕ × ℕ → Type 0
Splits n (q, s) = (q % 2 ≡ 1) × (q * 2 ^ s ≡ n)

pow_next : (s : ℕ) → 2 ^ (s + 1) ≡ 2 ^ s + 2 ^ s
pow_next s = ap (λ (k : ℕ). 2 ^ k) {x = s + 1} {y = suc s} (omega arith) ∙ Nat.two-pow-succ s

pub split_twos-Splits :
    (fuel q s n : ℕ) → 0 < q → q ≤ fuel → q * 2 ^ s ≡ n → Splits n (split_twos fuel q s)
unfolding split_twos
split_twos-Splits zero q s n hq h e = absurd (omega arith)
split_twos-Splits (suc fuel) q s n hq h e = elim (Bool-cases (q % 2 == 0)) [
  | inl even ↦
      rw (even, split_twos)
        (split_twos-Splits fuel (q / 2) (s + 1) n (ground arith) (omega arith) (halved even))
  | inr odd ↦ rw (odd, split_twos) (ground arith, e)
]
  where
    halved : (q % 2 == 0) ≡ true → q / 2 * 2 ^ (s + 1) ≡ n
    halved even =
        let half : q / 2 + q / 2 ≡ q = omega (arith, (==_iff (q % 2) 0).0 even) in
        omega (arith, ap (λ (k : ℕ). q / 2 * k) (pow_next s), ap (λ (k : ℕ). k * 2 ^ s) half)

pub find_nonresidue_lem :
    (fuel z p target : ℕ)
    → z ≤ target
    → target < z + fuel
    → eqb_ℤ (legendre target p) (negsuc 0) ≡ true
    → (w : ℕ) × (find_nonresidue fuel z p ≡ some w) × (eqb_ℤ (legendre w p) (negsuc 0) ≡ true)
unfolding find_nonresidue
find_nonresidue_lem zero z p target lo hi e = absurd (omega arith)
find_nonresidue_lem (suc fuel) z p target lo hi e =
    elim (Bool-cases (eqb_ℤ (legendre z p) (negsuc 0))) [
      | inl found ↦ rw (found, find_nonresidue) (z, refl, found)
      | inr other ↦
          rw (other, find_nonresidue)
            (find_nonresidue_lem fuel (z + 1) p target
              (different (λ eq. absurd (ground (arith, rw eq at other)))) (omega arith) e)
    ]
  where
    different : z ≢ target → z + 1 ≤ target
    different ne = ground arith

-- The least number of squarings, at least one, that take `t` to 1.
abbrev pub IsLeastExponent : ℕ → ℕ → ℕ → ℕ → Type 0
IsLeastExponent t m p i = (0 < i) × (i < m) × (squared t i p ≡ 1) × (squared t (i - 1) p ≢ 1)

pub order_loop_lem :
    (fuel i t temp m p : ℕ)
    → 0 < i
    → i < m
    → m ≤ i + fuel
    → squared t (m - 1) p ≡ 1
    → squared t (i - 1) p ≢ 1
    → temp ≡ squared t i p
    → IsLeastExponent t m p (order_loop fuel i temp m p)
unfolding order_loop
order_loop_lem zero i t temp m p hi lt f e ne et = absurd (omega arith)
order_loop_lem (suc fuel) i t temp m p hi lt f e ne et = elim (Bool-cases (temp == 1)) [
  | inl one ↦ rw (one, order_loop) (hi, lt, sym et ∙ (==_iff temp 1).0 one, ne)
  | inr other ↦
      rw (other, lt→ltb i m lt, order_loop)
        (order_loop_lem fuel (i + 1) t (temp * temp % p) m p (omega arith) (more other)
          (omega arith) e (λ h. absurd (ground (arith, et ∙ same i (i + 1 - 1) (omega arith) h)))
          (ap (λ (k : ℕ). k * k % p) et
            ∙ squared-suc t i p
            ∙ same (suc i) (i + 1) (omega arith) refl))
]
  where
    same : (j k : ℕ) → j ≡ k → {v : ℕ} → squared t k p ≡ v → squared t j p ≡ v
    same j k ejk e = ap (λ (n : ℕ). squared t n p) ejk ∙ e

    more : (temp == 1) ≡ false → i + 1 < m
    more other = elim (Bool-cases (i + 1 == m)) [
      | inl last ↦ absurd (ground (arith, et ∙ same i (m - 1) (ground arith) e))
      | inr below ↦ ground arith
    ]
