-- ===== src/Crypto/Modular/Roots/Shanks.antt =====
-- One round of the loop of `tonelli_shanks`.
use ocash_sdk.Prelude.{
  ℕ, suc, ◌+◌, ◌-◌, ◌*◌, ◌%◌, ◌^◌, ◌≤◌, ◌<◌, ◌≡◌, ◌≢◌, sym, ap, ◌∙◌, arith, inl, inr,
}
use native.Mathlib.Nat
use ocash_sdk.Crypto.Modular.{mod_pow, root_factor}
use ocash_sdk.Crypto.Modular.Laws.{
  squared, squared-suc, squared-squared, squared-mul, mod-mul, mod-mul-mod,
}
use ocash_sdk.Crypto.Modular.Power.{mod_pow-pow}
use ocash_sdk.Crypto.Modular.Roots.{IsOddPrime, IsLeastExponent}

module _ (p : ℕ) (prime : IsOddPrime p) where
  open prime use {above_two, odd, roots_of_one, fermat}

  -- What holds at the head of the `while`.
  abbrev pub Invariant : ℕ → ℕ → ℕ → ℕ → ℕ → ℕ → Type 0
  Invariant n m c t r k =
      (0 < m)
      × (2 ^ m ≤ p - 1)
      × (t % p ≡ t)
      × (squared t (m - 1) p ≡ 1)
      × (squared c (m - 1) p ≡ p - 1)
      × (r * r % p ≡ t * n % p)
      × (m ≤ k)

  minus_one_squared : (p - 1) * (p - 1) % p ≡ 1
  minus_one_squared =
      let whole : (p - 1) * (p - 1) ≡ p * (p - 2) + 1 = square (p - 2) (omega arith) in
      ap (λ (k : ℕ). k % p) whole
      ∙ Nat.mul-add-mod_self_left p (p - 2) 1
      ∙ Nat.mod-eq_of_lt (omega arith)
    where
      expand : (k j : ℕ) → j ≡ k + 1 → j * j ≡ (k + 2) * k + 1
      expand k j e = rw e (omega arith)

      square : (k : ℕ) → k + 2 ≡ p → (p - 1) * (p - 1) ≡ p * k + 1
      square k e = rw (← e) (expand k (k + 2 - 1) (omega arith))

  -- `b`, and its square.
  pub factor-squared :
      (m i c : ℕ) → 0 < i → i < m → 2 ^ m ≤ p - 1 → root_factor m i c p ≡ squared c (m - i - 1) p
  factor-squared m i c hi lt bound =
      let j = m - i - 1 in
      let small : 2 ^ j < p - 1 = omega (
        arith,
        Nat.two-pow-succ j,
        Nat.one-le-pow j 2 (omega arith),
        Nat.pow-le-pow_right {n = 2} (omega arith) {i = suc j} {j = m} (omega arith),
      ) in
      ap (λ (e : ℕ). mod_pow c e p) (mod_pow-pow 2 j (p - 1) (omega arith) ∙ Nat.mod-eq_of_lt small)
      ∙ mod_pow-pow c (2 ^ j) p (omega arith)

  -- The power of `t` before the last squaring is a root of 1, and not 1.
  before_one :
      (t i : ℕ) → 0 < i → squared t i p ≡ 1 → squared t (i - 1) p ≢ 1 → squared t (i - 1) p ≡ p - 1
  before_one t i hi one ne =
      let x = squared t (i - 1) p in
      let last : x * x % p ≡ 1 =
        squared-suc t (i - 1) p
        ∙ ap (λ (k : ℕ). squared t k p) {x = suc (i - 1)} {y = i} (omega arith)
        ∙ one in
      let reduced : x % p ≡ x = Nat.mod-mod (t ^ (2 ^ (i - 1))) p in
      elim (roots_of_one x last) [ inl e ↦ absurd (ne (sym reduced ∙ e)) | inr e ↦ sym reduced ∙ e ]

  -- The square of `b`, and its power.
  factor_square :
      (m i c : ℕ) → i < m → (let b = squared c (m - i - 1) p in b * b % p ≡ squared c (m - i) p)
  factor_square m i c lt =
      squared-suc c (m - i - 1) p
      ∙ ap (λ (k : ℕ). squared c k p) {x = suc (m - i - 1)} {y = m - i} (omega arith)

  factor_power :
      (m i c : ℕ)
      → 0 < i
      → i < m
      → squared c (m - 1) p ≡ p - 1
      → squared (squared c (m - i) p) (i - 1) p ≡ p - 1
  factor_power m i c hi lt ec =
      squared-squared c (m - i) (i - 1) p
      ∙ ap (λ (k : ℕ). squared c k p) {x = m - i + (i - 1)} {y = m - 1} (omega arith)
      ∙ ec

  -- `r * b` is a root of `t * c2 * n`.
  product_square :
      (r b t n : ℕ)
      → r * r % p ≡ t * n % p
      → (r * b % p) * (r * b % p) % p ≡ t * (b * b % p) % p * n % p
  product_square r b t n e =
      mod-mul-mod (r * b) (r * b) p
      ∙ ap (λ (k : ℕ). k % p) {x = r * b * (r * b)} {y = r * r * (b * b)} (omega arith)
      ∙ sym (mod-mul-mod (r * r) (b * b) p)
      ∙ ap (λ (k : ℕ). k * (b * b % p) % p) e
      ∙ mod-mul (t * n) (b * b % p) p
      ∙ ap (λ (k : ℕ). k % p) {x = t * n * (b * b % p)} {y = t * (b * b % p) * n} (omega arith)
      ∙ sym (mod-mul (t * (b * b % p)) n p)

  -- Where `t` is not 1, the invariant holds after the round.
  pub round :
      (n m c t r k i : ℕ)
      → Invariant n m c t r (suc k)
      → IsLeastExponent t m p i
      → (let b = squared c (m - i - 1) p in
          let c2 = b * b % p in Invariant n i c2 (t * c2 % p) (r * b % p) k)
  round n m c t r k i (hm, bound, ht, et, ec, er, hk) (hi, lt, one, ne) = (
    hi,
    Nat.le_trans (Nat.pow-le-pow_right {n = 2} (omega arith) {i = i} {j = m} (omega arith)) bound,
    Nat.mod-mod (t * c2) p,
    squared-mul t c2 (i - 1) p
        ∙ ap (λ (j : ℕ). j * squared c2 (i - 1) p % p) (before_one t i hi one ne)
        ∙ ap (λ (j : ℕ). (p - 1) * j % p) c_power
        ∙ minus_one_squared,
    c_power,
    product_square r b t n er,
    omega arith,
  )
    where
      b : ℕ
      b = squared c (m - i - 1) p

      c2 : ℕ
      c2 = b * b % p

      c_power : squared c2 (i - 1) p ≡ p - 1
      c_power =
          ap (λ (k : ℕ). squared k (i - 1) p) (factor_square m i c lt) ∙ factor_power m i c hi lt ec
