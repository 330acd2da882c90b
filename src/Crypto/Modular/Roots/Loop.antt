-- ===== src/Crypto/Modular/Roots/Loop.antt =====
-- The loop of `tonelli_shanks` from its loop_start to its end.
use ocash_sdk.Prelude.{
  ℕ, zero, suc, ◌+◌, ◌-◌, ◌*◌, ◌/◌, ◌%◌, ◌^◌, ◌≤◌, ◌<◌, ◌≡◌, refl, sym, ap, ◌∙◌, true, false, ◌==◌,
  Bool-cases, arith, inl, inr, ==_iff, some,
}
use native.Mathlib.Nat
use ocash_sdk.Crypto.Modular.{least_exponent, root_factor, roots_loop}
use ocash_sdk.Crypto.Modular.Laws.{
  squared, squared-zero, squared-suc, mod-mul, mod-mul-mod, pow-add, pow-mul, pow-mod,
}
use ocash_sdk.Crypto.Modular.Roots.Shanks.{Invariant, round, factor-squared}
use ocash_sdk.Crypto.Modular.Roots.{IsOddPrime, Splits, IsLeastExponent, order_loop_lem}

module _ (p : ℕ) (prime : IsOddPrime p) where
  open prime use {above_two}

  -- With fuel for `M` the loop ends, at a square root.
  pub roots_loop_lem :
      (fuel n m c t r : ℕ)
      → Invariant p prime n m c t r fuel
      → (root : ℕ) × (roots_loop (suc fuel) m c t r p ≡ some root) × (root * root % p ≡ n % p)
  unfolding roots_loop
  roots_loop_lem zero n m c t r (hm, bound, ht, et, ec, er, hk) = absurd (omega arith)
  roots_loop_lem (suc fuel) n m c t r (hm, bound, ht, et, ec, er, hk) = elim (Bool-cases (t == 1)) [
    | inl one ↦ rw (one, roots_loop) (r, refl, er ∙ final one)
    | inr other ↦
        rw (other, roots_loop)
          (roots_loop_lem fuel n i (b * b % p) (t * (b * b % p) % p) (r * b % p) (next other))
  ]
    where
      i : ℕ
      i = least_exponent t m p

      b : ℕ
      b = root_factor m i c p

      final : (t == 1) ≡ true → t * n % p ≡ n % p
      final one =
          ap (λ (k : ℕ). k % p) {x = t * n} {y = n}
            (omega (arith, ap (λ (k : ℕ). k * n) ((==_iff t 1).0 one)))

      more : (t == 1) ≡ false → 1 < m
      more other = elim (Bool-cases (m == 1)) [
        | inl last ↦ absurd (ground (arith, one_squaring ((==_iff m 1).0 last)))
        | inr above ↦ ground arith
      ]
        where
          one_squaring : m ≡ 1 → t ≡ 1
          one_squaring e =
              sym ht
              ∙ sym (squared-zero t p)
              ∙ (ap (λ (k : ℕ). squared t k p) {x = 0} {y = m - 1} (omega arith) ∙ et)

      least : (t == 1) ≡ false → IsLeastExponent t m p i
      least other =
          order_loop_lem m 1 t (t * t % p) m p (omega arith) (more other) (omega arith) et
            (λ h. absurd (ground (arith, sym ht ∙ sym (squared-zero t p) ∙ h)))
            (ap (λ (k : ℕ). k * k % p) (sym ht ∙ sym (squared-zero t p)) ∙ squared-suc t 0 p)

      next :
          (t == 1) ≡ false
          → Invariant p prime n i (b * b % p) (t * (b * b % p) % p) (r * b % p) fuel
      next other =
          let (hi, lt, one, ne) = least other in
          rw (factor-squared p prime m i c hi lt bound)
            (round p prime n m c t r fuel i (hm, bound, ht, et, ec, er, hk) (hi, lt, one, ne))

  half_power :
      (n q s : ℕ)
      → q * 2 ^ s ≡ p - 1
      → 0 < s
      → squared (n ^ q % p) (s - 1) p ≡ n ^ ((p - 1) / 2) % p
  half_power n q s whole hs =
      let double : 2 ^ s ≡ 2 ^ (s - 1) + 2 ^ (s - 1) =
        ap (λ (k : ℕ). 2 ^ k) {x = s} {y = suc (s - 1)} (omega arith) ∙ Nat.two-pow-succ (s - 1) in
      let half : q * 2 ^ (s - 1) ≡ (p - 1) / 2 =
        omega (arith, whole, ap (λ (k : ℕ). q * k) double) in
      pow-mod (n ^ q) (2 ^ (s - 1)) p
      ∙ ap (λ (k : ℕ). k % p) (pow-mul n q (2 ^ (s - 1)))
      ∙ ap (λ (k : ℕ). n ^ k % p) half

  root_start :
      (n q : ℕ)
      → q % 2 ≡ 1
      → (n ^ ((q + 1) / 2) % p) * (n ^ ((q + 1) / 2) % p) % p ≡ (n ^ q % p) * n % p
  root_start n q oddq =
      let h = (q + 1) / 2 in
      mod-mul-mod (n ^ h) (n ^ h) p
      ∙ ap (λ (k : ℕ). k % p)
          (sym (pow-add n h h)
            ∙ ap (λ (k : ℕ). n ^ k) {x = h + h} {y = suc q} (omega arith)
            ∙ Nat.pow-suc n q)
      ∙ sym (mod-mul (n ^ q) n p)

  factor-le : (q k n : ℕ) → 0 < q → q * k ≡ n → k ≤ n
  factor-le zero k n hq e = absurd (omega arith)
  factor-le (suc q) k n hq e = omega (arith, e)

  -- The loop_start of the loop, from a number `z` that is no square.
  pub loop_start :
      (n z q s : ℕ)
      → Splits (p - 1) (q, s)
      → 0 < s
      → n ^ ((p - 1) / 2) % p ≡ 1
      → z ^ ((p - 1) / 2) % p ≡ p - 1
      → Invariant p prime n s (z ^ q % p) (n ^ q % p) (n ^ ((q + 1) / 2) % p) s
  loop_start n z q s (oddq, whole) hs en ez = (
    hs,
    factor-le q (2 ^ s) (p - 1) (omega arith) whole,
    Nat.mod-mod (n ^ q) p,
    half_power n q s whole hs ∙ en,
    half_power z q s whole hs ∙ ez,
    root_start n q oddq,
    Nat.le_refl s,
  )
