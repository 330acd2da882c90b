-- ===== src/Crypto/Modular/Power.antt =====
-- `mod_pow`: square and multiply against the power.
use ocash_sdk.Prelude.{
  ℕ, zero, suc, ◌+◌, ◌*◌, ◌/◌, ◌%◌, ◌^◌, ◌≤◌, ◌<◌, ◌≡◌, refl, sym, ap, ◌∙◌, ◌==◌, Bool-cases, inl,
  inr, ==_iff, lt→ltb, arith,
}
use native.Mathlib.Nat.{pow-zero, pow-suc, mul-one, one-mul, mod-one, mod-mod, mod-eq_of_lt}
use ocash_sdk.Crypto.Modular.{mod_pow, mod_pow_loop}
use ocash_sdk.Crypto.Modular.Laws.{mul-mod, mod-mul, mul-pow, pow-add, pow-mod}

-- The square of a remainder, to half the exponent.
square_pow : (b e m : ℕ) → (b * b % m) ^ e % m ≡ b ^ (e + e) % m
square_pow b e m = rw (pow-mod (b * b) e m, mul-pow b e, pow-add b e e) refl

pow_odd : (b e : ℕ) → e % 2 ≡ 1 → b ^ (e / 2 + e / 2) * b ≡ b ^ e
pow_odd b e odd =
    sym (pow-suc b (e / 2 + e / 2)) ∙ ap (λ (k : ℕ). b ^ k) {x = suc (e / 2 + e / 2)} (omega arith)

pow_even : (b e : ℕ) → e % 2 ≡ 0 → b ^ (e / 2 + e / 2) ≡ b ^ e
pow_even b e even = ap (λ (k : ℕ). b ^ k) {x = e / 2 + e / 2} (omega arith)

round_odd : (r b e m : ℕ) → e % 2 ≡ 1 → r * b % m * ((b * b % m) ^ (e / 2)) % m ≡ r * b ^ e % m
round_odd r b e m odd =
    mod-mul (r * b) ((b * b % m) ^ (e / 2)) m
    ∙ sym (mul-mod (r * b) ((b * b % m) ^ (e / 2)) m)
    ∙ ap (λ (k : ℕ). r * b * k % m) (square_pow b (e / 2) m)
    ∙ mul-mod (r * b) (b ^ (e / 2 + e / 2)) m
    ∙ ap (λ (k : ℕ). k % m) {x = r * b * b ^ (e / 2 + e / 2)} {y = r * b ^ e}
        (omega (arith, ap (λ (k : ℕ). r * k) (pow_odd b e odd)))

round_even : (r b e m : ℕ) → e % 2 ≡ 0 → r * ((b * b % m) ^ (e / 2)) % m ≡ r * b ^ e % m
round_even r b e m even =
    sym (mul-mod r ((b * b % m) ^ (e / 2)) m)
    ∙ ap (λ (k : ℕ). r * k % m) (square_pow b (e / 2) m)
    ∙ mul-mod r (b ^ (e / 2 + e / 2)) m
    ∙ ap (λ (k : ℕ). r * k % m) (pow_even b e even)

loop-pow : (fuel r b e m : ℕ) → e ≤ fuel → r % m ≡ r → mod_pow_loop fuel r b e m ≡ r * b ^ e % m
unfolding mod_pow_loop
loop-pow zero r b zero m h hr = rw (pow-zero b, mul-one r, hr) refl
loop-pow zero r b (suc e) m h hr = absurd (omega arith)
loop-pow (suc fuel) r b zero m h hr = rw (pow-zero b, mul-one r, hr) refl
loop-pow (suc fuel) r b (suc e) m h hr = elim (Bool-cases (suc e % 2 == 1)) [
  | inl odd ↦
      rw (lt→ltb 0 (suc e) (omega arith), odd, mod_pow_loop)
        (loop-pow fuel (r * b % m) (b * b % m) (suc e / 2) m (omega arith) (mod-mod (r * b) m)
          ∙ round_odd r b (suc e) m ((==_iff (suc e % 2) 1).0 odd))
  | inr even ↦
      rw (lt→ltb 0 (suc e) (omega arith), even, mod_pow_loop)
        (loop-pow fuel r (b * b % m) (suc e / 2) m (omega arith) hr
          ∙ round_even r b (suc e) m (ground arith))
]

-- `mod_pow` is the remainder of the power, for every positive modulus.
pub mod_pow-pow : (b e m : ℕ) → 0 < m → mod_pow b e m ≡ b ^ e % m
unfolding mod_pow
mod_pow-pow b e m h = elim (Bool-cases (m == 1)) [
  | inl one ↦ rw (one, (==_iff m 1).0 one, mod-one) refl
  | inr more ↦ rw (more) (
      loop-pow e 1 (b % m) e m (omega arith) (mod-eq_of_lt (ground arith))
      ∙ rw (one-mul, pow-mod b e m) refl)
]
