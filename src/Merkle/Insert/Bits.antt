-- ===== src/Merkle/Insert/Bits.antt =====
-- The path of a batch: the bit that `descend` tests at each level says in which half the batch lies.
use native.Mathlib.Nat.{div-add-mod, mul-add-mod_self_left, mod-eq_of_lt, mod-lt}
use ocash_sdk.Prelude.{
  ℕ, zero, suc, ◌+◌, ◌*◌, ◌/◌, ◌%◌, ◌^◌, ◌≤◌, ◌<◌, ◌≡◌, ◌∙◌, sym, ap, ◌==◌, true, false, arith,
}
use ocash_sdk.Merkle.Insert.{go_right}

half_bits : (b p : ℕ) → 0 < p → b / p % 2 * p + b % p < 2 * p
half_bits b p h =
    let small = mod-lt b h in
    let bit : b / p % 2 ≤ 1 = omega arith in
    let scaled : b / p % 2 * p ≤ 1 * p = grind arith in omega arith

-- The remainder by a doubled modulus, from the next digit.
pub mod-double : (b p : ℕ) → 0 < p → b % (2 * p) ≡ b / p % 2 * p + b % p
mod-double b p h =
    let whole : 2 * p * (b / p / 2) + (b / p % 2 * p + b % p) ≡ b =
      omega (arith, div-add-mod b p, ap (λ (t : ℕ). p * t) (div-add-mod (b / p) 2)) in
    ap (λ (t : ℕ). t % (2 * p)) (sym whole)
    ∙ mul-add-mod_self_left (2 * p) (b / p / 2) (b / p % 2 * p + b % p)
    ∙ mod-eq_of_lt (half_bits b p h)

pow_pos : (r : ℕ) → 0 < 2 ^ r
pow_pos zero = omega arith
pow_pos (suc r) = omega (arith, pow_pos r)

pow_double : (r : ℕ) → 2 ^ suc r ≡ 2 * 2 ^ r
pow_double r = omega arith

go_right-bit :
    (batch r : ℕ) → r < 32 → batch < 2 ^ 32 → go_right batch r ≡ ((batch / 2 ^ r % 2) == 1)
go_right-bit batch r lt small = rw (mod-eq_of_lt lt, mod-eq_of_lt small)

module _ (batch r : ℕ) (lt : r < 32) (small : batch < 2 ^ 32) where
  -- On the right, the batch lies behind the left half.
  pub go_right-true : go_right batch r ≡ true → batch % 2 ^ suc r ≡ 2 ^ r + batch % 2 ^ r
  go_right-true h =
      let bit : batch / 2 ^ r % 2 ≡ 1 = ground (arith, go_right-bit batch r lt small) in
      let digits =
        ap (λ (t : ℕ). batch % t) (pow_double r) ∙ mod-double batch (2 ^ r) (pow_pos r) in
      let scaled = ap (λ (t : ℕ). t * 2 ^ r) bit in omega arith

  pub go_right-false : go_right batch r ≡ false → batch % 2 ^ suc r ≡ batch % 2 ^ r
  go_right-false h =
      let bit : batch / 2 ^ r % 2 ≡ 0 = ground (arith, go_right-bit batch r lt small) in
      let digits =
        ap (λ (t : ℕ). batch % t) (pow_double r) ∙ mod-double batch (2 ^ r) (pow_pos r) in
      let scaled = ap (λ (t : ℕ). t * 2 ^ r) bit in omega arith

pub mod-lt-pow : (batch r : ℕ) → batch % 2 ^ r < 2 ^ r
mod-lt-pow batch r = mod-lt batch (pow_pos r)
