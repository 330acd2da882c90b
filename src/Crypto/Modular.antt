-- ===== src/Crypto/Modular.antt =====
-- src/crypto/babyJubjub.ts: arithmetic modulo a number (`modInverse`, `extgcd`, `modPow`, `legendre`,
-- `modSqrt`, `tonelliShanks`). The modulus is positive, as in every call.
pub mod Laws
pub mod Inverse
pub mod Power
pub mod Roots
use ocash_sdk.Prelude.{
  ℕ, zero, suc, ◌+◌, ◌-◌, ◌*◌, ◌/◌, ◌%◌, Bool, true, false, ◌&&◌, not, ◌==◌, ltb, Option, none,
  some, if◌then◌else◌,
}
use ocash_sdk.Prelude.Int.{ℤ, pos, negsuc, ◌-ℤ◌, ◌*ℤ◌, eqb_ℤ}
use ocash_sdk.Prelude.Results.{Result, ok, err}

-- What the curve's code throws.
pub data CurveError : Type 0 where
  no_inverse not_on_curve no_square_root : CurveError
  wrong_length : CurveError
  decompression_failed : CurveError → CurveError

-- `((a % m) + m) % m`, where `%` takes the sign of the dividend.
unfoldable pub residue : ℤ → ℕ → ℕ
residue (pos n) m = (n % m + m) % m
residue (negsuc n) m = (m - suc n % m) % m

-- `const x = y1 - (b / a) * x1; const y = x1`.
unfoldable pub ext_gcd_step : ℕ → ℕ → ℕ × ℤ × ℤ → ℕ × ℤ × ℤ
ext_gcd_step a b (gcd, x1, y1) = (gcd, y1 -ℤ pos (b / a) *ℤ x1, x1)

-- The first argument falls with each call, so it is enough fuel.
unfoldable pub ext_gcd : ℕ → ℕ → ℕ → ℕ × ℤ × ℤ
ext_gcd fuel zero b = (b, pos 0, pos 1)
ext_gcd zero (suc a) b = (b, pos 0, pos 1)
ext_gcd (suc fuel) (suc a) b = ext_gcd_step (suc a) b (ext_gcd fuel (b % suc a) (suc a))

abbrev pub inverse_of : ℕ × ℤ × ℤ → ℕ → Result CurveError ℕ
inverse_of (gcd, x, y) m = if gcd == 1 then ok (residue x m) else err no_inverse

-- `if (a < 0n) a = ((a % m) + m) % m`.
unfoldable pub reduced : ℤ → ℕ → ℕ
reduced (pos a) m = a
reduced (negsuc a) m = residue (negsuc a) m

unfoldable pub mod_inverse : ℤ → ℕ → Result CurveError ℕ
mod_inverse a m = let n = reduced a m in inverse_of (ext_gcd n n m) m

-- The `while (e > 0n)`, which halves `e`.
unfoldable pub mod_pow_loop : ℕ → ℕ → ℕ → ℕ → ℕ → ℕ
mod_pow_loop zero result b e modulus = result
mod_pow_loop (suc fuel) result b e modulus = elim (ltb 0 e) [
  | false ↦ result
  | true ↦
      mod_pow_loop fuel (if e % 2 == 1 then result * b % modulus else result) (b * b % modulus)
        (e / 2) modulus
]

unfoldable pub mod_pow : ℕ → ℕ → ℕ → ℕ
mod_pow base exponent modulus =
    if modulus == 1 then 0 else mod_pow_loop exponent 1 (base % modulus) exponent modulus

unfoldable pub legendre : ℕ → ℕ → ℤ
legendre a p =
    let result = mod_pow a ((p - 1) / 2) p in if result == p - 1 then negsuc 0 else pos result

-- `while (Q % 2n === 0n)`; `Q` is not zero and halves, so it is enough fuel.
unfoldable pub split_twos : ℕ → ℕ → ℕ → ℕ × ℕ
split_twos zero q s = (q, s)
split_twos (suc fuel) q s = elim (q % 2 == 0) [
  | true ↦ split_twos fuel (q / 2) (s + 1)
  | false ↦ (q, s)
]

-- `while (legendre(z, p) !== -1n) z++`; none where the fuel runs out.
unfoldable pub find_nonresidue : ℕ → ℕ → ℕ → Option ℕ
find_nonresidue zero z p = none
find_nonresidue (suc fuel) z p = elim (eqb_ℤ (legendre z p) (negsuc 0)) [
  | true ↦ some z
  | false ↦ find_nonresidue fuel (z + 1) p
]

-- `while (temp !== 1n && i < M)`; `i` rises to `M`, so `M` is enough fuel.
unfoldable pub order_loop : ℕ → ℕ → ℕ → ℕ → ℕ → ℕ
order_loop zero i temp m p = i
order_loop (suc fuel) i temp m p = elim (not (temp == 1) && ltb i m) [
  | true ↦ order_loop fuel (i + 1) (temp * temp % p) m p
  | false ↦ i
]

abbrev pub least_exponent : ℕ → ℕ → ℕ → ℕ
least_exponent t m p = order_loop m 1 (t * t % p) m p

-- `b`. Where `i` is `M` the exponent is -1, for which `modPow` gives 1, as it does for 0.
abbrev pub root_factor : ℕ → ℕ → ℕ → ℕ → ℕ
root_factor m i c p = mod_pow c (mod_pow 2 (m - i - 1) (p - 1)) p

-- The `while (t !== 1n)`; none where the fuel runs out.
unfoldable pub roots_loop : ℕ → ℕ → ℕ → ℕ → ℕ → ℕ → Option ℕ
roots_loop zero m c t r p = none
roots_loop (suc fuel) m c t r p = elim (t == 1) [
  | true ↦ some r
  | false ↦
      let i = least_exponent t m p in
      let b = root_factor m i c p in
      let c2 = b * b % p in roots_loop fuel i c2 (t * c2 % p) (r * b % p) p
]

abbrev pub roots_from : Option ℕ → ℕ → ℕ → ℕ → ℕ → Option ℕ
roots_from none n q s p = none
roots_from (some z) n q s p =
    roots_loop (suc s) s (mod_pow z q p) (mod_pow n q p) (mod_pow n ((q + 1) / 2) p) p

abbrev pub shanks_with : ℕ × ℕ → ℕ → ℕ → Option ℕ
shanks_with (q, s) n p = elim (s == 1) [
  | true ↦ some (mod_pow n ((p + 1) / 4) p)
  | false ↦ roots_from (find_nonresidue p 2 p) n q s p
]

unfoldable pub tonelli_shanks : ℕ → ℕ → Option ℕ
tonelli_shanks n p = shanks_with (split_twos p (p - 1) 0) n p

abbrev pub root_found : Option ℕ → Option (Option ℕ)
root_found none = none
root_found (some r) = some (some r)

-- `none` where the search for a root does not end, `some none` for `null`.
unfoldable pub mod_sqrt : ℕ → ℕ → Option (Option ℕ)
mod_sqrt n p = elim (n == 0) [
  | true ↦ some (some 0)
  | false ↦ elim (not (eqb_ℤ (legendre n p) (pos 1))) [
    | true ↦ some none
    | false ↦ elim (p % 4 == 3) [
      | true ↦ some (some (mod_pow n ((p + 1) / 4) p))
      | false ↦ root_found (tonelli_shanks n p)
    ]
  ]
]
