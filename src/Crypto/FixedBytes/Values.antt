-- ===== src/Crypto/FixedBytes/Values.antt =====
-- Bytes of a number, the number that they stand for, and their order.
use ocash_sdk.Prelude.{
  ℕ, zero, suc, ◌+◌, ◌*◌, ◌/◌, ◌%◌, ◌^◌, ◌≤◌, ◌<◌, ◌≡◌, sym, ap, ◌∙◌, true, ltb, List, arith,
  Bool-cases, inl, inr, lt→ltb, le→ltb, ltb→lt,
}
use native.Mathlib.Nat
use ocash_sdk.Prelude.Int.{pos}
use ocash_sdk.Crypto.FixedBytes.{
  low_byte, shift_byte, big_int_to_fixed_bytes, byte_at, fixed_bytes_from, bytes_larger,
}

-- The lower digits and the next ones of a number, with `a` values of the lower digits.
split_digits : (n a k : ℕ) → 0 < a → 0 < k → n % a + a * (n / a % k) ≡ n % (a * k)
split_digits n a k ha hk =
    let q = n / a in
    let below : n % a + a * (q % k) < a * k =
      omega (
        arith,
        Nat.mod-lt n ha,
        Nat.mul-le-mul_left {m = suc (q % k)} {n = k} a (Nat.mod-lt q hk),
      ) in
    let whole : n % a + a * (q % k) + a * k * (q / k) ≡ n =
      omega (arith, Nat.div-add-mod n a, ap (λ (j : ℕ). a * j) (Nat.div-add-mod q k)) in
    sym (Nat.mod-eq_of_lt below)
    ∙ sym (Nat.add-mul-mod_self_left (n % a + a * (q % k)) (a * k) (q / k))
    ∙ ap (λ (j : ℕ). j % (a * k)) whole

pow_pos : (i : ℕ) → 0 < 256 ^ i
pow_pos i = Nat.one-le-pow i 256 (omega arith)

pow_first : (i : ℕ) → 256 * 256 ^ i ≡ 256 ^ suc i
pow_first i = sym (Nat.pow-succ' 256 i)

pub from_bytes :
    (n k shift result : ℕ)
    → fixed_bytes_from (big_int_to_fixed_bytes (pos n) k) k shift result
      ≡ result + n % 256 ^ k * shift
unfolding fixed_bytes_from big_int_to_fixed_bytes low_byte shift_byte
from_bytes n zero shift result = omega (arith, ap (λ (j : ℕ). j * shift) (Nat.mod-one n))
from_bytes n (suc k) shift result =
    let digits : n % 256 + 256 * (n / 256 % 256 ^ k) ≡ n % 256 ^ suc k =
      split_digits n 256 (256 ^ k) (omega arith) (pow_pos k)
      ∙ ap (λ (j : ℕ). n % j) (pow_first k) in
    from_bytes (n / 256) k (shift * 256) (result + n % 256 * shift)
    ∙ omega (arith, ap (λ (j : ℕ). j * shift) digits)

byte_at_bytes :
    (n k i : ℕ) → i < k → byte_at (big_int_to_fixed_bytes (pos n) k) i ≡ n / 256 ^ i % 256
unfolding big_int_to_fixed_bytes low_byte shift_byte
byte_at_bytes n zero i h = absurd (omega arith)
byte_at_bytes n (suc k) zero h = ap (λ (j : ℕ). j % 256) (sym (Nat.div-one n))
byte_at_bytes n (suc k) (suc i) h =
    byte_at_bytes (n / 256) k i (omega arith)
    ∙ ap (λ (j : ℕ). j % 256)
        (Nat.div-div-eq-div-mul n 256 (256 ^ i) ∙ ap (λ (j : ℕ). n / j) (pow_first i))

-- Numbers of `a` values below and a digit above are ordered by the digit first.
digit_first : (a x y d e : ℕ) → x < a → d < e → x + a * d < y + a * e
digit_first a x y d e hx h = omega (arith, Nat.mul-le-mul_left {m = suc d} {n = e} a h)

-- The bytes of two numbers are compared as the numbers are.
pub bytes_larger_lem :
    (n m k i : ℕ)
    → i ≤ k
    → bytes_larger i (big_int_to_fixed_bytes (pos n) k) (big_int_to_fixed_bytes (pos m) k)
      ≡ ltb (m % 256 ^ i) (n % 256 ^ i)
unfolding bytes_larger
bytes_larger_lem n m k zero h = sym (le→ltb _ _ (omega (arith, Nat.mod-one n, Nat.mod-one m)))
bytes_larger_lem n m k (suc i) h = elim (Bool-cases (ltb (byte_at ms i) (byte_at ns i))) [
  | inl below ↦
      rw (below, bytes_larger)
        (sym (
          lt→ltb _ _ (
            rw (← digits n, ← digits m)
              (digit_first a (m % a) (n % a) e d (Nat.mod-lt m (pow_pos i)) (e_below d_at below)))))
  | inr not_below ↦ elim (Bool-cases (ltb (byte_at ns i) (byte_at ms i))) [
    | inl above ↦
        rw (not_below, above, bytes_larger)
          (sym (
            le→ltb _ _ (
              Nat.le_of_lt (
                rw (← digits n, ← digits m)
                  (digit_first a (n % a) (m % a) d e (Nat.mod-lt n (pow_pos i))
                    (e_above d_at above))))))
    | inr not_above ↦
        rw (not_below, not_above, bytes_larger)
          (bytes_larger_lem n m k i (omega arith) ∙ same (ground arith))
  ]
]
  where
    a : ℕ
    a = 256 ^ i

    d : ℕ
    d = n / a % 256

    e : ℕ
    e = m / a % 256

    ns : List ℕ
    ns = big_int_to_fixed_bytes (pos n) k

    ms : List ℕ
    ms = big_int_to_fixed_bytes (pos m) k

    d_at : byte_at ns i ≡ d
    d_at = byte_at_bytes n k i h

    e_at : byte_at ms i ≡ e
    e_at = byte_at_bytes m k i h

    e_below : byte_at ns i ≡ d → ltb (byte_at ms i) (byte_at ns i) ≡ true → e < d
    e_below ed t = ltb→lt e d (rw (e_at, ed) at t)

    e_above : byte_at ns i ≡ d → ltb (byte_at ns i) (byte_at ms i) ≡ true → d < e
    e_above ed t = ltb→lt d e (rw (e_at, ed) at t)

    digits : (j : ℕ) → j % a + a * (j / a % 256) ≡ j % 256 ^ suc i
    digits j =
        split_digits j a 256 (pow_pos i) (omega arith)
        ∙ ap (λ (l : ℕ). j % l) (sym (Nat.pow-suc 256 i))

    same :
        byte_at ns i ≡ byte_at ms i → ltb (m % a) (n % a) ≡ ltb (m % 256 ^ suc i) (n % 256 ^ suc i)
    same eq =
        let eq' : d ≡ e = sym d_at ∙ eq ∙ e_at in rw (← digits n, ← digits m, eq') (ground arith)
