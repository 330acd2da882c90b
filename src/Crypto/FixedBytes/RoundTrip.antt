-- ===== src/Crypto/FixedBytes/RoundTrip.antt =====
-- Bytes to a number and back.
use ocash_sdk.Prelude.{
  ℕ, ◌+◌, ◌*◌, ◌/◌, ◌%◌, ◌^◌, ◌<◌, ◌≡◌, refl, ap, ◌∙◌, List, [], ◌∷◌, length, arith, All,
}
use native.Mathlib.Nat
use ocash_sdk.Prelude.Int.{pos}
use ocash_sdk.Crypto.FixedBytes.{
  low_byte, shift_byte, big_int_to_fixed_bytes, fixed_bytes_from, fixed_bytes_to_big_int,
}
use ocash_sdk.Crypto.FixedBytes.Values.{from_bytes}

abbrev pub IsByte : ℕ → Type 0
IsByte b = b < 256

-- What little-endian bytes stand for.
abbrev value : List ℕ → ℕ
value [] = 0
value (b ∷ bytes) = b + 256 * value bytes

from-value :
    (bytes : List ℕ) (shift result : ℕ)
    → fixed_bytes_from bytes (length bytes) shift result ≡ result + value bytes * shift
unfolding fixed_bytes_from
from-value [] shift result = omega arith
from-value (b ∷ bytes) shift result =
    from-value bytes (shift * 256) (result + b * shift) ∙ omega arith

bytes-value :
    (bytes : List ℕ)
    → All IsByte bytes
    → big_int_to_fixed_bytes (pos (value bytes)) (length bytes) ≡ bytes
unfolding big_int_to_fixed_bytes low_byte shift_byte
bytes-value [] h = refl
bytes-value (b ∷ bytes) (hb, h) =
    let low : (b + 256 * value bytes) % 256 ≡ b = omega arith in
    let high : (b + 256 * value bytes) / 256 ≡ value bytes = omega arith in
    rw (low, high, bytes-value bytes h) refl

-- The bytes of the number that bytes stand for are those bytes.
pub big_int_to_fixed_bytes-fixed_bytes_to_big_int :
    (bytes : List ℕ) (k : ℕ)
    → All IsByte bytes
    → length bytes ≡ k
    → big_int_to_fixed_bytes (pos (fixed_bytes_to_big_int bytes k)) k ≡ bytes
big_int_to_fixed_bytes-fixed_bytes_to_big_int bytes k h e = rw (← e) (
    ap (λ (n : ℕ). big_int_to_fixed_bytes (pos n) (length bytes))
      (from-value bytes 1 0 ∙ omega arith)
    ∙ bytes-value bytes h)

-- The number that the bytes of a number stand for is that number, where it fits them.
pub fixed_bytes_to_big_int-big_int_to_fixed_bytes :
    (n k : ℕ) → n < 256 ^ k → fixed_bytes_to_big_int (big_int_to_fixed_bytes (pos n) k) k ≡ n
fixed_bytes_to_big_int-big_int_to_fixed_bytes n k h =
    from_bytes n k 1 0 ∙ omega (arith, Nat.mod-eq_of_lt h)
