-- ===== src/Crypto/FixedBytes.antt =====
-- src/crypto/babyJubjub.ts: `bigIntToFixedBytes`, `fixedBytesToBigInt` and the comparison of bytes in
-- `isLexicographicallyLargest`. A Uint8Array is the list of its bytes.
pub mod Values
pub mod RoundTrip
use ocash_sdk.Prelude.{
  ℕ, zero, suc, ◌+◌, ◌-◌, ◌*◌, ◌/◌, ◌%◌, ◌^◌, Bool, true, false, ltb, List, [], ◌∷◌, Option, none,
  some, get_elem?,
}
use ocash_sdk.Prelude.Int.{ℤ, pos, negsuc}

-- `Number(val & 0xffn)`: a negative number is read in two's complement.
unfoldable pub low_byte : ℤ → ℕ
low_byte (pos n) = n % 256
low_byte (negsuc n) = 255 - n % 256

-- `val >>= 8n`, which rounds down.
unfoldable pub shift_byte : ℤ → ℤ
shift_byte (pos n) = pos (n / 256)
shift_byte (negsuc n) = negsuc (n / 256)

unfoldable pub big_int_to_fixed_bytes : ℤ → ℕ → List ℕ
big_int_to_fixed_bytes value zero = []
big_int_to_fixed_bytes value (suc byte_length) =
    low_byte value ∷ big_int_to_fixed_bytes (shift_byte value) byte_length

abbrev pub byte_or_zero : Option ℕ → ℕ
byte_or_zero none = 0
byte_or_zero (some b) = b

abbrev pub byte_at : List ℕ → ℕ → ℕ
byte_at bytes i = byte_or_zero (get_elem? bytes i)

-- `result |= BigInt(bytes[i]) << (BigInt(i) * 8n)`; the bits of the bytes are apart, so `|` adds them.
-- `shift` is the power of two that the byte is shifted by.
unfoldable pub fixed_bytes_from : List ℕ → ℕ → ℕ → ℕ → ℕ
fixed_bytes_from [] byte_length shift result = result
fixed_bytes_from (b ∷ bytes) zero shift result = result
fixed_bytes_from (b ∷ bytes) (suc byte_length) shift result =
    fixed_bytes_from bytes byte_length (shift * 256) (result + b * shift)

abbrev pub fixed_bytes_to_big_int : List ℕ → ℕ → ℕ
fixed_bytes_to_big_int bytes byte_length = fixed_bytes_from bytes byte_length 1 0

-- The `for` from the last byte down to the first; `i` bytes are left.
unfoldable pub bytes_larger : ℕ → List ℕ → List ℕ → Bool
bytes_larger zero xs ys = false
bytes_larger (suc i) xs ys = elim (ltb (byte_at ys i) (byte_at xs i)) [
  | true ↦ true
  | false ↦ elim (ltb (byte_at xs i) (byte_at ys i)) [ true ↦ false | false ↦ bytes_larger i xs ys ]
]
