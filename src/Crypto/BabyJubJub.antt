-- ===== src/Crypto/BabyJubJub.antt =====
-- src/crypto/babyJubjub.ts: the curve, its points and keys. Coordinates and scalars are the bigints
-- that are not negative, as in every call; sha256 is a parameter.
pub mod Addition
pub mod Multiples
pub mod Compression
use ocash_sdk.Prelude.{
  ℕ, zero, suc, ◌+◌, ◌-◌, ◌*◌, ◌/◌, ◌%◌, Bool, true, false, ◌&&◌, not, ◌==◌, ltb, leb, List, [],
  ◌∷◌, length, Option, none, some, if◌then◌else◌,
}
use ocash_sdk.Prelude.Int.{ℤ, pos, negsuc, sub_ℕ}
use ocash_sdk.Prelude.Results.{Result, ok, err, ◌>>=◌}
use ocash_sdk.Crypto.Poseidon2.{bn254_field_modulus}
use ocash_sdk.Crypto.Modular.{
  CurveError, not_on_curve, no_square_root, wrong_length, decompression_failed, mod_inverse,
  mod_sqrt,
}
use ocash_sdk.Crypto.FixedBytes.{
  big_int_to_fixed_bytes, fixed_bytes_to_big_int, bytes_larger, byte_at,
}

abbrev pub babyjubjub_scalar_field : ℕ
babyjubjub_scalar_field = bn254_field_modulus

abbrev pub babyjubjub_order : ℕ
babyjubjub_order = 2736030358979909402780800718157159386076813972158567259200215660948447373041

abbrev pub babyjubjub_cofactor : ℕ
babyjubjub_cofactor = 8

pub record CurvePoint : Type 0 where
  pub x : ℕ
  pub y : ℕ

abbrev pub babyjubjub_base_point : CurvePoint
babyjubjub_base_point = record {
  x = 9671717474070082183213120605117400219616337014328744928644933853176787189663;
  y = 16950150798460657717958625567821834550301663161624707787222815936182638968203;
}

abbrev pub babyjubjub_a : ℕ
babyjubjub_a = babyjubjub_scalar_field - 1

abbrev pub babyjubjub_d : ℕ
babyjubjub_d = 12181644023421730124874158521699555681764249180949974110617291017600649128846

abbrev pub identity : CurvePoint
identity = record { x = 0; y = 1 }

abbrev pub is_identity : CurvePoint → Bool
is_identity point = (point.x == 0) && (point.y == 1)

-- The two quotients of the sum, over the coordinates; `y1 - ...` gets `p` added before the subtraction.
unfoldable pub edwards_sum : ℕ → ℕ → ℕ → CurvePoint → CurvePoint → Result CurveError CurvePoint
edwards_sum p a d p1 p2 =
    let beta = p1.x * p2.y % p in
    let gamma = p1.y * p2.x % p in
    let delta = (p1.y + p - a * p1.x % p) % p * ((p2.x + p2.y) % p) % p in
    let tau = beta * gamma % p in
    let dtau = d * tau % p in
    mod_inverse (pos ((1 + dtau) % p)) p >>= λ inverse_x.
    mod_inverse (pos ((1 + p - dtau) % p)) p >>= λ inverse_y. ok (record {
      x = (beta + gamma) % p * inverse_x % p;
      y = (delta + a * beta % p + p - gamma) % p * inverse_y % p;
    })

unfoldable pub point_add : CurvePoint → CurvePoint → Result CurveError CurvePoint
point_add p1 p2 =
    if is_identity p1
    then ok p2
    else if is_identity p2
    then ok p1
    else edwards_sum babyjubjub_scalar_field babyjubjub_a babyjubjub_d p1 p2

-- The `while (rem > 0n)`, which halves `rem`; the base is doubled in the last round too.
unfoldable pub multiples_loop : ℕ → CurvePoint → CurvePoint → ℕ → Result CurveError CurvePoint
multiples_loop zero result base rem = ok result
multiples_loop (suc fuel) result base rem = elim (ltb 0 rem) [
  | false ↦ ok result
  | true ↦ (if rem % 2 == 1 then point_add result base else ok result) >>= λ next.
      point_add base base >>= λ double. multiples_loop fuel next double (rem / 2)
]

unfoldable pub mul_point : CurvePoint → ℕ → Result CurveError CurvePoint
mul_point base scalar =
    if scalar == 0 then ok identity else multiples_loop scalar identity base scalar

unfoldable pub scalar_mult : ℕ → Result CurveError CurvePoint
scalar_mult scalar =
    if scalar == 0 then ok identity else multiples_loop scalar identity babyjubjub_base_point scalar

unfoldable pub is_point_on_curve : CurvePoint → Bool
is_point_on_curve point =
    let p = babyjubjub_scalar_field in
    let x2 = point.x * point.x % p in
    let y2 = point.y * point.y % p in
    (babyjubjub_a * x2 + y2) % p == (1 + babyjubjub_d * x2 * y2 % p) % p

pub record UserKeyPair : Type 0 where
  pub user_address : CurvePoint
  pub address_sk : ℕ

abbrev pub keys_of : ℕ → Result CurveError CurvePoint → Result CurveError UserKeyPair
keys_of address_sk public_key =
    public_key >>= λ point. ok (record { user_address = point; address_sk = address_sk })

-- `sha256` gives the digest as a number.
unfoldable pub create_key_pair_from_seed :
    (sha256 : List ℕ → ℕ) → List ℕ → Result CurveError UserKeyPair
create_key_pair_from_seed sha256 seed =
    let address_sk = sha256 seed % babyjubjub_order in keys_of address_sk (scalar_mult address_sk)

abbrev pub same_point : CurvePoint → CurvePoint → Bool
same_point p q = (p.x == q.x) && (p.y == q.y)

abbrev pub key_matches : Result CurveError CurvePoint → CurvePoint → Bool
key_matches (err e) actual = false
key_matches (ok public_key) actual = same_point public_key actual && is_point_on_curve actual

-- The `catch` returns false.
unfoldable pub validate_key_pair : UserKeyPair → Bool
validate_key_pair pair = key_matches (scalar_mult pair.address_sk) pair.user_address

unfoldable pub is_in_prime_subgroup : CurvePoint → Result CurveError Bool
is_in_prime_subgroup point =
    if not (is_point_on_curve point)
    then ok false
    else mul_point point babyjubjub_cofactor >>= λ cofactor_point.
        ok (not (is_identity cofactor_point))

-- `(p - x) % p`, which is negative where `x` is above `p`.
unfoldable pub negated : ℕ → ℤ
negated x =
    let p = babyjubjub_scalar_field in if leb x p then pos ((p - x) % p) else sub_ℕ 0 ((x - p) % p)

unfoldable pub is_lexicographically_largest : ℕ → Bool
is_lexicographically_largest x =
    bytes_larger 32 (big_int_to_fixed_bytes (pos x) 32) (big_int_to_fixed_bytes (negated x) 32)

abbrev pub change_byte : (ℕ → ℕ) → ℕ → List ℕ → List ℕ
change_byte f i [] = []
change_byte f zero (b ∷ bytes) = f b ∷ bytes
change_byte f (suc i) (b ∷ bytes) = b ∷ change_byte f i bytes

-- `b | 0x80` and `b & 0x7f` on a byte.
abbrev pub set_sign_bit : ℕ → ℕ
set_sign_bit b = b % 128 + 128

abbrev pub clear_sign_bit : ℕ → ℕ
clear_sign_bit b = b % 128

unfoldable pub compress_point : CurvePoint → Result CurveError (List ℕ)
compress_point point =
    if not (is_point_on_curve point)
    then err not_on_curve
    else (let compressed = big_int_to_fixed_bytes (pos point.y) 32 in
        ok (
          if is_lexicographically_largest point.x
          then change_byte set_sign_bit 31 compressed
          else change_byte clear_sign_bit 31 compressed))

-- `isLexicographicallyLargest(x) === isXLexLargest ? x : (p - x) % p`, of a root below `p`.
abbrev pub choose_root : Bool → ℕ → ℕ
choose_root true x =
    if is_lexicographically_largest x
    then x
    else (babyjubjub_scalar_field - x) % babyjubjub_scalar_field
choose_root false x =
    if is_lexicographically_largest x
    then (babyjubjub_scalar_field - x) % babyjubjub_scalar_field
    else x

-- The root that was found; none where the search for it does not end.
abbrev pub with_root : Option (Option ℕ) → Bool → Option (Result CurveError ℕ)
with_root none largest = none
with_root (some none) largest = some (err no_square_root)
with_root (some (some x)) largest = some (ok (choose_root largest x))

abbrev pub x_from_inverse : ℕ → ℕ → Bool → Result CurveError ℕ → Option (Result CurveError ℕ)
x_from_inverse p numerator largest (err e) = some (err e)
x_from_inverse p numerator largest (ok inverse) =
    with_root (mod_sqrt (numerator * inverse % p) p) largest

unfoldable pub recover_x_coordinate : ℕ → Bool → Option (Result CurveError ℕ)
recover_x_coordinate y largest =
    let p = babyjubjub_scalar_field in
    let y2 = y * y % p in
    let numerator = (1 + p - y2) % p in
    let denominator = (babyjubjub_a + p - babyjubjub_d * y2 % p) % p in
    x_from_inverse p numerator largest (mod_inverse (pos denominator) p)

-- The checks after the recovery; what is thrown there is caught and thrown again with another message.
abbrev pub recovered : ℕ → Option (Result CurveError ℕ) → Option (Result CurveError CurvePoint)
recovered y none = none
recovered y (some (err e)) = some (err (decompression_failed e))
recovered y (some (ok x)) = some (
    if is_point_on_curve (record { x = x; y = y })
    then ok (record { x = x; y = y })
    else err (decompression_failed not_on_curve))

unfoldable pub decompress_point : List ℕ → Option (Result CurveError CurvePoint)
decompress_point compressed =
    if not (length compressed == 32)
    then some (err wrong_length)
    else (let largest = leb 128 (byte_at compressed 31) in
        let y = fixed_bytes_to_big_int (change_byte clear_sign_bit 31 compressed) 32 in
        recovered y (recover_x_coordinate y largest))
