-- ===== src/Crypto/Nullifiers.antt =====
-- src/crypto/cryptoToolkit.ts `nullifier` and src/memo/memoKit.ts `decodeMemoForOwner`. The curve
-- (crypto/babyJubjub.ts), the record codec, the decryption and viem's hex are the functions of `Curve`
-- and `Codec`.
use Prim.Native.String.{String}
use text.Mathlib.Text.{◌==◌ as str_eq}
use ocash_sdk.Prelude.{ℕ, Bool, true, false, ◌&&◌, Option, none, some, if◌then◌else◌}
use ocash_sdk.Prelude.Int.{ℤ, pos, eqb_ℤ}
use ocash_sdk.Crypto.Poseidon2.{hash_domain, key_derivation_domain, nullifier_domain}
use ocash_sdk.Crypto.Records.{Point, RecordOpening}

pub record Curve : Type 0 where
  pub is_on_curve : Point → Bool
  pub mul_point : Point → ℤ → Point

-- `to_hex` is `toHex(n, { size: 32 })`; `parse` is `BigInt` of a string, none where it throws.
pub record Codec : Type 0 where
  pub to_hex : ℕ → String
  pub parse : String → Option ℤ
  pub to_lower : String → String
  -- `MemoKit.decryptMemo`: none where it throws, on a memo that is not hex or whose point does not
  -- decompress, and `some none` for null
  pub decrypt_memo : ℤ → String → Option (Option RecordOpening)
  -- `RecordCodec.decode`, none where it throws
  pub decode_record : String → Option RecordOpening
  -- `KeyManager.userPkToAddress`, none where it throws
  pub user_pk_to_address : Point → Option String

-- `!freezerPk || (freezerPk[0] === 0n && freezerPk[1] === 1n)`.
abbrev pub is_default_freezer : Option Point → Bool
is_default_freezer none = true
is_default_freezer (some pk) = eqb_ℤ pk.x (pos 0) && eqb_ℤ pk.y (pos 1)

abbrev pub shared_key : Curve → Point → ℤ → Option ℤ
shared_key c pk secret_key =
    let shared = c.mul_point pk secret_key in
    let key = hash_domain shared.x shared.y key_derivation_domain in
    if c.is_on_curve pk then some (pos key) else none

abbrev pub nullifier_key : Curve → ℤ → Option Point → Option ℤ
nullifier_key c secret_key none = some secret_key
nullifier_key c secret_key (some pk) =
    let shared = shared_key c pk secret_key in
    if is_default_freezer (some pk) then some secret_key else shared

abbrev pub nullifier_hash : Codec → Option ℤ → Option ℤ → Option String
nullifier_hash k (some key) (some commitment) =
    some (k.to_hex (hash_domain key commitment nullifier_domain))
nullifier_hash k none commitment = none
nullifier_hash k (some key) none = none

-- None where it throws: the freezer's key is not on the curve.
unfoldable pub nullifier : Curve → Codec → ℤ → String → Option Point → Option String
nullifier c k secret_key commitment freezer_pk =
    nullifier_hash k (nullifier_key c secret_key freezer_pk) (k.parse commitment)

abbrev pub same_address : Codec → String → Option String → Bool
same_address k expected none = false
same_address k expected (some decoded) = str_eq (k.to_lower decoded) (k.to_lower expected)

-- `tryTransparent`.
abbrev pub checked_address : Codec → String → Option RecordOpening → Option RecordOpening
checked_address k expected none = none
checked_address k expected (some ro) =
    if same_address k expected (k.user_pk_to_address ro.user_pk) then some ro else none

abbrev pub try_transparent : Codec → String → String → Option RecordOpening
try_transparent k memo expected = checked_address k expected (k.decode_record memo)

abbrev pub or_transparent :
    Option (Option RecordOpening) → Option RecordOpening → Option (Option RecordOpening)
or_transparent none transparent = none
or_transparent (some none) transparent = some transparent
or_transparent (some (some ro)) transparent = some (some ro)

-- None where it throws. The callers always give an expected address.
unfoldable pub decode_memo_for_owner :
    Codec → ℤ → String → String → Bool → Option (Option RecordOpening)
decode_memo_for_owner k secret_key memo expected is_transparent =
    if is_transparent
    then some (try_transparent k memo expected)
    else or_transparent (k.decrypt_memo secret_key memo) (try_transparent k memo expected)
