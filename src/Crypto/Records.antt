-- ===== src/Crypto/Records.antt =====
-- src/crypto/cryptoToolkit.ts: record openings, their commitments and pool ids.
use Prim.Native.Nat.{bit_or}
use ocash_sdk.Prelude.{ℕ, ◌-◌, ◌^◌, Bool, List, [], ◌∷◌, Option, none, some, if◌then◌else◌}
use ocash_sdk.Prelude.Int.{ℤ, pos, negsuc}
use ocash_sdk.Crypto.Poseidon2.{hash_sequence_with_domain, record_domain, policy_domain}

-- A point of BabyJubjub.
pub record Point : Type 0 where
  pub x : ℤ
  pub y : ℤ

-- `CommitmentData` (types.ts).
pub record RecordOpening : Type 0 where
  pub asset_id : ℤ
  pub asset_amount : ℤ
  pub user_pk : Point
  pub blinding_factor : ℤ
  pub is_frozen : Bool

abbrev pub elements : RecordOpening → ℤ → List ℤ
elements ro amount = ro.user_pk.x ∷ ro.user_pk.y ∷ ro.blinding_factor ∷ ro.asset_id ∷ amount ∷ []

-- `amount |= 1n << 128n`. On a negative integer `|` acts on its two's complement: -(n + 1) keeps the
-- bits of n outside bit 128.
abbrev pub set_frozen_bit : ℤ → ℤ
set_frozen_bit (pos n) = pos (bit_or n (2 ^ 128))
set_frozen_bit (negsuc n) = negsuc (bit_or n (2 ^ 128) - 2 ^ 128)

unfoldable pub commitment : RecordOpening → Option ℕ
commitment ro =
    let amount = if ro.is_frozen then set_frozen_bit ro.asset_amount else ro.asset_amount in
    hash_sequence_with_domain (elements ro amount) record_domain none

unfoldable pub pool_id : ℤ → Point → Point → Option ℕ
pool_id token viewer_pk freezer_pk =
    hash_sequence_with_domain (viewer_pk.x ∷ viewer_pk.y ∷ freezer_pk.x ∷ freezer_pk.y ∷ [])
      policy_domain (some token)
