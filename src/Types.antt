-- ===== src/Types.antt =====
-- src/types.ts: the records that the components exchange. A `number` that counts or indexes is a
-- native number, a `bigint` is an integer, a string is a `String`.
use Prim.Native.String.{String}
use ocash_sdk.Prelude.{ℕ, Bool, Option}
use ocash_sdk.Prelude.Int.{ℤ}

pub record UtxoRecord : Type 0 where
  pub chain_id : ℕ
  pub asset_id : String
  pub amount : ℤ
  pub commitment : String
  pub nullifier : String
  pub mk_index : ℕ
  pub is_frozen : Bool
  pub is_spent : Bool
  pub memo : Option String
  pub created_at : Option ℕ

pub record SyncCursor : Type 0 where
  pub memo : ℕ
  pub nullifier : ℕ
  pub merkle : ℕ
