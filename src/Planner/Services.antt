-- ===== src/Planner/Services.antt =====
-- What the planner asks of the other components (`AssetsApi`, `WalletService`, `KeyManager`,
-- `MemoKit`, the wasm `ProofBridge`, the relayer over HTTP): the constructor's parameters and the
-- static helpers, as functions. `refused` carries the message of an error that one of them throws.
use Prim.Native.String.{String}
use text.Mathlib.Text.{◌==◌ as str_eq}
use ocash_sdk.Prelude.{ℕ, ◌==◌, not, List, [], ◌∷◌, Option, none, some, if◌then◌else◌}
use ocash_sdk.Prelude.Int.{ℤ, pos}
use ocash_sdk.Prelude.Results.{Result, ok, ◌>>=◌, ◌>>◌, throw_if}
use ocash_sdk.Crypto.Records.{Point, RecordOpening}
use ocash_sdk.Types.{UtxoRecord}
use ocash_sdk.Planner.Fees.{Action, transfer, withdraw}

-- The errors that planner.ts throws, by message.
pub data PlanError : Type 0 where
  token_not_found chain_id_mismatch amount_too_small insufficient_balance : PlanError
  insufficient_for_merge insufficient_for_merge_fee no_covering_utxo opening_failed : PlanError
  refused : String → PlanError

-- `TokenMetadata` (types.ts); `id` is the number that `BigInt(token.id)` reads.
pub record TokenMetadata : Type 0 where
  pub id : ℤ
  pub withdraw_fee_bps : Option ℤ

-- A fee table maps a token's key to its `fee`, if the entry has one.
abbrev pub FeeTable : Type 0
FeeTable = List (String × Option ℤ)

pub record RelayerConfig : Type 0 where
  pub chain_id : ℕ
  pub relayer_address : String
  pub transfer_fees : Option FeeTable
  pub withdraw_fees : Option FeeTable

pub record Services : Type 0 where
  pub get_pool_info : ℕ → String → Option TokenMetadata
  pub chain_relayer_url : ℕ → Result PlanError (Option String)
  pub cached_relayer_config : ℕ → Option RelayerConfig
  pub sync_relayer_config : ℕ → Result PlanError RelayerConfig
  pub fetch_relayer_config : String → Result PlanError RelayerConfig
  -- viem's `toHex(BigInt(token.id), { size: 32 }).toLowerCase()`.
  pub token_fee_key : TokenMetadata → String
  pub get_viewing_address : Result PlanError String
  pub address_to_user_pk : String → Result PlanError Point
  -- `wallet.getUtxos` with `includeSpent: false, includeFrozen: false`.
  pub get_utxos : ℕ → String → Result PlanError (List UtxoRecord)
  -- The blinding factors drawn for the opening of an output.
  pub blinding_draws : ℕ → List ℤ
  pub dummy_record_opening : ℕ → Result PlanError RecordOpening
  pub create_memo : RecordOpening → Result PlanError String
  pub transfer_proof_binding : String → List String → Result PlanError ℤ
  pub withdraw_proof_binding : String → ℤ → String → ℤ → ℤ → String → Result PlanError ℤ

-- `table?.[key]?.fee`.
abbrev pub fee_entry : String → FeeTable → Option ℤ
fee_entry key [] = none
fee_entry key ((k, fee) ∷ table) = if str_eq key k then fee else fee_entry key table

abbrev pub fee_or_zero : Option ℤ → ℤ
fee_or_zero none = pos 0
fee_or_zero (some fee) = fee

abbrev pub table_fee : String → Option FeeTable → ℤ
table_fee key none = pos 0
table_fee key (some table) = fee_or_zero (fee_entry key table)

module _ (s : Services) where
  unfoldable pub get_relayer_fee : RelayerConfig → TokenMetadata → Action → ℤ
  get_relayer_fee config token transfer = table_fee (s.token_fee_key token) config.transfer_fees
  get_relayer_fee config token withdraw = table_fee (s.token_fee_key token) config.withdraw_fees

  abbrev pub cached_or_synced : ℕ → Option RelayerConfig → Result PlanError RelayerConfig
  cached_or_synced chain_id (some config) = ok config
  cached_or_synced chain_id none = s.sync_relayer_config chain_id

  -- `if (relayerUrlOverride)`: the empty text counts as none.
  unfoldable pub get_relayer_config : ℕ → Option String → Result PlanError RelayerConfig
  get_relayer_config chain_id none = cached_or_synced chain_id (s.cached_relayer_config chain_id)
  get_relayer_config chain_id (some url) =
      if str_eq url "" then cached_or_synced chain_id (s.cached_relayer_config chain_id) else do
        config ← s.fetch_relayer_config url
        throw_if (not (config.chain_id == chain_id)) chain_id_mismatch
        ok config
