-- ===== src/Planner/Estimate.antt =====
-- src/planner/planner.ts: `Planner.estimate` and `Planner.estimateMax`.
use Prim.Native.String.{String}
use ocash_sdk.Prelude.{ℕ, Bool, true, false, Option, none, some, List}
use ocash_sdk.Prelude.Int.{ℤ, pos, ltb_ℤ, leb_ℤ}
use ocash_sdk.Prelude.Results.{Result, ok, ◌>>=◌, ◌>>◌, throw_if}
use ocash_sdk.Types.{UtxoRecord}
use ocash_sdk.Planner.Select.{select_transfer_inputs, select_withdraw_input}
use ocash_sdk.Planner.Fees.{Action, transfer, withdraw, FeeSummary, estimate_records, max_uint256}
use ocash_sdk.Planner.Services.{
  PlanError, token_not_found, amount_too_small, TokenMetadata, RelayerConfig, Services,
  get_relayer_fee, get_relayer_config,
}
use ocash_sdk.Planner.Plan.{
  required_for, sent_of, or_throw, pay_summary, most_summary, is_payable, transfer_estimates,
  withdraw_estimates, protocol_fee_of, burn_amount_of, positive_amounts, bps_of,
}

pub record TransferEstimate : Type 0 where
  pub send_amount : ℤ
  pub relayer_fee : ℤ
  pub required : ℤ
  pub selected_inputs : List UtxoRecord
  pub selected_sum : ℤ
  pub is_ok : Bool
  pub ok_with_merge : Bool
  pub fee_summary : FeeSummary
  pub max_summary : FeeSummary

pub record WithdrawEstimate : Type 0 where
  pub requested_amount : ℤ
  pub relayer_fee : ℤ
  pub protocol_fee : ℤ
  pub burn_amount : ℤ
  pub selected_input : Option UtxoRecord
  pub is_ok : Bool
  pub ok_with_merge : Bool
  pub fee_summary : FeeSummary
  pub max_summary : FeeSummary

pub data Estimate : Type 0 where
  of_transfer : TransferEstimate → Estimate
  of_withdraw : WithdrawEstimate → Estimate

pub record MaxEstimate : Type 0 where
  pub is_ok : Bool
  pub max_summary : FeeSummary

abbrev pub is_some : Option UtxoRecord → Bool
is_some none = false
is_some (some u) = true

module _ (s : Services) where
  unfoldable pub estimate_transfer :
      TokenMetadata → ℤ → ℕ → String → ℤ → Bool → Result PlanError TransferEstimate
  estimate_transfer token fee chain_id asset_id amount includes_fee = do
    let required = required_for includes_fee amount fee
    let send_amount = sent_of includes_fee amount fee
    throw_if (ltb_ℤ send_amount (pos 0)) amount_too_small
    utxos ← s.get_utxos chain_id asset_id
    let selection = select_transfer_inputs utxos required 3
    let estimates = transfer_estimates token fee amount includes_fee utxos
    ok (record {
      send_amount = send_amount;
      relayer_fee = fee;
      required = required;
      selected_inputs = selection.selected;
      selected_sum = selection.sum;
      is_ok = leb_ℤ required selection.sum;
      ok_with_merge = is_payable (pay_summary estimates);
      fee_summary = pay_summary estimates;
      max_summary = most_summary estimates;
    })

  unfoldable pub estimate_withdraw :
      TokenMetadata → RelayerConfig → ℕ → String → ℤ → Bool → Result PlanError WithdrawEstimate
  estimate_withdraw token config chain_id asset_id amount includes_fee = do
    let fee = get_relayer_fee s config token withdraw
    let burn_amount = burn_amount_of token includes_fee amount fee
    utxos ← s.get_utxos chain_id asset_id
    let chosen = select_withdraw_input utxos burn_amount
    let estimates =
        withdraw_estimates token (get_relayer_fee s config token transfer) fee amount includes_fee
          utxos
    ok (record {
      requested_amount = amount;
      relayer_fee = fee;
      protocol_fee = protocol_fee_of token includes_fee amount fee;
      burn_amount = burn_amount;
      selected_input = chosen;
      is_ok = is_some chosen;
      ok_with_merge = is_payable (pay_summary estimates);
      fee_summary = pay_summary estimates;
      max_summary = most_summary estimates;
    })

  abbrev pub estimate_action :
      TokenMetadata → RelayerConfig → ℕ → String → Action → ℤ → Bool → Result PlanError Estimate
  estimate_action token config chain_id asset_id transfer amount includes_fee = do
    let fee = get_relayer_fee s config token transfer
    e ← estimate_transfer token fee chain_id asset_id amount includes_fee
    ok (of_transfer e)
  estimate_action token config chain_id asset_id withdraw amount includes_fee = do
    e ← estimate_withdraw token config chain_id asset_id amount includes_fee
    ok (of_withdraw e)

  unfoldable pub estimate : ℕ → String → Action → ℤ → Bool → Result PlanError Estimate
  unfolding estimate_transfer estimate_withdraw
  estimate chain_id asset_id action amount includes_fee = do
    token ← or_throw (s.get_pool_info chain_id asset_id) token_not_found
    config ← get_relayer_config s chain_id none
    estimate_action token config chain_id asset_id action amount includes_fee

  unfoldable pub estimate_max : ℕ → String → Action → Bool → Result PlanError MaxEstimate
  estimate_max chain_id asset_id action includes_fee = do
    token ← or_throw (s.get_pool_info chain_id asset_id) token_not_found
    config ← get_relayer_config s chain_id none
    utxos ← s.get_utxos chain_id asset_id
    let fee = get_relayer_fee s config token action
    -- For a transfer this is `fee` again.
    let transfer_fee = get_relayer_fee s config token transfer
    let estimates =
        estimate_records (bps_of token) max_uint256 action
          (record { for_transfer = transfer_fee; for_withdraw = fee }) includes_fee
          (positive_amounts utxos)
    ok (record {
      is_ok = is_payable (most_summary estimates);
      max_summary = most_summary estimates;
    })
