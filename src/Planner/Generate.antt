-- ===== src/Planner/Generate.antt =====
-- src/planner/planner.ts: `Planner.plan`, after its input is parsed.
use Prim.Native.String.{String}
use ocash_sdk.Prelude.{
  ℕ, Bool, false, ◌||◌, not, List, Option, none, some, length, take, ltb, if◌then◌else◌,
}
use ocash_sdk.Prelude.Int.{ℤ, pos, ◌-ℤ◌, ltb_ℤ, leb_ℤ}
use ocash_sdk.Prelude.Results.{Result, ok, err, ◌>>=◌, ◌>>◌, throw_if}
use ocash_sdk.Prelude.Sorting.{sort}
use ocash_sdk.Crypto.Records.{Point}
use ocash_sdk.Types.{UtxoRecord}
use ocash_sdk.Planner.Select.{
  larger_first, select_transfer_inputs, select_withdraw_input, select_merge_inputs,
}
use ocash_sdk.Planner.Fees.{transfer, withdraw, input_number, Estimates}
use ocash_sdk.Planner.Services.{
  PlanError, token_not_found, amount_too_small, insufficient_balance, insufficient_for_merge,
  insufficient_for_merge_fee, no_covering_utxo, TokenMetadata, RelayerConfig, Services, fee_or_zero,
  get_relayer_fee, get_relayer_config,
}
use ocash_sdk.Planner.Plan.{
  total_amount, required_for, sent_of, or_throw, TransferPlan, PlanResult, transfer_plan,
  transfer_merge_plan, withdraw_plan, TransferInput, WithdrawInput, PlanInput, plan_transfer,
  plan_withdraw, pay_summary, most_summary, is_payable, TransferRequest, transfer_estimates,
  withdraw_estimates, protocol_fee_of, burn_amount_of, change_opening, build_transfer_plan,
}

-- The inputs of an automatic merge: the smallest ones, or the largest ones if these do not pay the fee.
unfoldable pub merge_inputs : List UtxoRecord → ℤ → Result PlanError (List UtxoRecord)
merge_inputs utxos fee =
    let smallest = select_merge_inputs utxos input_number in
    let largest = take input_number (sort larger_first utxos) in
    if ltb (length smallest) input_number
    then err insufficient_for_merge
    else if leb_ℤ (total_amount smallest) fee
    then (if leb_ℤ (total_amount largest) fee then err insufficient_for_merge_fee else ok largest)
    else ok smallest

-- What `plan` resolves before it branches on the action.
pub record Context : Type 0 where
  pub token : TokenMetadata
  pub config : RelayerConfig
  pub viewing_address : String
  pub owner_pk : Point

-- The argument that `plan` hands to `buildTransferPlan`.
abbrev pub request : Context → ℤ → String → ℤ → Bool → List UtxoRecord → Estimates → TransferRequest
request c amount to fee includes_fee inputs estimates = record {
  token = c.token;
  requested_amount = amount;
  to = to;
  relayer = c.config.relayer_address;
  relayer_fee = fee;
  pay_includes_fee = includes_fee;
  selected_inputs = inputs;
  owner_pk = c.owner_pk;
  fee_summary = pay_summary estimates;
  max_summary = most_summary estimates;
  ok_with_merge = is_payable (pay_summary estimates);
}

module _ (s : Services) where
  -- The merge of three inputs to the owner's own address.
  unfoldable pub build_merge_plan :
      Context → TransferInput → ℤ → List UtxoRecord → Result PlanError TransferPlan
  build_merge_plan c i fee utxos = do
    inputs ← merge_inputs utxos fee
    let merge_amount = total_amount inputs -ℤ fee
    let estimates = transfer_estimates c.token fee merge_amount false inputs
    build_transfer_plan s (request c merge_amount c.viewing_address fee false inputs estimates)

  -- The selection falls short: with `autoMerge`, three inputs are merged first.
  unfoldable pub plan_merge :
      Context → TransferInput → ℤ → List UtxoRecord → Estimates → Result PlanError PlanResult
  plan_merge c i fee utxos estimates = do
    let required = required_for i.pay_includes_fee i.amount fee
    let payable = is_payable (pay_summary estimates)
    throw_if (not payable || ltb_ℤ (total_amount utxos) required) insufficient_balance
    throw_if (not i.auto_merge) insufficient_balance
    plan ← build_merge_plan c i fee utxos
    ok (
        transfer_merge_plan (record {
          requested_amount = i.amount;
          send_amount = sent_of i.pay_includes_fee i.amount fee;
          to = i.to;
          relayer = c.config.relayer_address;
          relayer_fee = fee;
          required = required;
          ok_with_merge = payable;
          fee_summary = pay_summary estimates;
          max_summary = most_summary estimates;
          merge_plan = plan;
        }))

  -- The selection covers the amount.
  unfoldable pub plan_direct :
      Context → TransferInput → ℤ → List UtxoRecord → Estimates → Result PlanError PlanResult
  plan_direct c i fee selected estimates = do
    plan ← build_transfer_plan s (request c i.amount i.to fee i.pay_includes_fee selected estimates)
    ok (transfer_plan plan)

  unfoldable pub generate_transfer : Context → TransferInput → Result PlanError PlanResult
  generate_transfer c i = do
    let fee = get_relayer_fee s c.config c.token transfer
    let required = required_for i.pay_includes_fee i.amount fee
    throw_if (ltb_ℤ (sent_of i.pay_includes_fee i.amount fee) (pos 0)) amount_too_small
    utxos ← s.get_utxos i.chain_id i.asset_id
    let selection = select_transfer_inputs utxos required 3
    let estimates = transfer_estimates c.token fee i.amount i.pay_includes_fee utxos
    if ltb_ℤ selection.sum required
        then plan_merge c i fee utxos estimates
        else plan_direct c i fee selection.selected estimates

  unfoldable pub generate_withdraw : Context → WithdrawInput → Result PlanError PlanResult
  generate_withdraw c i = do
    let fee = get_relayer_fee s c.config c.token withdraw
    let gas_drop_value = fee_or_zero i.gas_drop_value
    let burn_amount = burn_amount_of c.token i.pay_includes_fee i.amount fee
    utxos ← s.get_utxos i.chain_id i.asset_id
    chosen ← or_throw (select_withdraw_input utxos burn_amount) no_covering_utxo
    let estimates =
        withdraw_estimates c.token (get_relayer_fee s c.config c.token transfer) fee i.amount
          i.pay_includes_fee utxos
    output ← change_opening s c.token c.owner_pk (chosen.amount -ℤ burn_amount) 0
    extra_data ← s.create_memo output
    proof_binding ←
        s.withdraw_proof_binding i.recipient i.amount c.config.relayer_address fee gas_drop_value
          extra_data
    ok (
        withdraw_plan (record {
          requested_amount = i.amount;
          relayer = c.config.relayer_address;
          relayer_fee = fee;
          protocol_fee = protocol_fee_of c.token i.pay_includes_fee i.amount fee;
          burn_amount = burn_amount;
          gas_drop_value = gas_drop_value;
          ok_with_merge = is_payable (pay_summary estimates);
          fee_summary = pay_summary estimates;
          max_summary = most_summary estimates;
          selected_input = chosen;
          output_record_opening = output;
          extra_data = extra_data;
          proof_binding = proof_binding;
          recipient = i.recipient;
        }))

  -- `parsed.relayerUrl ?? this.assets.getChain(…).relayerUrl`: only its error matters here.
  abbrev pub resolve_relayer_url : ℕ → Option String → Result PlanError (Option String)
  resolve_relayer_url chain_id (some url) = ok (some url)
  resolve_relayer_url chain_id none = s.chain_relayer_url chain_id

  abbrev pub resolve : ℕ → String → Option String → Result PlanError Context
  resolve chain_id asset_id relayer_url = do
    token ← or_throw (s.get_pool_info chain_id asset_id) token_not_found
    config ← get_relayer_config s chain_id relayer_url
    url ← resolve_relayer_url chain_id relayer_url
    viewing_address ← s.get_viewing_address
    owner_pk ← s.address_to_user_pk viewing_address
    ok (record {
      token = token;
      config = config;
      viewing_address = viewing_address;
      owner_pk = owner_pk;
    })

  unfoldable pub plan : PlanInput → Result PlanError PlanResult
  unfolding generate_transfer generate_withdraw
  plan (plan_transfer i) = do c ← resolve i.chain_id i.asset_id i.relayer_url; generate_transfer c i
  plan (plan_withdraw i) = do c ← resolve i.chain_id i.asset_id i.relayer_url; generate_withdraw c i
