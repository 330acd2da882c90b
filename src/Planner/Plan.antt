-- ===== src/Planner/Plan.antt =====
-- src/planner/planner.ts: the plans, the amounts that they are made from, and `buildTransferPlan`. A plan
-- is modelled without the fields that repeat the input: action, chain, asset, token and relayer URL. The
-- input of `plan` is that after `parsePlanInput`.
use Prim.Native.String.{String}
use ocash_sdk.Prelude.{
  ℕ, Bool, false, List, [], ◌∷◌, map, Option, none, some, length, filter, if◌then◌else◌,
}
use ocash_sdk.Prelude.Int.{ℤ, pos, ◌+ℤ◌, ◌-ℤ◌, ◌*ℤ◌, ◌/ℤ◌, ltb_ℤ, sum_by}
use ocash_sdk.Prelude.Results.{Result, ok, err, ◌>>=◌, ◌>>◌, throw_if}
use ocash_sdk.Crypto.Records.{Point, RecordOpening}
use ocash_sdk.Crypto.Openings.{create_record_opening}
use ocash_sdk.Types.{UtxoRecord}
use ocash_sdk.Planner.Fees.{
  transfer, withdraw, FeeSummary, Estimates, estimate_records, build_fee_summary, bps_base,
}
use ocash_sdk.Planner.Services.{
  PlanError, amount_too_small, insufficient_balance, opening_failed, TokenMetadata, Services,
}

abbrev pub total_amount : List UtxoRecord → ℤ
total_amount = sum_by (λ u. u.amount)

-- `utxos.map((u) => u.amount).filter((v) => v > 0n)`.
abbrev pub positive_amounts : List UtxoRecord → List ℤ
positive_amounts utxos = filter (λ v. ltb_ℤ (pos 0) v) (map (λ (u : UtxoRecord). u.amount) utxos)

abbrev pub bps_of : TokenMetadata → ℤ
bps_of token = elim token.withdraw_fee_bps [ none ↦ pos 0 | some bps ↦ bps ]

-- `payIncludesFee ? amount : amount + relayerFee`, and what is sent of it.
abbrev pub required_for : Bool → ℤ → ℤ → ℤ
required_for includes_fee amount fee = if includes_fee then amount else amount +ℤ fee

abbrev pub sent_of : Bool → ℤ → ℤ → ℤ
sent_of includes_fee amount fee = if includes_fee then amount -ℤ fee else amount

abbrev pub or_throw : {A : Type 0} → Option A → PlanError → Result PlanError A
or_throw (some a) e = ok a
or_throw none e = err e

pub record TransferPlan : Type 0 where
  pub requested_amount : ℤ
  pub send_amount : ℤ
  pub to : String
  pub relayer : String
  pub relayer_fee : ℤ
  pub required : ℤ
  pub ok_with_merge : Bool
  pub fee_summary : FeeSummary
  pub max_summary : FeeSummary
  pub selected_inputs : List UtxoRecord
  pub selected_sum : ℤ
  pub output0 : RecordOpening
  pub output1 : RecordOpening
  pub output2 : RecordOpening
  pub extra_data : List String
  pub proof_binding : ℤ

-- The argument of `buildTransferPlan`, less the fields that it only copies (chain, asset, token).
pub record TransferRequest : Type 0 where
  pub token : TokenMetadata
  pub requested_amount : ℤ
  pub to : String
  pub relayer : String
  pub relayer_fee : ℤ
  pub pay_includes_fee : Bool
  pub selected_inputs : List UtxoRecord
  pub owner_pk : Point
  pub fee_summary : FeeSummary
  pub max_summary : FeeSummary
  pub ok_with_merge : Bool

pub record TransferMergePlan : Type 0 where
  pub requested_amount : ℤ
  pub send_amount : ℤ
  pub to : String
  pub relayer : String
  pub relayer_fee : ℤ
  pub required : ℤ
  pub ok_with_merge : Bool
  pub fee_summary : FeeSummary
  pub max_summary : FeeSummary
  pub merge_plan : TransferPlan

pub record WithdrawPlan : Type 0 where
  pub requested_amount : ℤ
  pub relayer : String
  pub relayer_fee : ℤ
  pub protocol_fee : ℤ
  pub burn_amount : ℤ
  pub gas_drop_value : ℤ
  pub ok_with_merge : Bool
  pub fee_summary : FeeSummary
  pub max_summary : FeeSummary
  pub selected_input : UtxoRecord
  pub output_record_opening : RecordOpening
  pub extra_data : String
  pub proof_binding : ℤ
  pub recipient : String

pub data PlanResult : Type 0 where
  transfer_plan : TransferPlan → PlanResult
  transfer_merge_plan : TransferMergePlan → PlanResult
  withdraw_plan : WithdrawPlan → PlanResult

pub record TransferInput : Type 0 where
  pub chain_id : ℕ
  pub asset_id : String
  pub amount : ℤ
  pub to : String
  pub pay_includes_fee : Bool
  pub relayer_url : Option String
  pub auto_merge : Bool

pub record WithdrawInput : Type 0 where
  pub chain_id : ℕ
  pub asset_id : String
  pub amount : ℤ
  pub recipient : String
  pub gas_drop_value : Option ℤ
  pub pay_includes_fee : Bool
  pub relayer_url : Option String

pub data PlanInput : Type 0 where
  plan_transfer : TransferInput → PlanInput
  plan_withdraw : WithdrawInput → PlanInput

abbrev pub pay_summary : Estimates → FeeSummary
pay_summary e = build_fee_summary e.pay_info (length e.pay_records)

abbrev pub most_summary : Estimates → FeeSummary
most_summary e = build_fee_summary e.max_info (length e.max_records)

-- `feeSummary.cost > 0n`.
abbrev pub is_payable : FeeSummary → Bool
is_payable summary = ltb_ℤ (pos 0) summary.cost

-- The estimate of a transfer, `relayerFee: { transfer: relayerFee, withdraw: 0n }`.
abbrev pub transfer_estimates : TokenMetadata → ℤ → ℤ → Bool → List UtxoRecord → Estimates
transfer_estimates token fee amount includes_fee utxos =
    estimate_records (bps_of token) amount transfer
      (record { for_transfer = fee; for_withdraw = pos 0 }) includes_fee (positive_amounts utxos)

abbrev pub withdraw_estimates : TokenMetadata → ℤ → ℤ → ℤ → Bool → List UtxoRecord → Estimates
withdraw_estimates token transfer_fee fee amount includes_fee utxos =
    estimate_records (bps_of token) amount withdraw
      (record { for_transfer = transfer_fee; for_withdraw = fee }) includes_fee
      (positive_amounts utxos)

-- `(withdrawBase * BigInt(token.withdrawFeeBps ?? 0)) / 10000n`.
abbrev pub protocol_fee_of : TokenMetadata → Bool → ℤ → ℤ → ℤ
protocol_fee_of token includes_fee amount fee =
    required_for includes_fee amount fee *ℤ bps_of token /ℤ bps_base

abbrev pub burn_amount_of : TokenMetadata → Bool → ℤ → ℤ → ℤ
burn_amount_of token includes_fee amount fee =
    if includes_fee then amount else amount +ℤ fee +ℤ protocol_fee_of token includes_fee amount fee

module _ (s : Services) where
  -- The change goes back to the owner; with none, the output is a dummy.
  unfoldable pub change_opening : TokenMetadata → Point → ℤ → ℕ → Result PlanError RecordOpening
  change_opening token owner_pk change output =
      if ltb_ℤ (pos 0) change
      then or_throw
          (create_record_opening token.id change owner_pk none false (s.blinding_draws output))
          opening_failed
      else s.dummy_record_opening output

  unfoldable pub build_transfer_plan : TransferRequest → Result PlanError TransferPlan
  build_transfer_plan r = do
    let required = required_for r.pay_includes_fee r.requested_amount r.relayer_fee
    let send_amount = sent_of r.pay_includes_fee r.requested_amount r.relayer_fee
    throw_if (ltb_ℤ send_amount (pos 0)) amount_too_small
    let selected_sum = total_amount r.selected_inputs
    throw_if (ltb_ℤ selected_sum required) insufficient_balance
    recipient_pk ← s.address_to_user_pk r.to
    output0 ←
        or_throw
          (create_record_opening r.token.id send_amount recipient_pk none false
            (s.blinding_draws 0))
          opening_failed
    output1 ← change_opening r.token r.owner_pk (selected_sum -ℤ required) 1
    output2 ← s.dummy_record_opening 2
    memo0 ← s.create_memo output0
    memo1 ← s.create_memo output1
    memo2 ← s.create_memo output2
    let extra_data = memo0 ∷ memo1 ∷ memo2 ∷ []
    proof_binding ← s.transfer_proof_binding r.relayer extra_data
    ok (record {
      requested_amount = r.requested_amount;
      send_amount = send_amount;
      to = r.to;
      relayer = r.relayer;
      relayer_fee = r.relayer_fee;
      required = required;
      ok_with_merge = r.ok_with_merge;
      fee_summary = r.fee_summary;
      max_summary = r.max_summary;
      selected_inputs = r.selected_inputs;
      selected_sum = selected_sum;
      output0 = output0;
      output1 = output1;
      output2 = output2;
      extra_data = extra_data;
      proof_binding = proof_binding;
    })
