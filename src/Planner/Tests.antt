-- ===== src/Planner/Tests.antt =====
-- The planner on a wallet of three UTXOs.
use ocash_sdk.Prelude.{ℕ, ◌≡◌, refl, true, false, List, [], ◌∷◌, none, some, All, choose, arith}
use ocash_sdk.Prelude.Int.{ℤ, pos, ◌+ℤ◌, ◌-ℤ◌, ◌*ℤ◌, ◌/ℤ◌, ◌≤ℤ◌, ◌<ℤ◌}
use ocash_sdk.Prelude.Results.{Result, ok, err}
use ocash_sdk.Prelude.Sorting.{sort}
use ocash_sdk.Crypto.Records.{Point, RecordOpening}
use ocash_sdk.Crypto.Poseidon2.{hash_sequence_with_domain}
use ocash_sdk.Crypto.Openings.{create_record_opening, draw_opening}
use ocash_sdk.Types.{UtxoRecord}
use ocash_sdk.Planner.Select.{select_transfer_inputs, select_loop, select_withdraw_input}
use ocash_sdk.Planner.Select.Optimal.{IsAmount, total, select_transfer_inputs-optimal}
use ocash_sdk.Planner.Fees.{
  transfer, withdraw, RelayerFee, FeeInfo, records_fee, merge_loop, settle_transfer,
  settle_withdraw, burn, unpayable, empty_info, build_fee_summary, total_of, max_uint256,
  descending, estimate_records,
}
use ocash_sdk.Planner.Fees.Solvency.{Balances, records_fee-Balances, records_fee-max_transfer}
use ocash_sdk.Planner.Fees.Coverage.{Covers, estimate_records-Covers, estimate_records-transfer_all}
use ocash_sdk.Planner.Services.{
  PlanError, insufficient_balance, TokenMetadata, RelayerConfig, Services, get_relayer_fee,
  get_relayer_config,
}
use ocash_sdk.Planner.Plan.{
  PlanResult, plan_transfer, TransferInput, build_transfer_plan, change_opening, withdraw_plan,
}
use ocash_sdk.Planner.Generate.{Context, generate_transfer, plan, plan_direct, plan_merge}
use ocash_sdk.Planner.Promises.{PlanConserves, plan-Conserves}
use ocash_sdk.Planner.Refusal.{generate_transfer-insufficient}
use ocash_sdk.Planner.Select.Withdraw.{WithdrawChoice, select_withdraw_input_lem}

abbrev coin : ℕ → ℕ → UtxoRecord
coin amount index = record {
  chain_id = 1;
  asset_id = "7";
  amount = pos amount;
  commitment = "0x01";
  nullifier = "0x02";
  mk_index = index;
  is_frozen = false;
  is_spent = false;
  memo = none;
  created_at = none;
}

abbrev coins : List UtxoRecord
coins = coin 40 0 ∷ coin 100 1 ∷ coin 60 2 ∷ []

coins-All : All IsAmount coins
coins-All = ground arith

abbrev token : TokenMetadata
token = record { id = pos 7; withdraw_fee_bps = some (pos 25) }

abbrev config : RelayerConfig
config = record {
  chain_id = 1;
  relayer_address = "0xaa";
  transfer_fees = some (("7", some (pos 2)) ∷ []);
  withdraw_fees = some (("7", some (pos 3)) ∷ []);
}

abbrev owner : Point
owner = record { x = pos 11; y = pos 12 }

abbrev dummy : RecordOpening
dummy = record {
  asset_id = pos 0;
  asset_amount = pos 0;
  user_pk = owner;
  blinding_factor = pos 5;
  is_frozen = false;
}

abbrev services : Services
services = record {
  get_pool_info = λ chain asset. some token;
  chain_relayer_url = λ chain. ok none;
  cached_relayer_config = λ chain. some config;
  sync_relayer_config = λ chain. ok config;
  fetch_relayer_config = λ url. ok config;
  token_fee_key = λ t. "7";
  get_viewing_address = ok "0xbb";
  address_to_user_pk = λ address. ok owner;
  get_utxos = λ chain asset. ok coins;
  blinding_draws = λ output. pos 21 ∷ pos 22 ∷ [];
  dummy_record_opening = λ output. ok dummy;
  create_memo = λ opening. ok "memo";
  transfer_proof_binding = λ relayer extra. ok (pos 31);
  withdraw_proof_binding = λ recipient amount relayer fee gas extra. ok (pos 32);
}

abbrev context : Context
context = record { token = token; config = config; viewing_address = "0xbb"; owner_pk = owner }

abbrev pay : ℕ → TransferInput
pay amount = record {
  chain_id = 1;
  asset_id = "7";
  amount = pos amount;
  to = "0xcc";
  pay_includes_fee = false;
  relayer_url = none;
  auto_merge = true;
}

abbrev plan_or : Result PlanError PlanResult → PlanResult → PlanResult
plan_or (ok p) other = p
plan_or (err e) other = other

select_transfer_inputs-optimal_example : total (choose (true ∷ true ∷ []) coins) <ℤ pos 161
unfolding select_transfer_inputs select_loop ◌+ℤ◌
select_transfer_inputs-optimal_example =
    select_transfer_inputs-optimal coins (pos 161) 1 (true ∷ true ∷ []) coins-All (omega arith)
      (omega arith)

select_withdraw_input_lem_example :
    WithdrawChoice coins (pos 70) (select_withdraw_input coins (pos 70))
select_withdraw_input_lem_example = select_withdraw_input_lem coins (pos 70)

generate_transfer-insufficient_example :
    generate_transfer services context (pay 199) ≡ err insufficient_balance
unfolding get_relayer_fee ◌+ℤ◌
generate_transfer-insufficient_example =
    generate_transfer-insufficient services context (pay 199) coins refl coins-All (omega arith)
      (omega arith)

abbrev fees : RelayerFee
fees = record { for_transfer = pos 2; for_withdraw = pos 3 }

abbrev amounts : List ℤ
amounts = pos 40 ∷ pos 100 ∷ pos 60 ∷ pos 10 ∷ pos 5 ∷ []

records_fee-Balances_example : Balances (records_fee (pos 25) amounts (pos 50) withdraw fees false)
unfolding records_fee merge_loop settle_withdraw burn unpayable ◌+ℤ◌ ◌-ℤ◌ ◌*ℤ◌ ◌/ℤ◌
records_fee-Balances_example =
    records_fee-Balances (pos 25) amounts (pos 50) fees false (λ h. ground arith)

abbrev largest : FeeInfo
largest = records_fee (pos 25) amounts max_uint256 transfer fees true

records_fee-max_transfer_example :
    (largest.cost ≡ total_of amounts)
    × (largest.output_amount +ℤ largest.fee ≡ total_of amounts)
    × (pos 0 ≤ℤ largest.output_amount)
unfolding records_fee merge_loop settle_transfer ◌+ℤ◌ ◌-ℤ◌ ◌*ℤ◌ ◌/ℤ◌
records_fee-max_transfer_example =
    records_fee-max_transfer (pos 25) amounts fees true (λ h. ground arith)

estimate_records-Covers_example :
    Covers
      (pos 25)
      (pos 50)
      withdraw
      fees
      true
      (sort descending amounts)
      (estimate_records (pos 25) (pos 50) withdraw fees true amounts)
estimate_records-Covers_example =
    estimate_records-Covers (pos 25) (pos 50) withdraw fees true amounts

estimate_records-transfer_all_example :
    (estimate_records (pos 25) (pos 50) transfer fees false amounts).pay_records
    ≡ sort descending amounts
estimate_records-transfer_all_example =
    estimate_records-transfer_all (pos 25) (pos 50) fees amounts (omega arith) refl

abbrev no_plan : PlanResult
no_plan = withdraw_plan (record {
  requested_amount = pos 0;
  relayer = "";
  relayer_fee = pos 0;
  protocol_fee = pos 0;
  burn_amount = pos 0;
  gas_drop_value = pos 0;
  ok_with_merge = false;
  fee_summary = build_fee_summary empty_info 0;
  max_summary = build_fee_summary empty_info 0;
  selected_input = coin 0 0;
  output_record_opening = dummy;
  extra_data = "";
  proof_binding = pos 0;
  recipient = "";
})

plan-Conserves_example : PlanConserves (plan_or (plan services (plan_transfer (pay 50))) no_plan)
unfolding plan generate_transfer plan_direct plan_merge build_transfer_plan create_record_opening
    draw_opening hash_sequence_with_domain select_transfer_inputs select_loop change_opening
    get_relayer_config get_relayer_fee ◌+ℤ◌ ◌-ℤ◌ ◌*ℤ◌ ◌/ℤ◌
plan-Conserves_example =
    plan-Conserves services (plan_transfer (pay 50))
      (plan_or (plan services (plan_transfer (pay 50))) no_plan) refl

-- `select_loop` stops at the first sum that covers: a payment of 50 takes one coin of three.
select_transfer_inputs-first : (select_transfer_inputs coins (pos 52) 3).selected ≡ coin 100 1 ∷ []
unfolding select_transfer_inputs select_loop ◌+ℤ◌
select_transfer_inputs-first = refl
