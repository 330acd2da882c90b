-- ===== src/Planner/Fees.antt =====
-- src/planner/planner.ts: `recordsFee`, `buildFeeSummary` and `estimateRecords`, the simulation of
-- merges and of the relayer's and the protocol's fees.
pub mod Merges
pub mod Solvency
pub mod Coverage
use ocash_sdk.Prelude.{
  ℕ, zero, suc, ◌+◌, ◌-◌, ◌^◌, Bool, true, false, ◌||◌, not, List, [], ◌∷◌, ◌++◌, length, take,
  drop, ltb, if◌then◌else◌,
}
use ocash_sdk.Prelude.Int.{ℤ, pos, ◌+ℤ◌, ◌-ℤ◌, ◌*ℤ◌, ◌/ℤ◌, ltb_ℤ, leb_ℤ, eqb_ℤ, sum_by}
use ocash_sdk.Prelude.Sorting.{sort}

pub data Action : Type 0 where
  transfer withdraw : Action

-- `{ transfer: bigint; withdraw: bigint }`, what the relayer takes for one transaction of each kind.
pub record RelayerFee : Type 0 where
  pub for_transfer : ℤ
  pub for_withdraw : ℤ

pub record FeeInfo : Type 0 where
  pub total : ℤ
  pub fee : ℤ
  pub fee_count : ℕ
  pub cost : ℤ
  pub output_amount : ℤ
  pub relay_fee : ℤ
  pub protocol_fee : ℤ

abbrev pub input_number : ℕ
input_number = 3

-- viem's `maxUint256`, which stands for "as much as possible".
abbrev pub max_uint256 : ℤ
max_uint256 = pos (2 ^ 256 - 1)

abbrev pub bps_base : ℤ
bps_base = pos 10000

-- `records.reduce((acc, cur) => acc + cur, 0n)`.
abbrev pub total_of : List ℤ → ℤ
total_of = sum_by (λ r. r)

-- `moreThenInputs || burnMoreThenInputs`.
abbrev pub needs_merge : Action → List ℤ → Bool
needs_merge transfer records = ltb input_number (length records)
needs_merge withdraw records = ltb input_number (length records) || ltb 1 (length records)

-- `merges = records.splice(0, INPUT_NUMBER); records.push(mergeTotal)`.
abbrev pub merge_round : List ℤ → List ℤ
merge_round records = drop input_number records ++ total_of (take input_number records) ∷ []

-- The rounds of the `while` that merge and `continue`: the records and `feeCount` of the last round.
-- Each of them shortens the list, so the length of the list is enough fuel.
unfoldable pub merge_loop : ℕ → Action → List ℤ → ℕ → List ℤ × ℕ
merge_loop zero action records fee_count = (records, fee_count)
merge_loop (suc fuel) action records fee_count = elim (needs_merge action records) [
  | true ↦ merge_loop fuel action (merge_round records) (fee_count + 1)
  | false ↦ (records, fee_count)
]

-- `if (action === 'transfer')`, in the last round.
unfoldable pub settle_transfer : ℤ → RelayerFee → Bool → List ℤ → ℕ → FeeInfo
settle_transfer expected relayer_fee with_fee records fee_count =
    let total = total_of records in
    let fee = pos fee_count *ℤ relayer_fee.for_transfer in
    let output = total -ℤ fee in
    let is_max = eqb_ℤ max_uint256 expected in
    let output_amount =
      if is_max then (if ltb_ℤ output (pos 0) then pos 0 else output) else pos 0 in
    let cost =
      if is_max
      then (if ltb_ℤ output (pos 0) then pos 0 else total)
      else if with_fee
      then expected
      else expected +ℤ fee in
    record {
      total = total;
      fee = fee;
      fee_count = fee_count;
      cost = if ltb_ℤ total cost then pos 0 else cost;
      output_amount = output_amount;
      relay_fee = fee;
      protocol_fee = pos 0;
    }

-- What follows once `outputAmount` is known: the protocol's fee on `base`, and the cost.
unfoldable pub burn : ℤ → ℕ → ℤ → ℤ → ℤ → ℤ → ℤ → FeeInfo
burn total fee_count merge_fee relay_fee_pay bps base output_amount =
    let protocol_fee = base *ℤ bps /ℤ bps_base in
    let fee = merge_fee +ℤ (protocol_fee +ℤ relay_fee_pay) in
    let cost = output_amount +ℤ fee in
    record {
      total = total;
      fee = fee;
      fee_count = fee_count;
      cost = if ltb_ℤ total cost then pos 0 else cost;
      output_amount = output_amount;
      relay_fee = merge_fee +ℤ relay_fee_pay;
      protocol_fee = protocol_fee;
    }

-- What an early `break` returns: no cost, and the relayer's fee and output set so far.
unfoldable pub unpayable : ℤ → ℤ → ℕ → ℤ → ℤ → FeeInfo
unpayable total fee fee_count relay_fee output_amount = record {
  total = total;
  fee = fee;
  fee_count = fee_count;
  cost = pos 0;
  output_amount = output_amount;
  relay_fee = relay_fee;
  protocol_fee = pos 0;
}

-- `if (action === 'withdraw')`, in the last round; the early `break`s return what is set so far.
unfoldable pub settle_withdraw : ℤ → ℤ → RelayerFee → Bool → List ℤ → ℕ → FeeInfo
settle_withdraw bps expected relayer_fee with_fee records fee_count =
    let pay = relayer_fee.for_withdraw in
    let total = total_of records in
    let fee = pos (fee_count - 1) *ℤ relayer_fee.for_transfer in
    let stopped = unpayable total fee fee_count in
    let max_base = (total -ℤ fee) *ℤ bps_base /ℤ (bps_base +ℤ bps) in
    let max_output = max_base -ℤ pay in
    let with_fee_base = (expected -ℤ fee) *ℤ bps_base /ℤ (bps_base +ℤ bps) in
    let output = if with_fee then with_fee_base -ℤ pay else expected in
    if eqb_ℤ max_uint256 expected
    then (if ltb_ℤ max_output (pos 0)
        then stopped (fee +ℤ pay) (pos 0)
        else burn total fee_count fee pay bps max_base max_output)
    else if ltb_ℤ total expected
    then stopped (pos 0) (pos 0)
    else if ltb_ℤ output (pos 0)
    then stopped (fee +ℤ pay) output
    else burn total fee_count fee pay bps (output +ℤ pay) output

abbrev pub empty_info : FeeInfo
empty_info = record {
  total = pos 0;
  fee = pos 0;
  fee_count = 0;
  cost = pos 0;
  output_amount = pos 0;
  relay_fee = pos 0;
  protocol_fee = pos 0;
}

abbrev pub settle : ℤ → ℤ → Action → RelayerFee → Bool → List ℤ × ℕ → FeeInfo
settle bps expected transfer relayer_fee with_fee (records, fee_count) =
    settle_transfer expected relayer_fee with_fee records fee_count
settle bps expected withdraw relayer_fee with_fee (records, fee_count) =
    settle_withdraw bps expected relayer_fee with_fee records fee_count

-- With no record the loop is not entered; else `feeCount` is 1 in its first round.
unfoldable pub records_fee : ℤ → List ℤ → ℤ → Action → RelayerFee → Bool → FeeInfo
unfolding merge_loop settle_transfer settle_withdraw
records_fee bps [] expected action relayer_fee with_fee = empty_info
records_fee bps (r ∷ rest) expected action relayer_fee with_fee =
    let records = r ∷ rest in
    settle bps expected action relayer_fee with_fee (merge_loop (length records) action records 1)

pub record FeeSummary : Type 0 where
  pub merge_count : ℕ
  pub fee_count : ℕ
  pub relayer_fee_total : ℤ
  pub protocol_fee_total : ℤ
  pub total_input : ℤ
  pub output_amount : ℤ
  pub cost : ℤ
  pub input_count : ℕ

-- `Math.max(0, feeCount - 1)` is the truncated difference.
unfoldable pub build_fee_summary : FeeInfo → ℕ → FeeSummary
build_fee_summary info input_count = record {
  merge_count = info.fee_count - 1;
  fee_count = info.fee_count;
  relayer_fee_total = info.relay_fee;
  protocol_fee_total = info.protocol_fee;
  total_input = info.total;
  output_amount = info.output_amount;
  cost = info.cost;
  input_count = input_count;
}

abbrev pub descending : ℤ → ℤ → Bool
descending a b = ltb_ℤ b a

pub record Estimates : Type 0 where
  pub pay_records : List ℤ
  pub pay_info : FeeInfo
  pub max_records : List ℤ
  pub max_info : FeeInfo

module _ (bps expected : ℤ) (action : Action) (relayer_fee : RelayerFee) (with_fee : Bool) where
  abbrev pub fee_of : List ℤ → FeeInfo
  fee_of records = records_fee bps records expected action relayer_fee with_fee

  abbrev pub max_fee_of : List ℤ → FeeInfo
  max_fee_of records = records_fee bps records max_uint256 action relayer_fee with_fee

  -- `isExceedPay`.
  abbrev pub exceeds_pay : FeeInfo → Bool
  exceeds_pay info =
      if with_fee then leb_ℤ expected info.cost else leb_ℤ expected info.output_amount

  -- One round of the `for`.
  abbrev pub estimate_step : Estimates → ℤ → Estimates
  estimate_step e r =
      let pay_records = e.pay_records ++ r ∷ [] in
      let takes = eqb_ℤ e.pay_info.cost (pos 0) || not (exceeds_pay e.pay_info) in
      let max_records = e.max_records ++ r ∷ [] in
      let temp_max = max_fee_of max_records in
      let better =
        eqb_ℤ e.max_info.cost (pos 0) || ltb_ℤ e.max_info.output_amount temp_max.output_amount in
      record {
        pay_records = if takes then pay_records else e.pay_records;
        pay_info = if takes then fee_of pay_records else e.pay_info;
        max_records = max_records;
        max_info = if better then temp_max else e.max_info;
      }

  pub estimate_loop : List ℤ → Estimates → Estimates
  estimate_loop [] e = e
  estimate_loop (r ∷ rest) e = estimate_loop rest (estimate_step e r)

  unfoldable pub estimate_records : List ℤ → Estimates
  unfolding estimate_loop records_fee
  estimate_records records = estimate_loop (sort descending records) (record {
    pay_records = [];
    pay_info = fee_of [];
    max_records = [];
    max_info = max_fee_of [];
  })
