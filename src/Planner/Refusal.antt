-- ===== src/Planner/Refusal.antt =====
-- `Planner.plan`: when it refuses a transfer for lack of balance.
use ocash_sdk.Prelude.{
  ℕ, ◌+◌, lt→ltb, Bool, true, false, ◌≡◌, refl, inl, inr, List, [], ◌∷◌, All, arith, Bool-cases,
  ◌||◌, leb,
}
use ocash_sdk.Prelude.Int.{ℤ, pos, ◌+ℤ◌, ◌≤ℤ◌, ◌<ℤ◌, ltb_ℤ, leb_ℤ, int_laws}
use ocash_sdk.Prelude.Results.{ok, err}
use ocash_sdk.Prelude.Sorting.{sort, sum_by-sort, All-sort}
use ocash_sdk.Types.{UtxoRecord}
use ocash_sdk.Planner.Select.{larger_first, select_loop, select_transfer_inputs}
use ocash_sdk.Planner.Select.Optimal.{IsAmount, total}
use ocash_sdk.Planner.Fees.{transfer}
use ocash_sdk.Planner.Services.{insufficient_balance, Services, get_relayer_fee}
use ocash_sdk.Planner.Plan.{required_for, sent_of, TransferInput}
use ocash_sdk.Planner.Generate.{Context, plan_merge, generate_transfer}

select_loop-le :
    (us : List UtxoRecord) (required : ℤ) (max_inputs count : ℕ) (sum : ℤ)
    → All IsAmount us
    → (select_loop us required max_inputs count sum).sum ≤ℤ sum +ℤ total us
unfolding select_loop
select_loop-le [] required max_inputs count sum h = omega int_laws
select_loop-le (u ∷ us) required max_inputs count sum h =
    let rest = total-nonneg us h.1 in
    let ih = select_loop-le us required max_inputs (count + 1) (sum +ℤ u.amount) h.1 in
    elim (Bool-cases (leb max_inputs (count + 1) || leb_ℤ required (sum +ℤ u.amount))) [
      | inl done ↦ rw (done) (omega int_laws)
      | inr more ↦ rw (more) (omega int_laws)
    ]
  where
    total-nonneg : (us : List UtxoRecord) → All IsAmount us → pos 0 ≤ℤ total us
    total-nonneg [] h = omega arith
    total-nonneg (u ∷ us) h = omega (int_laws, h.0, total-nonneg us h.1)

or-true : (b c : Bool) → c ≡ true → b || c ≡ true
or-true true c h = refl
or-true false c h = h

-- A transfer that leaves nothing negative to send, and that with the fee needs more than the
-- wallet's UTXOs hold, is refused for lack of balance, also with `autoMerge`. The UTXOs are those
-- listed, with amounts that are not negative.
pub generate_transfer-insufficient :
    (s : Services) (c : Context) (i : TransferInput) (utxos : List UtxoRecord)
    → s.get_utxos i.chain_id i.asset_id ≡ ok utxos
    → All IsAmount utxos
    → pos 0 ≤ℤ sent_of i.pay_includes_fee i.amount (get_relayer_fee s c.config c.token transfer)
    → total utxos
      <ℤ required_for i.pay_includes_fee i.amount (get_relayer_fee s c.config c.token transfer)
    → generate_transfer s c i ≡ err insufficient_balance
unfolding generate_transfer plan_merge select_transfer_inputs
generate_transfer-insufficient s c i utxos listed amounts sends short =
    let fee = get_relayer_fee s c.config c.token transfer in
    let required = required_for i.pay_includes_fee i.amount fee in
    let enough : ltb_ℤ (sent_of i.pay_includes_fee i.amount fee) (pos 0) ≡ false = ground arith in
    let within = sum-le utxos required amounts in
    let summed = sum_by-sort larger_first (λ (u : UtxoRecord). u.amount) utxos in
    let below : ltb_ℤ (select_transfer_inputs utxos required 3).sum required ≡ true =
      lt→ltb _ _ (omega int_laws) in
    let lacking : ltb_ℤ (total utxos) required ≡ true = lt→ltb _ _ short in
    rw (enough, listed, below) (rw (or-true _ _ lacking))
  where
    sum-le :
        (us : List UtxoRecord) (required : ℤ)
        → All IsAmount us
        → (select_transfer_inputs us required 3).sum ≤ℤ total us
    sum-le us required h =
        let bound =
          select_loop-le (sort larger_first us) required 3 0 (pos 0)
            (All-sort larger_first IsAmount us h) in
        let summed = sum_by-sort larger_first (λ (u : UtxoRecord). u.amount) us in
        omega (int_laws, rw summed at bound)
