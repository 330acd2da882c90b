-- ===== src/Planner/Promises.antt =====
-- `Planner.plan`: what every plan that it returns promises.
use mathlib.Core.Path.{subst}
use ocash_sdk.Prelude.{
  ◌≤◌, true, false, ◌≡◌, sym, inl, inr, ◌⊎◌, List, some, length, arith, Bool-cases, length-take,
  ◌||◌, not,
}
use ocash_sdk.Prelude.Int.{ℤ, pos, ◌+ℤ◌, ◌-ℤ◌, ◌≤ℤ◌, ltb_ℤ, int_laws}
use ocash_sdk.Prelude.Results.{
  ok, Ensures, Ensures-bind, Ensures-then, Ensures-throw_if, Ensures-map, Ensures-eq_ok,
}
use ocash_sdk.Prelude.Sorting.{sort}
use ocash_sdk.Crypto.Records.{Point, RecordOpening}
use ocash_sdk.Types.{UtxoRecord}
use ocash_sdk.Planner.Select.{
  larger_first, smaller_first, select_transfer_inputs, select_withdraw_input, select_merge_inputs,
}
use ocash_sdk.Planner.Select.Optimal.{length-select_transfer_inputs}
use ocash_sdk.Planner.Select.Withdraw.{select_withdraw_input_lem, WithdrawChoice}
use ocash_sdk.Planner.Fees.{transfer, withdraw, Estimates}
use ocash_sdk.Planner.Services.{
  insufficient_balance, amount_too_small, no_covering_utxo, Services, get_relayer_fee,
  TokenMetadata, fee_or_zero,
}
use ocash_sdk.Planner.Plan.{
  total_amount, required_for, sent_of, or_throw, TransferPlan, WithdrawPlan, PlanResult, PlanInput,
  plan_transfer, plan_withdraw, transfer_plan, transfer_merge_plan, withdraw_plan, TransferInput,
  WithdrawInput, build_transfer_plan, change_opening, burn_amount_of, transfer_estimates,
  is_payable, pay_summary,
}
use ocash_sdk.Planner.Generate.{
  request, Context, merge_inputs, build_merge_plan, plan_merge, plan_direct, generate_transfer,
  generate_withdraw, plan, resolve,
}
use ocash_sdk.Planner.Conservation.{
  Conserves, IsChange, build_transfer_plan-Ensures, change_opening-IsChange, or_throw-eq_ok,
}

-- The change output of a withdrawal is what the UTXO holds beyond the burned amount, if anything.
pub record WithdrawConserves (w : WithdrawPlan) : Type 0 where
  pub covered : w.burn_amount ≤ℤ w.selected_input.amount
  pub settled :
      (w.output_record_opening.asset_amount +ℤ w.burn_amount ≡ w.selected_input.amount)
      ⊎ (w.burn_amount ≡ w.selected_input.amount)

abbrev pub PlanConserves : PlanResult → Type 0
PlanConserves (transfer_plan p) = Conserves p.selected_inputs p × (length p.selected_inputs ≤ 3)
PlanConserves (transfer_merge_plan m) =
    Conserves m.merge_plan.selected_inputs m.merge_plan × (length m.merge_plan.selected_inputs ≤ 3)
PlanConserves (withdraw_plan w) = WithdrawConserves w

Conserves-self :
    (inputs : List UtxoRecord) (p : TransferPlan)
    → Conserves inputs p
    → Conserves p.selected_inputs p
Conserves-self inputs p c = subst (λ l. Conserves l p) (sym c.inputs_used) c

length-merge_inputs :
    (utxos : List UtxoRecord) (fee : ℤ)
    → Ensures (λ inputs. length inputs ≤ 3) (merge_inputs utxos fee)
unfolding merge_inputs select_merge_inputs
length-merge_inputs utxos fee =
    ground
      (arith, length-take 3 (sort smaller_first utxos), length-take 3 (sort larger_first utxos))

settle_withdraw_change :
    (burn amount : ℤ) (ro : RecordOpening) {token : TokenMetadata} {pk : Point}
    → (ltb_ℤ (pos 0) (amount -ℤ burn) ≡ true → IsChange token pk (amount -ℤ burn) ro)
    → burn ≤ℤ amount
    → (ro.asset_amount +ℤ burn ≡ amount) ⊎ (burn ≡ amount)
settle_withdraw_change burn amount ro changed covered =
    elim (Bool-cases (ltb_ℤ (pos 0) (amount -ℤ burn))) [
      | inl positive ↦ inl (rw ((changed positive).amount) (omega int_laws))
      | inr even ↦ inr (grind int_laws)
    ]

module _ (s : Services) (c : Context) where
  plan_direct-Conserves :
      (i : TransferInput) (fee : ℤ) (selected : List UtxoRecord) (e : Estimates)
      → length selected ≤ 3
      → Ensures PlanConserves (plan_direct s c i fee selected e)
  unfolding plan_direct
  plan_direct-Conserves i fee selected e few =
      Ensures-then (Conserves selected) PlanConserves
        (build_transfer_plan s (request c i.amount i.to fee i.pay_includes_fee selected e)) _
        (build_transfer_plan-Ensures s (request c i.amount i.to fee i.pay_includes_fee selected e))
        λ p kept. (Conserves-self selected p kept, rw (kept.inputs_used) few)

  build_merge_plan-Conserves :
      (i : TransferInput) (fee : ℤ) (utxos : List UtxoRecord)
      → Ensures
          (λ p. Conserves p.selected_inputs p × (length p.selected_inputs ≤ 3))
          (build_merge_plan s c i fee utxos)
  unfolding build_merge_plan
  build_merge_plan-Conserves i fee utxos =
      let P =
        λ (p : TransferPlan). Conserves p.selected_inputs p × (length p.selected_inputs ≤ 3) in
      Ensures-then (λ inputs. length inputs ≤ 3) P (merge_inputs utxos fee) _
        (length-merge_inputs utxos fee)
        λ inputs few.
          let amount = total_amount inputs -ℤ fee in
          let r =
            request c amount c.viewing_address fee false inputs
              (transfer_estimates c.token fee amount false inputs) in
          Ensures-map (Conserves inputs) P (build_transfer_plan s r)
            (build_transfer_plan-Ensures s r)
            λ p kept. (Conserves-self inputs p kept, rw (kept.inputs_used) few)

  plan_merge-Conserves :
      (i : TransferInput) (fee : ℤ) (utxos : List UtxoRecord) (e : Estimates)
      → Ensures PlanConserves (plan_merge s c i fee utxos e)
  unfolding plan_merge
  plan_merge-Conserves i fee utxos e =
      let P = PlanConserves in
      let required = required_for i.pay_includes_fee i.amount fee in
      Ensures-throw_if P (not (is_payable (pay_summary e)) || ltb_ℤ (total_amount utxos) required)
        insufficient_balance _
        λ _. Ensures-throw_if P (not i.auto_merge) insufficient_balance _ λ _.
          Ensures-then _ P (build_merge_plan s c i fee utxos) _
            (build_merge_plan-Conserves i fee utxos) λ p kept. kept

  generate_transfer-Conserves :
      (i : TransferInput) → Ensures PlanConserves (generate_transfer s c i)
  unfolding generate_transfer
  generate_transfer-Conserves i =
      let P = PlanConserves in
      let fee = get_relayer_fee s c.config c.token transfer in
      let required = required_for i.pay_includes_fee i.amount fee in
      Ensures-throw_if P (ltb_ℤ (sent_of i.pay_includes_fee i.amount fee) (pos 0)) amount_too_small
        _
        λ _. Ensures-bind P (s.get_utxos i.chain_id i.asset_id) _ λ utxos _.
          let selection = select_transfer_inputs utxos required 3 in
          let e = transfer_estimates c.token fee i.amount i.pay_includes_fee utxos in
          elim (Bool-cases (ltb_ℤ selection.sum required)) [
            | inl short ↦ rw (short) (plan_merge-Conserves i fee utxos e)
            | inr enough ↦ rw (enough) (
                plan_direct-Conserves i fee selection.selected e
                  (length-select_transfer_inputs utxos required 2))
          ]

  generate_withdraw-Conserves :
      (i : WithdrawInput) → Ensures PlanConserves (generate_withdraw s c i)
  unfolding generate_withdraw
  generate_withdraw-Conserves i =
      let P = PlanConserves in
      let fee = get_relayer_fee s c.config c.token withdraw in
      let burn = burn_amount_of c.token i.pay_includes_fee i.amount fee in
      let gas = fee_or_zero i.gas_drop_value in
      Ensures-bind P (s.get_utxos i.chain_id i.asset_id) _ λ utxos _.
        Ensures-bind P (or_throw (select_withdraw_input utxos burn) no_covering_utxo) _
          λ chosen found.
            Ensures-bind P (change_opening s c.token c.owner_pk (chosen.amount -ℤ burn) 0) _
              λ output made. Ensures-bind P (s.create_memo output) _ λ extra_data _.
                Ensures-bind P
                  (s.withdraw_proof_binding i.recipient i.amount c.config.relayer_address fee gas
                    extra_data)
                  _
                  λ binding _.
                    let choice : WithdrawChoice utxos burn (some chosen) =
                      rw (or_throw-eq_ok (select_withdraw_input utxos burn) no_covering_utxo found)
                        at (select_withdraw_input_lem utxos burn) in
                    let changed =
                      change_opening-IsChange s c.token c.owner_pk (chosen.amount -ℤ burn) 0 output
                        made in
                    record {
                      covered = choice.1;
                      settled = settle_withdraw_change burn chosen.amount output changed choice.1;
                    }

-- Every plan conserves amounts. The outputs of a transfer (and of the merge before it) with the
-- relayer's fee are the sum of its inputs, at most three; the change of a withdrawal with the
-- burned amount is its input. Where nothing is left over, the change is a dummy, which does not
-- count.
pub plan-Conserves :
    (s : Services) (i : PlanInput) (p : PlanResult) → plan s i ≡ ok p → PlanConserves p
unfolding plan
plan-Conserves s (plan_transfer i) p h =
    Ensures-eq_ok PlanConserves
      (Ensures-bind PlanConserves (resolve s i.chain_id i.asset_id i.relayer_url)
        (λ c. generate_transfer s c i) λ c _. generate_transfer-Conserves s c i)
      h
plan-Conserves s (plan_withdraw i) p h =
    Ensures-eq_ok PlanConserves
      (Ensures-bind PlanConserves (resolve s i.chain_id i.asset_id i.relayer_url)
        (λ c. generate_withdraw s c i) λ c _. generate_withdraw-Conserves s c i)
      h
