-- ===== src/Planner/Conservation.antt =====
-- `Planner.plan`: what goes in comes out. The outputs and the fee of a transfer are its inputs, and
-- the change and the burned amount of a withdrawal are the UTXO that it spends.
use ocash_sdk.Prelude.{
  ℕ, Bool, true, false, ◌≡◌, refl, inl, inr, ◌⊎◌, List, [], ◌∷◌, Option, some, none, arith,
  Bool-cases,
}
use ocash_sdk.Prelude.Int.{ℤ, pos, ◌+ℤ◌, ◌-ℤ◌, ◌≤ℤ◌, ltb_ℤ, int_laws}
use ocash_sdk.Prelude.Results.{ok, Ensures, Ensures-bind, Ensures-throw_if}
use ocash_sdk.Crypto.Records.{Point, RecordOpening}
use ocash_sdk.Crypto.Openings.{create_record_opening, create_record_opening_fields}
use ocash_sdk.Planner.Services.{
  amount_too_small, insufficient_balance, opening_failed, PlanError, TokenMetadata, Services,
}
use ocash_sdk.Types.{UtxoRecord}
use ocash_sdk.Planner.Plan.{
  total_amount, required_for, sent_of, or_throw, TransferPlan, TransferRequest, change_opening,
  build_transfer_plan,
}

-- The change of a plan: what the inputs hold beyond what is required, as a real opening to the
-- owner if there is any.
pub record IsChange (token : TokenMetadata) (owner_pk : Point) (change : ℤ) (ro : RecordOpening)
    : Type 0 where
  pub amount : ro.asset_amount ≡ change
  pub asset : ro.asset_id ≡ token.id
  pub owner : ro.user_pk ≡ owner_pk

-- What a transfer plan promises: the first output is the amount that is sent, which is not negative,
-- and the outputs with the relayer's fee add up to the inputs.
pub record Conserves (inputs : List UtxoRecord) (p : TransferPlan) : Type 0 where
  pub inputs_used : p.selected_inputs ≡ inputs
  pub sent : p.output0.asset_amount ≡ p.send_amount
  pub nonneg : pos 0 ≤ℤ p.send_amount
  pub spent : p.selected_sum ≡ total_amount inputs
  pub settled :
      (p.output0.asset_amount +ℤ p.output1.asset_amount +ℤ p.relayer_fee ≡ p.selected_sum)
      ⊎ (p.output0.asset_amount +ℤ p.relayer_fee ≡ p.selected_sum)

pub or_throw-eq_ok :
    {A : Type 0} (o : Option A) (e : PlanError) {a : A} → or_throw o e ≡ ok a → o ≡ some a
or_throw-eq_ok (some a) e h = cc
or_throw-eq_ok none e h = cc

-- The amounts of a plan, with the change and without.
settle :
    (includes_fee : Bool) (amount fee selected_sum : ℤ) (ro : RecordOpening) {token : TokenMetadata}
    {pk : Point}
    → let change = selected_sum -ℤ required_for includes_fee amount fee in
      (ltb_ℤ (pos 0) change ≡ true → IsChange token pk change ro)
      → required_for includes_fee amount fee ≤ℤ selected_sum
      → (sent_of includes_fee amount fee +ℤ ro.asset_amount +ℤ fee ≡ selected_sum)
        ⊎ (sent_of includes_fee amount fee +ℤ fee ≡ selected_sum)
settle includes_fee amount fee selected_sum ro changed covered =
    let change = selected_sum -ℤ required_for includes_fee amount fee in
    elim (Bool-cases (ltb_ℤ (pos 0) change)) [
      | inl positive ↦ inl (rw ((changed positive).amount) (with_change includes_fee))
      | inr even ↦ inr (no_change includes_fee even covered)
    ]
  where
    with_change :
        (b : Bool)
        → sent_of b amount fee +ℤ (selected_sum -ℤ required_for b amount fee) +ℤ fee ≡ selected_sum
    with_change true = omega int_laws
    with_change false = omega int_laws

    no_change :
        (b : Bool)
        → ltb_ℤ (pos 0) (selected_sum -ℤ required_for b amount fee) ≡ false
        → required_for b amount fee ≤ℤ selected_sum
        → sent_of b amount fee +ℤ fee ≡ selected_sum
    no_change true h le = grind int_laws
    no_change false h le = grind int_laws

module _ (s : Services) where
  pub change_opening-IsChange :
      (token : TokenMetadata) (owner_pk : Point) (change : ℤ) (output : ℕ) (ro : RecordOpening)
      → change_opening s token owner_pk change output ≡ ok ro
      → ltb_ℤ (pos 0) change ≡ true
      → IsChange token owner_pk change ro
  unfolding change_opening
  change_opening-IsChange token owner_pk change output ro h positive =
      let drawn = or_throw-eq_ok _ _ (rw (positive) at h) in
      let fields =
        create_record_opening_fields token.id change owner_pk none false (s.blinding_draws output)
          ro drawn in
      record { amount = fields.1; asset = fields.0; owner = fields.2 }

  -- Every transfer plan that is built conserves the amounts of its inputs.
  pub build_transfer_plan-Ensures :
      (r : TransferRequest) → Ensures (Conserves r.selected_inputs) (build_transfer_plan s r)
  unfolding build_transfer_plan
  build_transfer_plan-Ensures r =
      let required = required_for r.pay_includes_fee r.requested_amount r.relayer_fee in
      let send_amount = sent_of r.pay_includes_fee r.requested_amount r.relayer_fee in
      let selected_sum = total_amount r.selected_inputs in
      let change = selected_sum -ℤ required in
      let P = Conserves r.selected_inputs in
      let opened = λ (pk : Point).
        create_record_opening r.token.id send_amount pk none false (s.blinding_draws 0) in
      Ensures-throw_if P (ltb_ℤ send_amount (pos 0)) amount_too_small _ λ enough.
        Ensures-throw_if P (ltb_ℤ selected_sum required) insufficient_balance _ λ covered.
          Ensures-bind P (s.address_to_user_pk r.to) _ λ pk _.
            Ensures-bind P (or_throw (opened pk) opening_failed) _ λ output0 made.
              Ensures-bind P (change_opening s r.token r.owner_pk change 1) _ λ output1 changed.
                Ensures-bind P (s.dummy_record_opening 2) _ λ output2 _.
                  Ensures-bind P (s.create_memo output0) _ λ memo0 _.
                    Ensures-bind P (s.create_memo output1) _ λ memo1 _.
                      Ensures-bind P (s.create_memo output2) _ λ memo2 _.
                        Ensures-bind P
                          (s.transfer_proof_binding r.relayer (memo0 ∷ memo1 ∷ memo2 ∷ [])) _
                          λ binding _.
                            let sent =
                              (create_record_opening_fields r.token.id send_amount pk none false
                                (s.blinding_draws 0) output0
                                (or_throw-eq_ok (opened pk) opening_failed made)).1 in
                            record {
                              inputs_used = refl;
                              sent = sent;
                              nonneg = ground arith;
                              spent = refl;
                              settled = rw sent (
                                  settle r.pay_includes_fee r.requested_amount r.relayer_fee
                                    selected_sum output1
                                    (change_opening-IsChange r.token r.owner_pk change 1 output1
                                      changed)
                                    (ground arith));
                            }
