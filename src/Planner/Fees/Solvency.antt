-- ===== src/Planner/Fees/Solvency.antt =====
-- `recordsFee`: the fee breakdown adds up, and its cost is covered by the records.
use ocash_sdk.Prelude.{
  ℕ, ◌-◌, ◌≡◌, ◌≢◌, refl, ◌∙◌, inl, inr, Bool, List, [], ◌∷◌, length, All, arith, Bool-cases,
  if◌then◌else◌,
}
use ocash_sdk.Prelude.Int.{ℤ, pos, ◌+ℤ◌, ◌*ℤ◌, ◌≤ℤ◌, int_laws, eqb_ℤ, ltb_ℤ, ◌-ℤ◌, ◌/ℤ◌}
use ocash_sdk.Planner.Fees.{
  Action, transfer, withdraw, RelayerFee, FeeInfo, merge_loop, settle, total_of, settle_transfer,
  settle_withdraw, burn, unpayable, records_fee, max_uint256, bps_base,
}
use ocash_sdk.Planner.Fees.Merges.{total_of-merge_loop, merge_loop-count, transactions}

settle-total :
    (bps expected : ℤ) (action : Action) (f : RelayerFee) (with_fee : Bool) (st : List ℤ × ℕ)
    → ((settle bps expected action f with_fee st).total ≡ total_of st.0)
      × ((settle bps expected action f with_fee st).fee_count ≡ st.1)
unfolding settle_transfer settle_withdraw burn unpayable
settle-total bps expected transfer f with_fee st = (refl, refl)
settle-total bps expected withdraw f with_fee st = ground arith

-- For any records the total is theirs, and the transactions counted are those that the merges and
-- the final payment take.
pub records_fee-totals :
    (bps : ℤ) (r : ℤ) (rest : List ℤ) (expected : ℤ) (action : Action) (f : RelayerFee)
    (with_fee : Bool)
    → let info = records_fee bps (r ∷ rest) expected action f with_fee in
      (info.total ≡ total_of (r ∷ rest))
      × (info.fee_count ≡ transactions action (length (r ∷ rest)))
unfolding records_fee
records_fee-totals bps r rest expected action f with_fee =
    let st = merge_loop (length (r ∷ rest)) action (r ∷ rest) 1 in
    let settled = settle-total bps expected action f with_fee st in
    let count =
      merge_loop-count (length (r ∷ rest)) action (r ∷ rest) 1 (omega arith) (omega arith) in
    (
      settled.0 ∙ total_of-merge_loop (length (r ∷ rest)) action (r ∷ rest) 1,
      settled.1 ∙ omega arith,
    )

settle-cost :
    (bps expected : ℤ) (action : Action) (f : RelayerFee) (with_fee : Bool) (st : List ℤ × ℕ)
    → pos 0 ≤ℤ total_of st.0
    → (settle bps expected action f with_fee st).cost ≤ℤ total_of st.0
unfolding settle_transfer settle_withdraw burn unpayable
settle-cost bps expected transfer f with_fee st h = ground arith
settle-cost bps expected withdraw f with_fee st h = ground arith

total_of-nonneg : (records : List ℤ) → All (λ r. pos 0 ≤ℤ r) records → pos 0 ≤ℤ total_of records
total_of-nonneg [] h = omega arith
total_of-nonneg (r ∷ rest) h = omega (int_laws, h.0, total_of-nonneg rest h.1)

-- For records that are not negative, the cost that `recordsFee` reports is at most their sum.
pub records_fee-cost-le :
    (bps : ℤ) (records : List ℤ) (expected : ℤ) (action : Action) (f : RelayerFee) (with_fee : Bool)
    → All (λ r. pos 0 ≤ℤ r) records
    → (records_fee bps records expected action f with_fee).cost ≤ℤ total_of records
unfolding records_fee
records_fee-cost-le bps [] expected action f with_fee h = omega arith
records_fee-cost-le bps (r ∷ rest) expected action f with_fee h =
    let st = merge_loop (length (r ∷ rest)) action (r ∷ rest) 1 in
    let kept = total_of-merge_loop (length (r ∷ rest)) action (r ∷ rest) 1 in
    rw (← kept)
      (settle-cost bps expected action f with_fee st (rw kept (total_of-nonneg (r ∷ rest) h)))

-- What a payable withdrawal's breakdown satisfies.
pub record Balances (info : FeeInfo) : Type 0 where
  pub split : info.cost ≡ info.output_amount +ℤ info.fee
  pub fees : info.fee ≡ info.relay_fee +ℤ info.protocol_fee
  pub nonneg : pos 0 ≤ℤ info.output_amount

+ℤ-regroup : (a b c : ℤ) → a +ℤ (b +ℤ c) ≡ a +ℤ c +ℤ b
+ℤ-regroup a b c = omega int_laws

burn-Balances :
    (total : ℤ) (n : ℕ) (merge_fee pay bps base output : ℤ)
    → pos 0 ≤ℤ output
    → (burn total n merge_fee pay bps base output).cost ≢ pos 0
    → Balances (burn total n merge_fee pay bps base output)
unfolding burn
burn-Balances total n merge_fee pay bps base output h payable = record {
  split = ground arith;
  fees = +ℤ-regroup merge_fee (base *ℤ bps /ℤ pos 10000) pay;
  nonneg = h;
}

settle_withdraw-Balances :
    (bps expected : ℤ) (f : RelayerFee) (with_fee : Bool) (records : List ℤ) (n : ℕ)
    → (settle_withdraw bps expected f with_fee records n).cost ≢ pos 0
    → Balances (settle_withdraw bps expected f with_fee records n)
unfolding settle_withdraw unpayable
settle_withdraw-Balances bps expected f with_fee records n payable =
    let total = total_of records in
    let fee = pos (n - 1) *ℤ f.for_transfer in
    let max_base = (total -ℤ fee) *ℤ bps_base /ℤ (bps_base +ℤ bps) in
    let max_output = max_base -ℤ f.for_withdraw in
    let base = (expected -ℤ fee) *ℤ bps_base /ℤ (bps_base +ℤ bps) in
    let output = if with_fee then base -ℤ f.for_withdraw else expected in
    elim (Bool-cases (eqb_ℤ max_uint256 expected)) [
      | inl most ↦ elim (Bool-cases (ltb_ℤ max_output (pos 0))) [
        | inl low ↦ absurd (payable (rw (most, low)))
        | inr high ↦
            rw (most, high)
              (burn-Balances total n fee f.for_withdraw bps max_base max_output (ground arith)
                (rw (most, high) at payable))
      ]
      | inr exact ↦ elim (Bool-cases (ltb_ℤ total expected)) [
        | inl short ↦ absurd (payable (rw (exact, short)))
        | inr enough ↦ elim (Bool-cases (ltb_ℤ output (pos 0))) [
          | inl low ↦ absurd (payable (rw (exact, enough, low)))
          | inr high ↦
              rw (exact, enough, high)
                (burn-Balances total n fee f.for_withdraw bps (output +ℤ f.for_withdraw) output
                  (ground arith) (rw (exact, enough, high) at payable))
        ]
      ]
    ]

-- A withdrawal with a cost is balanced: the cost is the output and the fee, the fee is the relayer's
-- and the protocol's share, and the output is not negative.
pub records_fee-Balances :
    (bps : ℤ) (records : List ℤ) (expected : ℤ) (f : RelayerFee) (with_fee : Bool)
    → (records_fee bps records expected withdraw f with_fee).cost ≢ pos 0
    → Balances (records_fee bps records expected withdraw f with_fee)
unfolding records_fee
records_fee-Balances bps [] expected f with_fee payable = absurd (payable refl)
records_fee-Balances bps (r ∷ rest) expected f with_fee payable =
    let st = merge_loop (length (r ∷ rest)) withdraw (r ∷ rest) 1 in
    settle_withdraw-Balances bps expected f with_fee st.0 st.1 payable

settle_transfer-max :
    (f : RelayerFee) (with_fee : Bool) (records : List ℤ) (n : ℕ)
    → let info = settle_transfer max_uint256 f with_fee records n in
      info.cost ≢ pos 0
      → (info.cost ≡ info.total)
        × (info.output_amount +ℤ info.fee ≡ info.total)
        × (pos 0 ≤ℤ info.output_amount)
unfolding settle_transfer
settle_transfer-max f with_fee records n payable =
    let total = total_of records in
    let fee = pos n *ℤ f.for_transfer in
    elim (Bool-cases (ltb_ℤ (total -ℤ fee) (pos 0))) [
      | inl low ↦ absurd (payable (ground arith))
      | inr high ↦ rw (high) (ground arith, omega int_laws, ground arith)
    ]

-- The largest transfer spends everything: with a cost, it is the total, and the output and the fee
-- add up to it.
pub records_fee-max_transfer :
    (bps : ℤ) (records : List ℤ) (f : RelayerFee) (with_fee : Bool)
    → (records_fee bps records max_uint256 transfer f with_fee).cost ≢ pos 0
    → let info = records_fee bps records max_uint256 transfer f with_fee in
      (info.cost ≡ total_of records)
      × (info.output_amount +ℤ info.fee ≡ total_of records)
      × (pos 0 ≤ℤ info.output_amount)
unfolding records_fee
records_fee-max_transfer bps [] f with_fee payable = absurd (payable refl)
records_fee-max_transfer bps (r ∷ rest) f with_fee payable =
    let st = merge_loop (length (r ∷ rest)) transfer (r ∷ rest) 1 in
    let kept = total_of-merge_loop (length (r ∷ rest)) transfer (r ∷ rest) 1 in
    let whole = (settle-total bps max_uint256 transfer f with_fee st).0 in
    rw (← kept, ← whole) (settle_transfer-max f with_fee st.0 st.1 payable)
