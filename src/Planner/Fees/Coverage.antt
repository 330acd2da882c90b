-- ===== src/Planner/Fees/Coverage.antt =====
-- `estimateRecords`: which records it pays with, and when it stops adding more.
use ocash_sdk.Prelude.{
  ◌≡◌, refl, sym, ◌∙◌, ap, ◌⊎◌, inl, inr, Bool, true, false, List, [], ◌∷◌, ◌++◌, not, ◌||◌, arith,
  Bool-cases,
}
use mathlib.Core.List.{append-nil, append_assoc}
use ocash_sdk.Prelude.Int.{ℤ, pos, ◌<ℤ◌, eqb_ℤ}
use ocash_sdk.Prelude.Sorting.{sort}
use ocash_sdk.Planner.Fees.{
  Action, transfer, RelayerFee, FeeInfo, Estimates, records_fee, fee_of, exceeds_pay, estimate_step,
  estimate_loop, estimate_records, descending, settle_transfer, max_uint256,
}

module _ (bps expected : ℤ) (action : Action) (f : RelayerFee) (with_fee : Bool) where
  -- The test by which a round adds a record.
  abbrev pub takes_more : FeeInfo → Bool
  takes_more info = eqb_ℤ info.cost (pos 0) || not (exceeds_pay bps expected action f with_fee info)

-- After the records `seen`: what is paid with is a part of them from the front, its breakdown is up
-- to date, and a record was left out only because the amount was covered.
pub record Covers (bps expected : ℤ) (action : Action) (f : RelayerFee) (with_fee : Bool)
    (seen : List ℤ) (e : Estimates) : Type 0 where
  pub unused : List ℤ
  pub prefix : e.pay_records ++ unused ≡ seen
  pub current : e.pay_info ≡ fee_of bps expected action f with_fee e.pay_records
  pub tried :
      (takes_more bps expected action f with_fee e.pay_info ≡ false) ⊎ (e.pay_records ≡ seen)
  pub largest : e.max_records ≡ seen

tried_all : {b : Bool} {xs ys : List ℤ} → b ≡ true → (b ≡ false) ⊎ (xs ≡ ys) → xs ≡ ys
tried_all h (inl k) = cc
tried_all h (inr e) = e

module _ (bps expected : ℤ) (action : Action) (f : RelayerFee) (with_fee : Bool) where
  estimate_step-Covers :
      (seen : List ℤ) (e : Estimates) (r : ℤ)
      → Covers bps expected action f with_fee seen e
      → Covers bps expected action f with_fee
          (seen ++ r ∷ [])
          (estimate_step bps expected action f with_fee e r)
  estimate_step-Covers seen e r c =
      elim (Bool-cases (takes_more bps expected action f with_fee e.pay_info)) [
        | inl more ↦
            let all_seen = tried_all more c.tried in
            rw (more) (record {
              unused = [];
              prefix = append-nil (e.pay_records ++ r ∷ []) ∙ ap (λ l. l ++ r ∷ []) all_seen;
              current = refl;
              tried = inr (ap (λ l. l ++ r ∷ []) all_seen);
              largest = ap (λ l. l ++ r ∷ []) c.largest;
            })
        | inr enough ↦ rw (enough) (record {
          unused = c.unused ++ r ∷ [];
          prefix =
              sym (append_assoc e.pay_records c.unused (r ∷ [])) ∙ ap (λ l. l ++ r ∷ []) c.prefix;
          current = c.current;
          tried = inl enough;
          largest = ap (λ l. l ++ r ∷ []) c.largest;
        })
      ]

  estimate_loop-Covers :
      (rest seen : List ℤ) (e : Estimates)
      → Covers bps expected action f with_fee seen e
      → Covers bps expected action f with_fee
          (seen ++ rest)
          (estimate_loop bps expected action f with_fee rest e)
  unfolding estimate_loop
  estimate_loop-Covers [] seen e c = rw (append-nil seen) c
  estimate_loop-Covers (r ∷ rest) seen e c =
      let step = estimate_step-Covers seen e r c in
      rw (append_assoc seen (r ∷ []) rest) at (
        estimate_loop-Covers rest (seen ++ r ∷ [])
          (estimate_step bps expected action f with_fee e r) step)

  -- The estimate pays with a front part of the records, largest first; its breakdown is that of
  -- these records; it leaves records out only if the amount is covered at a cost; and the records
  -- of the largest payment are all of them.
  pub estimate_records-Covers :
      (records : List ℤ)
      → Covers bps expected action f with_fee
          (sort descending records)
          (estimate_records bps expected action f with_fee records)
  unfolding estimate_records
  estimate_records-Covers records =
      estimate_loop-Covers (sort descending records) [] _
        (record { unused = []; prefix = refl; current = refl; tried = inr refl; largest = refl })

transfer_output :
    (bps expected : ℤ) (f : RelayerFee) (records : List ℤ)
    → eqb_ℤ max_uint256 expected ≡ false
    → (records_fee bps records expected transfer f false).output_amount ≡ pos 0
unfolding records_fee settle_transfer
transfer_output bps expected f [] finite = refl
transfer_output bps expected f (r ∷ rest) finite = rw (finite)

-- For a transfer of a positive amount, not the largest one, on top of the fee, the estimate pays
-- with every record, however few cover the amount: the breakdown of such a transfer has no output,
-- so that the amount never counts as paid.
pub estimate_records-transfer_all :
    (bps expected : ℤ) (f : RelayerFee) (records : List ℤ)
    → pos 0 <ℤ expected
    → eqb_ℤ max_uint256 expected ≡ false
    → (estimate_records bps expected transfer f false records).pay_records ≡ sort descending records
estimate_records-transfer_all bps expected f records positive finite =
    let e = estimate_records bps expected transfer f false records in
    let c = estimate_records-Covers bps expected transfer f false records in
    let out =
      ap (λ (i : FeeInfo). i.output_amount) c.current
      ∙ transfer_output bps expected f e.pay_records finite in
    tried_all (ground arith) c.tried
