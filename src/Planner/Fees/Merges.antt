-- ===== src/Planner/Fees/Merges.antt =====
-- `recordsFee`: the merge rounds end, keep the total, and their number is what the SDK charges for.
use ocash_sdk.Prelude.{
  ℕ, zero, suc, ◌+◌, ◌-◌, ◌/◌, ◌≤◌, ◌<◌, max, ◌≡◌, refl, ◌∙◌, ap, inl, inr, true, false, List, [],
  ◌∷◌, length, take, drop, take-append-drop, length-drop, length-append, arith, Bool-cases,
}
use ocash_sdk.Prelude.Int.{ℤ, sum_by-append, int_laws}
use ocash_sdk.Planner.Fees.{
  Action, transfer, withdraw, needs_merge, merge_round, merge_loop, total_of,
}

-- A merge round keeps the total of the records.
pub total_of-merge_round : (records : List ℤ) → total_of (merge_round records) ≡ total_of records
total_of-merge_round records =
    let whole = ap total_of (take-append-drop 3 records) in
    let parts = sum_by-append (λ r. r) (take 3 records) (drop 3 records) in
    let ends = sum_by-append (λ r. r) (drop 3 records) (total_of (take 3 records) ∷ []) in
    ends ∙ rw (← whole, parts) (omega int_laws)

length-merge_round : (records : List ℤ) → length (merge_round records) ≡ length records - 3 + 1
length-merge_round records =
    omega (
      arith,
      length-append (drop 3 records) (total_of (take 3 records) ∷ []),
      length-drop 3 records,
    )

-- Any number of merge rounds keeps the total of the records.
pub total_of-merge_loop :
    (fuel : ℕ) (action : Action) (records : List ℤ) (fee_count : ℕ)
    → total_of (merge_loop fuel action records fee_count).0 ≡ total_of records
unfolding merge_loop
total_of-merge_loop zero action records fee_count = refl
total_of-merge_loop (suc fuel) action records fee_count =
    elim (Bool-cases (needs_merge action records)) [
      | inl merges ↦
          rw (merges, merge_loop)
            (total_of-merge_loop fuel action (merge_round records) (fee_count + 1)
              ∙ total_of-merge_round records)
      | inr done ↦ rw (done, merge_loop)
    ]

needs_merge-lt :
    (action : Action) (n : ℕ) (records : List ℤ)
    → needs_merge action records ≡ true
    → length records ≤ suc n
    → length records - 3 + 1 ≤ n
needs_merge-lt transfer n records h le = ground arith
needs_merge-lt withdraw n records h le = ground arith

-- With the length of the list as fuel (or more), the merge loop ends by its own test.
pub merge_loop_ends :
    (fuel : ℕ) (action : Action) (records : List ℤ) (fee_count : ℕ)
    → length records ≤ fuel
    → needs_merge action (merge_loop fuel action records fee_count).0 ≡ false
unfolding merge_loop
merge_loop_ends zero transfer [] fee_count h = refl
merge_loop_ends zero withdraw [] fee_count h = refl
merge_loop_ends zero action (r ∷ records) fee_count h = absurd (omega arith)
merge_loop_ends (suc fuel) action records fee_count h =
    elim (Bool-cases (needs_merge action records)) [
      | inl merges ↦
          rw (merges, merge_loop)
            (merge_loop_ends fuel action (merge_round records) (fee_count + 1)
              (rw (length-merge_round records) (needs_merge-lt action fuel records merges h)))
      | inr done ↦ rw (done, merge_loop) done
    ]

-- The transactions that `n` records take: for a transfer, which spends up to three of them, and for
-- a withdrawal, which spends one.
abbrev pub transactions : Action → ℕ → ℕ
transactions transfer n = max 1 (n / 2)
transactions withdraw n = 1 + n / 2

transactions-merge :
    (action : Action) (records : List ℤ)
    → needs_merge action records ≡ true
    → transactions action (length records - 3 + 1) + 1 ≡ transactions action (length records)
transactions-merge transfer records h = let long : 3 < length records = ground arith in omega arith
transactions-merge withdraw records h = let long : 1 < length records = ground arith in omega arith

transactions-done :
    (action : Action) (records : List ℤ)
    → needs_merge action records ≡ false
    → 0 < length records
    → transactions action (length records) ≡ 1
transactions-done transfer records h some_left =
    let short : length records ≤ 3 = ground arith in omega arith
transactions-done withdraw records h some_left =
    let short : length records ≤ 1 = ground arith in omega arith

-- For a list that is not empty, with its length as fuel, the count goes from `fee_count` to
-- `fee_count` and the transactions that so many records take, less one.
pub merge_loop-count :
    (fuel : ℕ) (action : Action) (records : List ℤ) (fee_count : ℕ)
    → length records ≤ fuel
    → 0 < length records
    → (merge_loop fuel action records fee_count).1 + 1
      ≡ fee_count + transactions action (length records)
unfolding merge_loop
merge_loop-count zero action [] fee_count h some_left = absurd (omega arith)
merge_loop-count zero action (r ∷ records) fee_count h some_left = absurd (omega arith)
merge_loop-count (suc fuel) action records fee_count h some_left =
    elim (Bool-cases (needs_merge action records)) [
      | inl merges ↦
          let shorter = needs_merge-lt action fuel records merges h in
          let len = length-merge_round records in
          let ih =
            merge_loop-count fuel action (merge_round records) (fee_count + 1) (omega arith)
              (omega arith) in
          let count = transactions-merge action records merges in
          rw (merges, merge_loop) (rw len at ih ∙ omega arith)
      | inr done ↦
          let count = transactions-done action records done some_left in
          rw (done, merge_loop, count)
    ]
