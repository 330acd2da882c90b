-- ===== src/Planner/Select.antt =====
-- src/planner/planner.ts: which UTXOs pay (`selectTransferInputs`, `selectWithdrawInput`,
-- `Planner.selectMergeInputs`).
pub mod Optimal
pub mod Withdraw
use ocash_sdk.Prelude.{
  ℕ, suc, ◌+◌, Bool, true, false, ◌||◌, List, [], ◌∷◌, Option, length, take, find?, leb,
  if◌then◌else◌,
}
use ocash_sdk.Prelude.Int.{ℤ, pos, ◌+ℤ◌, ltb_ℤ, leb_ℤ}
use ocash_sdk.Prelude.Sorting.{sort}
use ocash_sdk.Types.{UtxoRecord}

-- The comparator `b.amount > a.amount ? 1 : …`: `a` comes first if it is larger.
abbrev pub larger_first : UtxoRecord → UtxoRecord → Bool
larger_first a b = ltb_ℤ b.amount a.amount

abbrev pub smaller_first : UtxoRecord → UtxoRecord → Bool
smaller_first a b = ltb_ℤ a.amount b.amount

pub record Selection : Type 0 where
  pub selected : List UtxoRecord
  pub sum : ℤ

-- The `for` over the sorted list: the two variables after the loop, from their values before it.
-- `count` is `selected.length`.
unfoldable pub select_loop : List UtxoRecord → ℤ → ℕ → ℕ → ℤ → Selection
select_loop [] required max_inputs count sum = record { selected = []; sum = sum }
select_loop (utxo ∷ rest) required max_inputs count sum =
    let more = select_loop rest required max_inputs (count + 1) (sum +ℤ utxo.amount) in
    if leb max_inputs (count + 1) || leb_ℤ required (sum +ℤ utxo.amount)
    then record { selected = utxo ∷ []; sum = sum +ℤ utxo.amount }
    else record { selected = utxo ∷ more.selected; sum = more.sum }

unfoldable pub select_transfer_inputs : List UtxoRecord → ℤ → ℕ → Selection
unfolding select_loop
select_transfer_inputs utxos required max_inputs =
    select_loop (sort larger_first utxos) required max_inputs 0 (pos 0)

unfoldable pub select_withdraw_input : List UtxoRecord → ℤ → Option UtxoRecord
select_withdraw_input utxos required =
    find? (λ u. leb_ℤ required u.amount) (sort larger_first utxos)

unfoldable pub select_merge_inputs : List UtxoRecord → ℕ → List UtxoRecord
select_merge_inputs utxos count = take count (sort smaller_first utxos)
