-- ===== src/Planner/Select/Withdraw.antt =====
-- The choice of the UTXO that a withdrawal burns.
use ocash_sdk.Prelude.{Option, none, some, find?, inl, inr, List, [], ◌∷◌, All, arith, Bool-cases}
use mathlib.Core.List.{Mem, mem-cons_self, mem-cons_of_mem}
use mathlib.Core.List.Perm
use ocash_sdk.Prelude.Int.{ℤ, ◌≤ℤ◌, ◌<ℤ◌, leb_ℤ}
use ocash_sdk.Prelude.Sorting.{sort, sort-perm, All-sort_inverse}
use ocash_sdk.Types.{UtxoRecord}
use ocash_sdk.Planner.Select.{select_withdraw_input, larger_first}
use ocash_sdk.Planner.Select.Optimal.{AtMost, IsDescending, sort-IsDescending}

-- What a withdrawal's choice promises: one of the UTXOs, the largest, which covers the amount; or none
-- of them does.
abbrev pub WithdrawChoice : List UtxoRecord → ℤ → Option UtxoRecord → Type 0
WithdrawChoice us required (some u) = Mem u us × (required ≤ℤ u.amount) × All (AtMost u.amount) us
WithdrawChoice us required none = All (λ u. u.amount <ℤ required) us

WithdrawChoice-cons :
    (u : UtxoRecord) (us : List UtxoRecord) (required : ℤ) (o : Option UtxoRecord)
    → u.amount <ℤ required
    → WithdrawChoice us required o
    → WithdrawChoice (u ∷ us) required o
WithdrawChoice-cons u us required none small h = (small, h)
WithdrawChoice-cons u us required (some v) small (member, covers, largest) =
    (mem-cons_of_mem u member, covers, (omega (arith, covers), largest))

find-WithdrawChoice :
    (us : List UtxoRecord) (required : ℤ)
    → IsDescending us
    → WithdrawChoice us required (find? (λ u. leb_ℤ required u.amount) us)
find-WithdrawChoice [] required h = tt
find-WithdrawChoice (u ∷ us) required h = elim (Bool-cases (leb_ℤ required u.amount)) [
  | inl covers ↦ rw (covers) (mem-cons_self, ground arith, (omega arith, h.0))
  | inr small ↦
      rw (small)
        (WithdrawChoice-cons u us required _ (ground arith) (find-WithdrawChoice us required h.1))
]

WithdrawChoice-unsort :
    (us : List UtxoRecord) (required : ℤ) (o : Option UtxoRecord)
    → WithdrawChoice (sort larger_first us) required o
    → WithdrawChoice us required o
WithdrawChoice-unsort us required none h = All-sort_inverse larger_first _ us h
WithdrawChoice-unsort us required (some u) (member, covers, largest) = (
  (Perm.mem_iff (sort-perm larger_first us)).0 member,
  covers,
  All-sort_inverse larger_first _ us largest,
)

-- `selectWithdrawInput` returns one of the given UTXOs, which covers the amount and is at least as large
-- as each of them, and returns nothing only if every UTXO is below the amount.
pub select_withdraw_input_lem :
    (us : List UtxoRecord) (required : ℤ)
    → WithdrawChoice us required (select_withdraw_input us required)
unfolding select_withdraw_input
select_withdraw_input_lem us required =
    WithdrawChoice-unsort us required _
      (find-WithdrawChoice (sort larger_first us) required (sort-IsDescending us))
