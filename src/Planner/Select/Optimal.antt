-- ===== src/Planner/Select/Optimal.antt =====
-- The greedy choice of transfer inputs is the best one: if it does not cover the amount, then no
-- choice of at most `max_inputs` UTXOs does.
use Prim.Native.Nat.{ℕ, zero, suc}
use ocash_sdk.Prelude.{
  ◌+◌, ◌≤◌, ◌≡◌, refl, inl, inr, List, [], ◌∷◌, length, take, take-nil, All, choose, Bool, true,
  false, arith, Bool-cases, ◌||◌, leb, ap, ◌∙◌,
}
use ocash_sdk.Prelude.Int.{ℤ, pos, ◌+ℤ◌, ◌≤ℤ◌, ◌<ℤ◌, leb_ℤ, sum_by, int_laws}
use ocash_sdk.Prelude.Sorting.{sort, insert_sorted, All-sort}
use ocash_sdk.Types.{UtxoRecord}
use ocash_sdk.Planner.Select.{larger_first, select_loop, select_transfer_inputs}

abbrev pub total : List UtxoRecord → ℤ
total = sum_by (λ u. u.amount)

-- `u.amount` is not negative.
abbrev pub IsAmount : UtxoRecord → Type 0
IsAmount u = pos 0 ≤ℤ u.amount

abbrev pub AtMost : ℤ → UtxoRecord → Type 0
AtMost x u = u.amount ≤ℤ x

abbrev pub IsDescending : List UtxoRecord → Type 0
IsDescending [] = Unit
IsDescending (u ∷ us) = All (AtMost u.amount) us × IsDescending us

AtMost-mono : (x y : ℤ) (us : List UtxoRecord) → x ≤ℤ y → All (AtMost x) us → All (AtMost y) us
AtMost-mono x y [] le h = tt
AtMost-mono x y (u ∷ us) le h = (omega arith, AtMost-mono x y us le h.1)

All-insert :
    (x : ℤ) (u : UtxoRecord) (us : List UtxoRecord)
    → u.amount ≤ℤ x
    → All (AtMost x) us
    → All (AtMost x) (insert_sorted larger_first u us)
All-insert x u [] le h = (le, tt)
All-insert x u (v ∷ us) le h = elim (Bool-cases (larger_first v u)) [
  | inl larger ↦ rw (larger) (h.0, All-insert x u us le h.1)
  | inr here ↦ rw (here) (le, h)
]

insert-IsDescending :
    (u : UtxoRecord) (us : List UtxoRecord)
    → IsDescending us
    → IsDescending (insert_sorted larger_first u us)
insert-IsDescending u [] h = (tt, tt)
insert-IsDescending u (v ∷ us) h = elim (Bool-cases (larger_first v u)) [
  | inl larger ↦
      rw (larger) (All-insert v.amount u us (ground arith) h.0, insert-IsDescending u us h.1)
  | inr here ↦ rw (here) ((ground arith, AtMost-mono v.amount u.amount us (ground arith) h.0), h)
]

pub sort-IsDescending : (us : List UtxoRecord) → IsDescending (sort larger_first us)
sort-IsDescending [] = tt
sort-IsDescending (u ∷ us) = insert-IsDescending u (sort larger_first us) (sort-IsDescending us)

-- One more element adds at most a bound of all of them.
total-take-suc :
    (k : ℕ) (x : ℤ) (us : List UtxoRecord)
    → pos 0 ≤ℤ x
    → All (AtMost x) us
    → total (take (suc k) us) ≤ℤ x +ℤ total (take k us)
total-take-suc zero x [] nonneg h = omega int_laws
total-take-suc zero x (u ∷ us) nonneg h = omega (int_laws, h.0)
total-take-suc (suc k) x [] nonneg h = omega int_laws
total-take-suc (suc k) x (u ∷ us) nonneg h =
    let ih = total-take-suc k x us nonneg h.1 in omega (int_laws, ih)

-- A larger list has a larger prefix sum.
total-take-insert :
    (k : ℕ) (u : UtxoRecord) (us : List UtxoRecord)
    → IsAmount u
    → IsDescending us
    → total (take k us) ≤ℤ total (take k (insert_sorted larger_first u us))
total-take-insert zero u us nonneg h = omega arith
total-take-insert (suc k) u [] nonneg h = rw (take-nil {A = UtxoRecord} k) (omega int_laws)
total-take-insert (suc k) u (v ∷ us) nonneg h = elim (Bool-cases (larger_first v u)) [
  | inl larger ↦ rw (larger) (omega (int_laws, total-take-insert k u us nonneg h.1))
  | inr here ↦ rw (here) (
      total-take-suc k u.amount (v ∷ us) nonneg
        (ground arith, AtMost-mono v.amount u.amount us (ground arith) h.0))
]

-- The new element and a prefix of the others are within the prefix that is one longer.
total-insert-take :
    (k : ℕ) (u : UtxoRecord) (us : List UtxoRecord)
    → u.amount +ℤ total (take k us) ≤ℤ total (take (suc k) (insert_sorted larger_first u us))
total-insert-take zero u [] = omega int_laws
total-insert-take (suc k) u [] = omega int_laws
total-insert-take zero u (v ∷ us) = elim (Bool-cases (larger_first v u)) [
  | inl larger ↦ rw (larger) (let le : u.amount ≤ℤ v.amount = ground arith in omega int_laws)
  | inr here ↦ rw (here) (omega int_laws)
]
total-insert-take (suc k) u (v ∷ us) = elim (Bool-cases (larger_first v u)) [
  | inl larger ↦ rw (larger) (omega (int_laws, total-insert-take k u us))
  | inr here ↦ rw (here) (omega arith)
]

total-take-nonneg : (k : ℕ) (us : List UtxoRecord) → All IsAmount us → pos 0 ≤ℤ total (take k us)
total-take-nonneg zero us h = omega arith
total-take-nonneg (suc k) [] h = omega arith
total-take-nonneg (suc k) (u ∷ us) h = omega (int_laws, h.0, total-take-nonneg k us h.1)

total-choose :
    (k : ℕ) (mask : List Bool) (us : List UtxoRecord)
    → All IsAmount us
    → length (choose mask us) ≤ k
    → total (choose mask us) ≤ℤ total (take k (sort larger_first us))
total-choose k [] us h le =
    total-take-nonneg k (sort larger_first us) (All-sort larger_first IsAmount us h)
total-choose k (b ∷ mask) [] h le = total-take-nonneg k [] tt
total-choose zero (true ∷ mask) (u ∷ us) h le = absurd (omega arith)
total-choose (suc k) (true ∷ mask) (u ∷ us) h le =
    let ih = total-choose k mask us h.1 (omega arith) in
    omega (int_laws, ih, total-insert-take k u (sort larger_first us))
total-choose k (false ∷ mask) (u ∷ us) h le =
    let ih = total-choose k mask us h.1 le in
    omega (int_laws, ih, total-take-insert k u (sort larger_first us) h.0 (sort-IsDescending us))

select_loop-sum :
    (us : List UtxoRecord) (required : ℤ) (max_inputs count : ℕ) (sum : ℤ)
    → let r = select_loop us required max_inputs count sum in r.sum ≡ sum +ℤ total r.selected
unfolding select_loop
select_loop-sum [] required max_inputs count sum = omega int_laws
select_loop-sum (u ∷ us) required max_inputs count sum =
    elim (Bool-cases (leb max_inputs (count + 1) || leb_ℤ required (sum +ℤ u.amount))) [
      | inl done ↦ rw (done) (omega int_laws)
      | inr more ↦ rw (more) (
          rw (select_loop-sum us required max_inputs (count + 1) (sum +ℤ u.amount))
            (omega int_laws))
    ]

-- A loop that ends below the amount has taken all that it may, or all that there is.
select_loop-short :
    (us : List UtxoRecord) (required : ℤ) (left count : ℕ) (sum : ℤ)
    → (select_loop us required (count + suc left) count sum).sum <ℤ required
    → (select_loop us required (count + suc left) count sum).selected ≡ take (suc left) us
unfolding select_loop
select_loop-short [] required left count sum short = refl
select_loop-short (u ∷ us) required zero count sum short = ground (arith)
select_loop-short (u ∷ us) required (suc left) count sum short =
    let e : count + suc (suc left) ≡ count + 1 + suc left = omega arith in
    let ih = select_loop-short us required left (count + 1) (sum +ℤ u.amount) in
    ground (arith, rw (← e) at ih)

-- `sum` is the total of the UTXOs that were selected.
pub select_transfer_inputs-sum :
    (us : List UtxoRecord) (required : ℤ) (max_inputs : ℕ)
    → let r = select_transfer_inputs us required max_inputs in r.sum ≡ total r.selected
unfolding select_transfer_inputs
select_transfer_inputs-sum us required max_inputs =
    rw (select_loop-sum (sort larger_first us) required max_inputs 0 (pos 0)) (omega int_laws)

length-select_loop :
    (us : List UtxoRecord) (required : ℤ) (left count : ℕ) (sum : ℤ)
    → length (select_loop us required (count + suc left) count sum).selected ≤ suc left
unfolding select_loop
length-select_loop [] required left count sum = omega arith
length-select_loop (u ∷ us) required zero count sum = ground arith
length-select_loop (u ∷ us) required (suc left) count sum =
    let e : count + suc (suc left) ≡ count + 1 + suc left = omega arith in
    let ih = length-select_loop us required left (count + 1) (sum +ℤ u.amount) in
    ground (arith, rw (← e) at ih)

-- The selection never has more than `max_inputs` UTXOs (a positive number).
pub length-select_transfer_inputs :
    (us : List UtxoRecord) (required : ℤ) (left : ℕ)
    → length (select_transfer_inputs us required (suc left)).selected ≤ suc left
unfolding select_transfer_inputs
length-select_transfer_inputs us required left =
    let e : suc left ≡ 0 + suc left = omega arith in
    let bound = length-select_loop (sort larger_first us) required left 0 (pos 0) in
    rw (← e) at bound

select_transfer_inputs-short :
    (us : List UtxoRecord) (required : ℤ) (left : ℕ)
    → (select_transfer_inputs us required (suc left)).sum <ℤ required
    → (select_transfer_inputs us required (suc left)).selected
      ≡ take (suc left) (sort larger_first us)
unfolding select_transfer_inputs
select_transfer_inputs-short us required left =
    let e : 0 + suc left ≡ suc left = omega arith in
    let law = select_loop-short (sort larger_first us) required left 0 (pos 0) in rw e at law

-- If the selection stays below the amount, then so does every choice of at most `max_inputs` of the
-- UTXOs (a positive number), whose amounts are not negative.
pub select_transfer_inputs-optimal :
    (us : List UtxoRecord) (required : ℤ) (left : ℕ) (mask : List Bool)
    → All IsAmount us
    → (select_transfer_inputs us required (suc left)).sum <ℤ required
    → length (choose mask us) ≤ suc left
    → total (choose mask us) <ℤ required
select_transfer_inputs-optimal us required left mask amounts short few =
    let best = total-choose (suc left) mask us amounts few in
    let whole = ap total (select_transfer_inputs-short us required left short) in
    let summed = select_transfer_inputs-sum us required (suc left) ∙ whole in
    let bound = rw summed at short in omega arith
