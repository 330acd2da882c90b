-- ===== src/Store/Memory/Log.antt =====
-- src/store/memoryStore.ts: the operations, newest first, at most `maxOperations` of them.
use Prim.Native.String.{String}
use text.Mathlib.Text.{◌==◌ as str_eq}
use ocash_sdk.Prelude.{
  ℕ, ◌-◌, ◌≤◌, ◌≡◌, refl, Bool, true, false, List, [], ◌∷◌, Option, none, some, length, take,
  length-take, arith, if◌then◌else◌,
}
use ocash_sdk.Store.Operations.{StoredOperation, ListOperationsQuery, apply_operations_query}
use ocash_sdk.Store.Memory.{MemoryStore}

-- `slice(0, limit)`, where no limit is infinity.
abbrev pub take_limit : Option ℕ → List StoredOperation → List StoredOperation
take_limit none ops = ops
take_limit (some n) ops = take n ops

-- The next store, and the number of operations that were removed.
unfoldable pub prune_to : Option ℕ → MemoryStore → MemoryStore × ℕ
prune_to limit s =
    let kept = take_limit limit s.operations in
    (record s { operations = kept }, length s.operations - length kept)

abbrev pub enforce_max_operations : MemoryStore → MemoryStore × ℕ
enforce_max_operations s = prune_to s.max_operations s

-- `created` has its id, time and status, which default to a new UUID, the clock and "created".
unfoldable pub create_operation : StoredOperation → MemoryStore → MemoryStore
create_operation created s =
    (enforce_max_operations (record s { operations = created ∷ s.operations })).0

-- The first operation of an id, replaced; `patch` is the spread of the update over it.
unfoldable pub patch_first :
    String → (StoredOperation → StoredOperation) → List StoredOperation → List StoredOperation
patch_first id patch [] = []
patch_first id patch (op ∷ ops) =
    if str_eq op.id id then patch op ∷ ops else op ∷ patch_first id patch ops

abbrev pub update_operation :
    String → (StoredOperation → StoredOperation) → MemoryStore → MemoryStore
update_operation id patch s = record s { operations = patch_first id patch s.operations }

-- The list without the first operation of an id, and whether there was one.
unfoldable pub delete_first : String → List StoredOperation → List StoredOperation × Bool
delete_first id [] = ([], false)
delete_first id (op ∷ ops) =
    let rest = delete_first id ops in if str_eq op.id id then (ops, true) else (op ∷ rest.0, rest.1)

abbrev pub delete_operation : String → MemoryStore → MemoryStore × Bool
delete_operation id s = let r = delete_first id s.operations in (record s { operations = r.0 }, r.1)

abbrev pub clear_operations : MemoryStore → MemoryStore
clear_operations s = record s { operations = [] }

-- `options?.max ?? this.maxOperations`.
abbrev pub prune_limit : Option ℕ → Option ℕ → Option ℕ
prune_limit none own = own
prune_limit (some max) own = some max

abbrev pub prune_operations : Option ℕ → MemoryStore → MemoryStore × ℕ
prune_operations max s = prune_to (prune_limit max s.max_operations) s

abbrev pub list_operations : ListOperationsQuery → MemoryStore → List StoredOperation
list_operations q s = apply_operations_query s.operations q

abbrev pub Within : Option ℕ → List StoredOperation → Type 0
Within none ops = Unit
Within (some n) ops = length ops ≤ n

-- What the code calls on the log.
pub data LogStep : Type 0 where
  create : StoredOperation → LogStep
  update : String → (StoredOperation → StoredOperation) → LogStep
  delete : String → LogStep
  clear : LogStep
  prune : Option ℕ → LogStep

abbrev pub log_step : LogStep → MemoryStore → MemoryStore
log_step (create op) s = create_operation op s
log_step (update id patch) s = update_operation id patch s
log_step (delete id) s = (delete_operation id s).0
log_step clear s = clear_operations s
log_step (prune max) s = (prune_operations max s).0

abbrev pub log_steps : List LogStep → MemoryStore → MemoryStore
log_steps [] s = s
log_steps (step ∷ steps) s = log_steps steps (log_step step s)

length-patch_first :
    (id : String) (patch : StoredOperation → StoredOperation) (ops : List StoredOperation)
    → length (patch_first id patch ops) ≡ length ops
unfolding patch_first
length-patch_first id patch [] = refl
length-patch_first id patch (op ∷ ops) = ground (arith, length-patch_first id patch ops)

length-delete_first :
    (id : String) (ops : List StoredOperation) → length (delete_first id ops).0 ≤ length ops
unfolding delete_first
length-delete_first id [] = omega arith
length-delete_first id (op ∷ ops) = ground (arith, length-delete_first id ops)

take_limit-Within :
    (limit : Option ℕ) (ops : List StoredOperation) → Within limit (take_limit limit ops)
take_limit-Within none ops = tt
take_limit-Within (some n) ops = omega (arith, length-take n ops)

Within-le :
    (limit : Option ℕ) (xs ys : List StoredOperation)
    → length xs ≤ length ys
    → Within limit ys
    → Within limit xs
Within-le none xs ys le h = tt
Within-le (some n) xs ys le h = omega arith

prune_limit-Within :
    (max own : Option ℕ) (ops : List StoredOperation)
    → Within own ops
    → Within own (take_limit (prune_limit max own) ops)
prune_limit-Within none own ops h = take_limit-Within own ops
prune_limit-Within (some n) own ops h =
    Within-le own (take n ops) ops (omega (arith, length-take n ops)) h

log_step-Within :
    (step : LogStep) (s : MemoryStore)
    → Within s.max_operations s.operations
    → ((log_step step s).max_operations ≡ s.max_operations)
      × Within s.max_operations (log_step step s).operations
unfolding create_operation prune_to
log_step-Within (create op) s h = (refl, take_limit-Within s.max_operations (op ∷ s.operations))
log_step-Within (update id patch) s h = (
  refl,
  Within-le s.max_operations _ s.operations
      (omega (arith, length-patch_first id patch s.operations)) h,
)
log_step-Within (delete id) s h =
    (refl, Within-le s.max_operations _ s.operations (length-delete_first id s.operations) h)
log_step-Within clear s h = (refl, Within-le s.max_operations [] s.operations (omega arith) h)
log_step-Within (prune max) s h = (refl, prune_limit-Within max s.max_operations s.operations h)

-- From a store within its limit, no sequence of creations, updates, deletions, clearings and prunings
-- makes the log longer than `maxOperations`.
pub log_steps-Within :
    (steps : List LogStep) (s : MemoryStore)
    → Within s.max_operations s.operations
    → Within s.max_operations (log_steps steps s).operations
log_steps-Within [] s h = h
log_steps-Within (step ∷ steps) s h =
    let (same, kept) = log_step-Within step s h in
    rw same at (log_steps-Within steps (log_step step s) (rw (same) kept))
