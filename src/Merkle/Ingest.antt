-- ===== src/Merkle/Ingest.antt =====
-- src/merkle/merkleEngine.ts: `ingestEntryMemos` and the rollback, for one chain, on the storage of the
-- memory store. Hydration comes before, and the persisted leaves are Store.Memory's.
pub mod Current
pub mod Pending
pub mod Rollback
use ocash_sdk.Prelude.{
  ℕ, zero, suc, ◌+◌, ◌-◌, ◌/◌, ◌%◌, ◌≡◌, Bool, true, false, ◌&&◌, ◌||◌, not, ◌==◌, List, [], ◌∷◌,
  ◌++◌, Option, none, some, length, take, drop, ltb, leb, if◌then◌else◌,
}
use ocash_sdk.Prelude.Maps.{Map, lookup, insert, nat_eq}
use ocash_sdk.Prelude.Results.{Result, ok, err}
use ocash_sdk.Types.{SyncCursor}
use ocash_sdk.Merkle.Zeros.{get_zero_hash}
use ocash_sdk.Merkle.Nodes.{NodeId, Node, Version}
use ocash_sdk.Merkle.Insert.{NodeStore, Descent, put_nodes, insert_subtree_root, subtree_depth}
use ocash_sdk.Merkle.Subtree.{SubtreeError, subtree_size, build_subtree}
use ocash_sdk.Store.Memory.{values}
use ocash_sdk.Store.Memory.Chains.{latest_version}

-- The engine's state of the chain, and the storage's nodes, versions and cursor.
pub record Engine : Type 0 where
  pub merged : ℕ
  pub root_hash : ℕ
  pub pending : List ℕ
  pub nodes : NodeStore
  pub versions : Map ℕ Version
  pub cursor : Option SyncCursor

pub data IngestError : Type 0 where
  non_contiguous root_mismatch : IngestError
  bad_subtree : SubtreeError → IngestError

-- The state that a call leaves, and its error.
abbrev pub Outcome : Type 0
Outcome = Engine × Option IngestError

-- What follows, unless there was an error.
abbrev pub and_then : Outcome → (Engine → Outcome) → Outcome
and_then (s, none) next = next s
and_then (s, some e) next = (s, some e)

abbrev pub current_merkle_root_index : ℕ → ℕ
current_merkle_root_index total = if leb total 32 then 0 else (total - 1) / 32

-- `resetSyncCursor`: the cursor goes back, never forward.
abbrev pub reset_cursor : Option SyncCursor → ℕ → Option SyncCursor
reset_cursor none target = none
reset_cursor (some c) target =
    if leb c.memo target
    then some c
    else some (record c { memo = target; merkle = current_merkle_root_index target })

abbrev pub rollback_found : Option Version → ℕ → Engine → Engine × Bool
rollback_found none target s = (s, false)
rollback_found (some v) target s = (
  record s {
    merged = target;
    root_hash = v.root_hash;
    pending = [];
    cursor = reset_cursor s.cursor target;
  },
  true,
)

-- `_rollback` to a multiple of 32; the versions and nodes stay in storage.
unfoldable pub rollback_to : ℕ → ℕ → Engine → Engine × Bool
rollback_to tree_depth zero s = (
  record s {
    merged = 0;
    root_hash = get_zero_hash tree_depth;
    pending = [];
    cursor = reset_cursor s.cursor 0;
  },
  true,
)
rollback_to tree_depth (suc target) s =
    rollback_found (lookup (suc target) s.versions) (suc target) s

abbrev pub rollback : ℕ → Engine → Engine × Bool
rollback tree_depth s = rollback_to tree_depth (s.merged - subtree_size) s

-- `prevVersion?.rootId ?? null`.
abbrev pub prev_root : Option Version → Option NodeId
prev_root none = none
prev_root (some v) = some v.root_id

-- A contract root that is there, is not zero, and differs.
abbrev pub mismatches : Option ℕ → ℕ → Bool
mismatches none hash = false
mismatches (some root) hash = not (root == 0) && not (root == hash)

-- `read` is `readContractRoot`, none where there is no reader, it fails or it returns null.
module _ (read : ℕ → Option ℕ) (tree_depth : ℕ) where
  -- The nodes and the version are persisted, unless the contract has another root.
  abbrev pub persist : Descent → List Node → ℕ → Engine → Outcome
  persist d subtree_nodes new_version s =
      if mismatches (read (new_version / subtree_size)) d.hash
      then ((rollback_to tree_depth s.merged s).0, some root_mismatch)
      else (
        record s {
          merged = new_version;
          root_hash = d.hash;
          nodes = put_nodes (subtree_nodes ++ d.nodes) s.nodes;
          versions =
              insert new_version
                (record { version = new_version; root_id = d.id; root_hash = d.hash }) s.versions;
        },
        none,
      )

  abbrev pub merge_built : Result SubtreeError (ℕ × List Node) → Engine → Outcome
  merge_built (err e) s = (s, some (bad_subtree e))
  merge_built (ok (subtree_root, subtree_nodes)) s =
      let new_version = s.merged + subtree_size in
      let prev = prev_root (latest_version none (values s.versions)) in
      let d =
        insert_subtree_root s.nodes (tree_depth - subtree_depth) prev subtree_root
          (s.merged / subtree_size) new_version in
      persist d subtree_nodes new_version s

  -- One round of the `while`, on the batch that was spliced off.
  unfoldable pub merge_batch : List ℕ → Engine → Outcome
  merge_batch batch s = merge_built (build_subtree batch s.merged) s

  -- The `while`; each round takes 32 leaves off, so their number is enough fuel.
  unfoldable pub merge_pending : ℕ → Engine → Outcome
  merge_pending zero s = (s, none)
  merge_pending (suc fuel) s = elim (leb subtree_size (length s.pending)) [
    | false ↦ (s, none)
    | true ↦
        and_then
          (merge_batch (take subtree_size s.pending)
            (record s { pending = drop subtree_size s.pending }))
          (merge_pending fuel)
  ]

  -- The `for` over the sorted leaves.
  unfoldable pub ingest_leaves : List (ℕ × ℕ) → ℕ → Engine → Outcome
  ingest_leaves [] expected s = (s, none)
  ingest_leaves ((index, commitment) ∷ leaves) expected s = elim (ltb index expected) [
    | true ↦ ingest_leaves leaves expected s
    | false ↦ elim (index == expected) [
      | false ↦ (s, some non_contiguous)
      | true ↦
          let pushed = s.pending ++ commitment ∷ [] in
          and_then (merge_pending (length pushed) (record s { pending = pushed }))
            (ingest_leaves leaves (expected + 1))
    ]
  ]
