-- ===== src/Merkle/Tests.antt =====
-- The persistent tree, from the empty one, on concrete batches.
use ocash_sdk.Prelude.{ℕ, ◌%◌, ◌^◌, ◌≡◌, refl, [], none, some, arith}
use ocash_sdk.Merkle.Zeros.{get_zero_hash}
use ocash_sdk.Merkle.Tree.{root, update}
use ocash_sdk.Merkle.Insert.{NodeStore, descend, put_nodes}
use ocash_sdk.Merkle.Represents.{Represents}
use ocash_sdk.Merkle.Persistent.{Makes, descend-Makes}
use ocash_sdk.Merkle.Proof.{main_siblings}
use ocash_sdk.Merkle.Proof.Climb.{climb, climb-main_siblings}
use ocash_sdk.Merkle.Nodes.{Node}
use ocash_sdk.Merkle.Insert.{subtree_depth}
use ocash_sdk.Prelude.{◌/◌, ◌+◌, ◌∷◌, Option, List, [], replicate}
use ocash_sdk.Prelude.Results.{Result, ok, err}
use ocash_sdk.Merkle.Subtree.{SubtreeError, subtree_size, build_subtree}
use ocash_sdk.Merkle.Ingest.{Engine, merge_batch, merge_pending, rollback_to}
use ocash_sdk.Merkle.Ingest.Pending.{IsShort, merge_pending-IsShort}
use ocash_sdk.Merkle.Ingest.Rollback.{merge_batch-after_rollback}
use ocash_sdk.Merkle.Ingest.Current.{Current, Merged, Merged-Current, merge_batch-Merged}
use ocash_sdk.Store.Memory.Chains.{latest_version}
use ocash_sdk.Store.Memory.{Leaf, cid_precedes, push_leaves}
use ocash_sdk.Store.Memory.Contiguous.{Counts}
use ocash_sdk.Prelude.{zero, suc, true}
use ocash_sdk.Prelude.Int.{pos}
use ocash_sdk.Prelude.Sorting.{sort}
use ocash_sdk.Merkle.Ingest.{ingest_leaves}
use ocash_sdk.Merkle.Hydration.{
  ChainTree, IngestMemo, local, hybrid, restarted, hydrate_from_storage, memo_leaves, append_rows,
  ingest_entry_memos,
}
use ocash_sdk.Merkle.Hydration.Restart.{ChainInStep, hydrate_from_storage-restarted}
use ocash_sdk.Merkle.Hydration.Ingestion.{ingest_entry_memos-Ingests}
use ocash_sdk.Merkle.Requests.{
  version_root, contract_version, is_there, total_elements_in_tree, get_proof_by_cids,
}
use ocash_sdk.Merkle.Requests.Local.{get_proof_by_cids-restarted}
use ocash_sdk.Merkle.Requests.Entries.{Answers, StoredTree}
use ocash_sdk.Prelude.{sym, ◌≤◌}

-- The leaves of an empty main tree.
abbrev empty_leaves : ℕ → ℕ
empty_leaves i = get_zero_hash 5

empty-Represents : Represents [] 32 0 2 none empty_leaves
empty-Represents i lt = refl

-- Batch 1 of a main tree of height 2, into the empty tree.
descend-Makes_example :
    Makes [] 77 1 32 2 (update empty_leaves (1 % 2 ^ 2) 77) (descend [] 77 1 32 2 none)
descend-Makes_example =
    descend-Makes [] 77 1 32 2 none empty_leaves (omega arith) (omega arith) empty-Represents

-- The tree after that.
abbrev second : NodeStore
second = put_nodes (descend [] 77 1 32 2 none).nodes []

second-Makes : Makes [] 77 1 32 2 (update empty_leaves (1 % 2 ^ 2) 77) (descend [] 77 1 32 2 none)
second-Makes =
    descend-Makes [] 77 1 32 2 none empty_leaves (omega arith) (omega arith) empty-Represents

climb-main_siblings_example :
    climb 1 2
      (update empty_leaves (1 % 2 ^ 2) 77 (1 % 2 ^ 2))
      (main_siblings second 1 2 (some (descend [] 77 1 32 2 none).id))
    ≡ root 2 (update empty_leaves (1 % 2 ^ 2) 77)
climb-main_siblings_example =
    climb-main_siblings second 1 32 8 2 (some (descend [] 77 1 32 2 none).id)
      (update empty_leaves (1 % 2 ^ 2) 77) (omega arith) (omega arith) (second-Makes).1

abbrev empty_engine : Engine
empty_engine = record {
  merged = 0;
  root_hash = get_zero_hash 7;
  pending = [];
  nodes = [];
  versions = [];
  cursor = none;
}

empty-Current : Current 2 empty_engine empty_leaves
unfolding latest_version
empty-Current = record { stored = tt; tree = λ i lt. refl }

abbrev batch : List ℕ
batch = replicate 32 9

abbrev built_or : Result SubtreeError (ℕ × List Node) → ℕ × List Node
built_or (ok b) = b
built_or (err e) = (0, [])

merge_batch-Merged_example :
    Merged 2
      (update empty_leaves (0 / subtree_size % 2 ^ 2) (built_or (build_subtree batch 0)).0)
      (0 + subtree_size)
      (merge_batch (λ index. none) (subtree_depth + 2) batch empty_engine)
unfolding build_subtree
merge_batch-Merged_example =
    merge_batch-Merged (λ index. none) 2 empty_engine empty_leaves batch
      (built_or (build_subtree batch 0)).0 (built_or (build_subtree batch 0)).1 (omega arith)
      (omega arith) empty-Current refl

abbrev unread : ℕ → Option ℕ
unread index = none

abbrev built : ℕ → ℕ × List Node
built base = built_or (build_subtree batch base)

abbrev one_batch : Engine
one_batch = (merge_batch unread (subtree_depth + 2) batch empty_engine).0

abbrev two_batches : Engine
two_batches = (merge_batch unread (subtree_depth + 2) batch one_batch).0

abbrev one_leaf : ℕ → ℕ
one_leaf = update empty_leaves (0 / subtree_size % 2 ^ 2) (built 0).0

abbrev two_leaves : ℕ → ℕ
two_leaves = update one_leaf (one_batch.merged / subtree_size % 2 ^ 2) (built 32).0

one_batch-Merged :
    Merged 2 one_leaf (0 + subtree_size) (merge_batch unread (subtree_depth + 2) batch empty_engine)
unfolding build_subtree
one_batch-Merged =
    merge_batch-Merged unread 2 empty_engine empty_leaves batch (built 0).0 (built 0).1
      (omega arith) (omega arith) empty-Current refl

one_batch-Current : Current 2 one_batch one_leaf
unfolding build_subtree merge_batch
one_batch-Current =
    Merged-Current 2 one_leaf (0 + subtree_size)
      (merge_batch unread (subtree_depth + 2) batch empty_engine) one_batch-Merged refl

two_batches-Current : Current 2 two_batches two_leaves
unfolding build_subtree merge_batch
two_batches-Current =
    Merged-Current 2 two_leaves (one_batch.merged + subtree_size)
      (merge_batch unread (subtree_depth + 2) batch one_batch)
      (merge_batch-Merged unread 2 one_batch one_leaf batch (built 32).0 (built 32).1 (omega arith)
        (omega arith) one_batch-Current refl)
      refl

-- Both batches are rolled back, and the first one is merged again: the second is still in the tree.
merge_batch-after_rollback_example :
    (merge_batch unread
      (subtree_depth + 2)
      batch
      (rollback_to (subtree_depth + 2) 0 two_batches).0).0.root_hash
    ≡ root 2 (update two_leaves (0 / subtree_size % 2 ^ 2) (built 0).0)
unfolding build_subtree merge_batch rollback_to
merge_batch-after_rollback_example =
    merge_batch-after_rollback unread 2 two_batches two_leaves 0 batch (built 0).0 (built 0).1
      (omega arith) (omega arith) two_batches-Current refl refl refl

abbrev ready : Engine
ready = record empty_engine { pending = 8 ∷ batch }

merge_pending-IsShort_example : IsShort unread 7 (merge_pending unread 7 33 ready)
merge_pending-IsShort_example = merge_pending-IsShort unread 7 33 ready (omega arith)

abbrev leaves_or : Option (List Leaf) → List Leaf
leaves_or none = []
leaves_or (some leaves) = leaves

-- A chain without leaves, and the memos of its first 33 leaves, the last one first.
abbrev empty_chain : ChainTree
empty_chain = record { hydrated = true; engine = empty_engine; leaves = none }

memos_down : ℕ → List IngestMemo
memos_down zero = []
memos_down (suc n) = record { cid = some n; commitment = some (pos (n + 1)) } ∷ memos_down n

empty-ChainInStep : ChainInStep 7 empty_chain
unfolding latest_version
empty-ChainInStep = (
  tt,
  record {
    pending = refl;
    within = omega arith;
    aligned = refl;
    stored = tt;
    latest = (refl, refl);
  },
)

abbrev leaves_up : ℕ → List Leaf
leaves_up n = sort cid_precedes (leaves_or (memo_leaves (memos_down n)))

memos_valid : memo_leaves (memos_down 33) ≡ some (leaves_or (memo_leaves (memos_down 33)))
unfolding memo_leaves memos_down
memos_valid = refl

memos-Counts : Counts 0 (leaves_up 33)
unfolding memo_leaves memos_down
memos-Counts = ground arith

-- The chain after that, where no contract root is read: one batch is merged and one leaf is pending.
abbrev grown_chain : ChainTree
grown_chain = (ingest_entry_memos unread 7 local (memos_down 33) empty_chain).0

-- The contract has that root, too.
abbrev same_root : ℕ → Option ℕ
same_root index = some grown_chain.engine.root_hash

grown-ChainInStep : ChainInStep 7 grown_chain
unfolding ingest_entry_memos hydrate_from_storage memo_leaves memos_down append_rows push_leaves
    ingest_leaves merge_pending merge_batch build_subtree latest_version
grown-ChainInStep =
    (ingest_entry_memos-Ingests unread 7 local (memos_down 33)
      (leaves_or (memo_leaves (memos_down 33))) empty_chain 0 refl refl empty-ChainInStep
      memos_valid memos-Counts (omega arith)).0

hydrate_from_storage-restarted_example :
    hydrate_from_storage local (restarted 7 grown_chain) ≡ record grown_chain { hydrated = true }
hydrate_from_storage-restarted_example =
    hydrate_from_storage-restarted local 7 grown_chain refl grown-ChainInStep

-- A chain with the 32 leaves of one batch, which is merged.
leaves_from : ℕ → List ℕ → List Leaf
leaves_from cid [] = []
leaves_from cid (n ∷ ns) = record { cid = cid; commitment = n } ∷ leaves_from (cid + 1) ns

abbrev merged_chain : ChainTree
merged_chain = record { hydrated = true; engine = one_batch; leaves = some (leaves_from 0 batch) }

merged-ChainInStep : ChainInStep 7 merged_chain
unfolding build_subtree merge_batch latest_version leaves_from
merged-ChainInStep = (
  ground arith,
  record {
    pending = refl;
    within = ground arith;
    aligned = refl;
    stored = one_batch-Current.stored;
    latest = (refl, refl);
  },
)

merged-StoredTree : StoredTree one_batch 2 (contract_version 7 32 merged_chain) one_leaf
unfolding build_subtree merge_batch latest_version
merged-StoredTree = record {
  represents = one_batch-Current.tree;
  has_root = sym one_batch-Merged.1;
}

merged_stored : is_there (contract_version 7 32 merged_chain) ≡ true
unfolding build_subtree merge_batch latest_version
merged_stored = refl

merged_count : 32 ≤ one_batch.merged
unfolding build_subtree merge_batch
merged_count = omega arith

-- The leaf 32 is not in the contract's tree, and the leaf 5 is.
get_proof_by_cids-restarted_example :
    Answers 32
      (leaves_from 0 batch)
      one_batch.nodes
      2
      (32 ∷ 5 ∷ [])
      (version_root 7 (contract_version 7 32 merged_chain))
      one_leaf
      (pos 39)
      (get_proof_by_cids none 7 hybrid (32 ∷ 5 ∷ []) (pos 40) (restarted 7 merged_chain)).1
unfolding total_elements_in_tree
get_proof_by_cids-restarted_example =
    get_proof_by_cids-restarted none 2 hybrid (32 ∷ 5 ∷ []) (pos 40) 32 merged_chain one_leaf
      (omega arith) refl (λ e. cc) merged-ChainInStep refl (omega arith) merged_count merged_stored
      merged-StoredTree
