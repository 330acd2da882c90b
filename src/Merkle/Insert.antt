-- ===== src/Merkle/Insert.antt =====
-- src/merkle/merkleEngine.ts: `insertSubtreeRoot`, the persistent update of the main tree. Levels count
-- from the leaves, so the node with `r` levels of the main tree below it stands at level 5 + r.
pub mod Bits
use ocash_sdk.Prelude.{
  ℕ, zero, suc, ◌+◌, ◌/◌, ◌%◌, ◌^◌, ◌==◌, Bool, List, [], ◌∷◌, ◌++◌, Option, none, some,
  if◌then◌else◌,
}
use ocash_sdk.Prelude.Maps.{Map, lookup, insert}
use ocash_sdk.Merkle.Zeros.{get_zero_hash}
use ocash_sdk.Merkle.Nodes.{NodeId, cm, node_id_eq, Node, hash_pair}

abbrev pub subtree_depth : ℕ
subtree_depth = 5

-- The nodes that storage holds for one chain.
abbrev pub NodeStore : Type 0
NodeStore = Map NodeId Node

-- `putChairmanMerkleNodes`: each node is set under its id, in order.
abbrev pub put_nodes : List Node → NodeStore → NodeStore
put_nodes [] m = m
put_nodes (n ∷ nodes) m = put_nodes nodes (insert n.id n m)

-- `((batchIndex >> k) & 1) === 1`: the shift works on 32 bits, and takes its count modulo 32.
abbrev pub go_right : ℕ → ℕ → Bool
go_right batch_index k = batch_index % 2 ^ 32 / 2 ^ (k % 32) % 2 == 1

-- The children of the previous version's node; a node that is not found has none.
abbrev pub prev_left : NodeStore → Option NodeId → Option NodeId
prev_left m none = none
prev_left m (some id) = elim (lookup id m) [ none ↦ none | some n ↦ n.left_id ]

abbrev pub prev_right : NodeStore → Option NodeId → Option NodeId
prev_right m none = none
prev_right m (some id) = elim (lookup id m) [ none ↦ none | some n ↦ n.right_id ]

-- The hash of a shared child, or the zero hash of its level.
abbrev pub child_hash : NodeStore → ℕ → Option NodeId → ℕ
child_hash m level none = get_zero_hash level
child_hash m level (some id) = elim (lookup id m) [ none ↦ get_zero_hash level | some n ↦ n.hash ]

-- What `descend` returns, with the nodes that it pushed.
pub record Descent : Type 0 where
  pub id : NodeId
  pub hash : ℕ
  pub nodes : List Node

module _ (m : NodeStore) (subtree_root : ℕ) (batch_index version : ℕ) where
  abbrev pub branch : ℕ → Option NodeId → ℕ → Option NodeId → ℕ → List Node → Descent
  branch level left_id left_hash right_id right_hash nodes =
      let hash = hash_pair left_hash right_hash in
      let node : Node = record {
        id = cm version level;
        hash = hash;
        left_id = left_id;
        right_id = right_id;
      } in
      record { id = cm version level; hash = hash; nodes = nodes ++ node ∷ [] }

  unfoldable pub descend : ℕ → Option NodeId → Descent
  descend zero node_id =
      let node : Node = record {
        id = cm version subtree_depth;
        hash = subtree_root;
        left_id = none;
        right_id = none;
      } in
      record { id = cm version subtree_depth; hash = subtree_root; nodes = node ∷ [] }
  descend (suc r) node_id =
      let left = prev_left m node_id in
      let right = prev_right m node_id in
      let level = subtree_depth + r in
      let into_right = descend r right in
      let into_left = descend r left in
      if go_right batch_index r
      then branch (subtree_depth + suc r) left (child_hash m level left) (some into_right.id)
          into_right.hash into_right.nodes
      else branch (subtree_depth + suc r) (some into_left.id) into_left.hash right
          (child_hash m level right) into_left.nodes

-- `main_depth` is `treeDepth - SUBTREE_DEPTH`, of a tree at least as deep as a subtree.
unfoldable pub insert_subtree_root : NodeStore → ℕ → Option NodeId → ℕ → ℕ → ℕ → Descent
unfolding descend
insert_subtree_root m main_depth prev_root_id subtree_root batch_index version =
    descend m subtree_root batch_index version main_depth prev_root_id
