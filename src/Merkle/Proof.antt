-- ===== src/Merkle/Proof.antt =====
-- src/merkle/merkleEngine.ts: `buildLocalProofPath`, the siblings on the way from a leaf to the root
-- of a version.
pub mod Siblings
pub mod Climb
use Prim.Native.Nat.{bit_xor}
use ocash_sdk.Prelude.{
  ℕ, zero, suc, ◌+◌, leb, ◌-◌, ◌/◌, ◌%◌, ◌^◌, ◌==◌, Bool, true, false, List, [], ◌∷◌, ◌++◌, Option,
  none, some, if◌then◌else◌,
}
use ocash_sdk.Prelude.Maps.{lookup}
use ocash_sdk.Merkle.Zeros.{get_zero_hash}
use ocash_sdk.Merkle.Nodes.{NodeId, st, node_id_eq, Node}
use ocash_sdk.Merkle.Insert.{NodeStore, go_right, child_hash, subtree_depth}

-- The siblings in the main tree, top down; once there is no node, those of an empty tree.
unfoldable pub main_siblings : NodeStore → ℕ → ℕ → Option NodeId → List ℕ
main_siblings m batch_index zero node_id = []
main_siblings m batch_index (suc r) none =
    get_zero_hash (subtree_depth + r) ∷ main_siblings m batch_index r none
main_siblings m batch_index (suc r) (some id) = elim (lookup id m) [
  | none ↦ get_zero_hash (subtree_depth + r) ∷ main_siblings m batch_index r none
  | some node ↦ elim (go_right batch_index r) [
    | true ↦
        child_hash m (subtree_depth + r) node.left_id ∷ main_siblings m batch_index r node.right_id
    | false ↦
        child_hash m (subtree_depth + r) node.right_id ∷ main_siblings m batch_index r node.left_id
  ]
]

-- `cid >> level`: `cid` at 32 bits is shifted with its sign. Negative results are their 32-bit pattern.
unfoldable pub shift_right : ℕ → ℕ → ℕ
shift_right cid level =
    let bits = cid % 2 ^ 32 in
    if leb (2 ^ 31) bits then bits / 2 ^ level + (2 ^ 32 - 2 ^ (32 - level)) else bits / 2 ^ level

-- No leaf and no node has a negative position.
abbrev pub non_negative : ℕ → Option ℕ
non_negative bits = if leb (2 ^ 31) bits then none else some bits

-- `(cid >> level) ^ 1`.
unfoldable pub sibling_position : ℕ → ℕ → Option ℕ
sibling_position cid level = non_negative (bit_xor (shift_right cid level) 1)

abbrev pub leaf_or_zero : Option ℕ → ℕ
leaf_or_zero none = get_zero_hash 0
leaf_or_zero (some commitment) = commitment

abbrev pub leaf_at : (ℕ → Option ℕ) → Option ℕ → Option ℕ
leaf_at leaf none = none
leaf_at leaf (some position) = leaf position

abbrev pub subtree_node : ℕ → Option ℕ → Option NodeId
subtree_node level none = none
subtree_node level (some position) = some (st level position)

-- The sibling at one of the levels 2 to 5 of the path: a node that `buildSubtree` stored.
abbrev pub subtree_sibling : NodeStore → ℕ → ℕ → ℕ
subtree_sibling m cid target_level =
    child_hash m target_level (subtree_node target_level (sibling_position cid target_level))

-- The `for` that pushes the main siblings in reverse.
abbrev pub reversed : List ℕ → List ℕ
reversed [] = []
reversed (x ∷ xs) = reversed xs ++ x ∷ []

-- `leaf` is `getMerkleLeaf`; `none` is the error `missing_leaf`.
unfoldable pub build_local_proof_path :
    (ℕ → Option ℕ) → NodeStore → ℕ → ℕ → Option NodeId → Option (List ℕ)
unfolding main_siblings
build_local_proof_path leaf m main_depth cid root_id = elim (leaf cid) [
  | none ↦ none
  | some commitment ↦ some (
      commitment
      ∷ leaf_or_zero (leaf_at leaf (sibling_position cid 0))
      ∷ subtree_sibling m cid 1
      ∷ subtree_sibling m cid 2
      ∷ subtree_sibling m cid 3
      ∷ subtree_sibling m cid 4
      ∷ reversed (main_siblings m (shift_right cid subtree_depth) main_depth root_id))
]
