-- ===== src/Merkle/Subtree.antt =====
-- src/merkle/merkleEngine.ts: `buildSubtree`, the lowest five levels over 32 contiguous leaves.
use ocash_sdk.Prelude.{
  ℕ, zero, suc, ◌+◌, ◌/◌, ◌%◌, ◌^◌, ◌==◌, not, List, [], ◌∷◌, ◌++◌, none, length,
}
use ocash_sdk.Prelude.Results.{Result, ok, ◌>>◌, throw_if}
use ocash_sdk.Merkle.Nodes.{st, Node, hash_pair}

abbrev pub subtree_size : ℕ
subtree_size = 32

pub data SubtreeError : Type 0 where
  not_32_leaves not_aligned : SubtreeError

-- The `for` over pairs. A level has an even number of hashes; one that is left over is dropped here.
unfoldable pub pair_up : List ℕ → List ℕ
pair_up (x ∷ y ∷ rest) = hash_pair x y ∷ pair_up rest
pair_up _ = []

-- The nodes of one level, from their first position on.
unfoldable pub level_nodes : ℕ → ℕ → List ℕ → List Node
level_nodes level position [] = []
level_nodes level position (hash ∷ rest) =
    record { id = st level position; hash = hash; left_id = none; right_id = none }
    ∷ level_nodes level (position + 1) rest

pub record Subtree : Type 0 where
  pub top : List ℕ
  pub nodes : List Node

-- The rounds of the `for` over the levels: `levels` are left, from `level` on. `baseIndex >> level`
-- is read at 32 bits.
unfoldable pub build_levels : ℕ → ℕ → ℕ → List ℕ → Subtree
unfolding pair_up level_nodes
build_levels zero level base_index current = record { top = current; nodes = [] }
build_levels (suc levels) level base_index current =
    let next = pair_up current in
    let above = build_levels levels (level + 1) base_index next in
    record {
      top = above.top;
      nodes = level_nodes level (base_index % 2 ^ 32 / 2 ^ level) next ++ above.nodes;
    }

-- `currentLevel[0]!`.
abbrev pub first_hash : List ℕ → ℕ
first_hash [] = 0
first_hash (hash ∷ rest) = hash

unfoldable pub build_subtree : List ℕ → ℕ → Result SubtreeError (ℕ × List Node)
unfolding build_levels
build_subtree leaves base_index = do
  throw_if (not (length leaves == subtree_size)) not_32_leaves
  throw_if (not (base_index % subtree_size == 0)) not_aligned
  let built = build_levels 5 1 base_index leaves
  ok (first_hash built.top, built.nodes)
