-- ===== src/Merkle/Proof/Climb.antt =====
-- The main part of a proof path leads from the batch's subtree root to the root of the version.
use ocash_sdk.Prelude.{
  ℕ, zero, suc, ◌+◌, ◌%◌, ◌^◌, ◌≤◌, ◌<◌, ◌≡◌, refl, ap, inl, inr, true, false, List, [], ◌∷◌,
  Option, none, some, arith, Bool-cases, if◌then◌else◌,
}
use ocash_sdk.Merkle.Nodes.{NodeId, node_id_eq, hash_pair}
use ocash_sdk.Merkle.Tree.{root}
use ocash_sdk.Merkle.Insert.{NodeStore, subtree_depth, go_right, child_hash, prev_left, prev_right}
use ocash_sdk.Merkle.Insert.Bits.{go_right-true, go_right-false}
use ocash_sdk.Merkle.Represents.{
  Represents, upper_half, child_hash-root, prev_left-Represents, prev_right-Represents,
}
use ocash_sdk.Merkle.Proof.{main_siblings}

-- The root that a leaf and its siblings, top down, hash to.
pub climb : ℕ → ℕ → ℕ → List ℕ → ℕ
climb batch zero leaf siblings = leaf
climb batch (suc r) leaf [] = leaf
climb batch (suc r) leaf (s ∷ rest) =
    let below = climb batch r leaf rest in
    if go_right batch r then hash_pair s below else hash_pair below s

module _ (m : NodeStore) (batch : ℕ) where
  main_siblings-right :
      (r : ℕ) (id : Option NodeId)
      → go_right batch r ≡ true
      → main_siblings m batch (suc r) id
        ≡ child_hash m (subtree_depth + r) (prev_left m id)
          ∷ main_siblings m batch r (prev_right m id)
  unfolding main_siblings
  main_siblings-right r none h = refl
  main_siblings-right r (some id) h = ground arith

  main_siblings-left :
      (r : ℕ) (id : Option NodeId)
      → go_right batch r ≡ false
      → main_siblings m batch (suc r) id
        ≡ child_hash m (subtree_depth + r) (prev_right m id)
          ∷ main_siblings m batch r (prev_left m id)
  unfolding main_siblings
  main_siblings-left r none h = refl
  main_siblings-left r (some id) h = ground arith

  -- In a store that represents a tree, of level at most 32, the main siblings of a batch below 2 ^
  -- 32 and the batch's leaf hash to the root of the tree.
  pub climb-main_siblings :
      (version level r : ℕ) (id : Option NodeId) (f : ℕ → ℕ)
      → subtree_depth + r ≤ 32
      → batch < 2 ^ 32
      → Represents m version level r id f
      → climb batch r (f (batch % 2 ^ r)) (main_siblings m batch r id) ≡ root r f
  unfolding climb root
  climb-main_siblings v l zero id f le small h = ap f (omega arith)
  climb-main_siblings v l (suc r) id f le small h =
      let left_tree = prev_left-Represents m v l r id f h in
      let right_tree = prev_right-Represents m v l r id f h in
      elim (Bool-cases (go_right batch r)) [
        | inl right ↦
            let at = go_right-true batch r (omega arith) small right in
            let sibling = child_hash-root m v l r (prev_left m id) f (omega arith) left_tree in
            let ih =
              climb-main_siblings v l r (prev_right m id) (upper_half r f) (omega arith) small
                right_tree in
            rw (main_siblings-right r id right, at, climb, right) (rw (sibling, ih))
        | inr left ↦
            let at = go_right-false batch r (omega arith) small left in
            let sibling =
              child_hash-root m v l r (prev_right m id) (upper_half r f) (omega arith) right_tree in
            let ih = climb-main_siblings v l r (prev_left m id) f (omega arith) small left_tree in
            rw (main_siblings-left r id left, at, climb, left) (rw (sibling, ih))
      ]
