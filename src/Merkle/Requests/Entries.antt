-- ===== src/Merkle/Requests/Entries.antt =====
-- What the answer to a request for proofs has to be: its entries, and the paths in them.
use ocash_sdk.Prelude.{
  ℕ, suc, ◌+◌, ◌/◌, ◌%◌, ◌^◌, ◌⊎◌, replicate, ◌≤◌, ◌<◌, ◌≡◌, List, [], ◌∷◌, Option, some, length,
  get_elem?,
}
use ocash_sdk.Prelude.Int.{ℤ}
use ocash_sdk.Prelude.Results.{Result, ok, err}
use ocash_sdk.Merkle.Nodes.{st, node_id_eq, Version}
use ocash_sdk.Merkle.Insert.{NodeStore, subtree_depth, child_hash}
use ocash_sdk.Merkle.Tree.{root}
use ocash_sdk.Merkle.Represents.{Represents}
use ocash_sdk.Merkle.Proof.Siblings.{sibling}
use ocash_sdk.Merkle.Proof.Climb.{climb}
use ocash_sdk.Merkle.Proof.{reversed, leaf_or_zero}
use ocash_sdk.Merkle.Ingest.{Engine, prev_root}
use ocash_sdk.Merkle.Requests.{
  ProofEntry, ProofResponse, ProofError, found_commitment, version_root,
}
use ocash_sdk.Store.Memory.{Leaf}

-- The hash of a node that `buildSubtree` stored, or the zero hash of its level.
abbrev pub stored_hash : NodeStore → ℕ → ℕ → ℕ
stored_hash m level position = child_hash m level (some (st level position))

-- `path` is the proof path of the leaf `cid` of `rows`: the leaf, its sibling leaf, the siblings of its ancestors of
-- the levels 1 to 4, and then, from the bottom, siblings in the main tree by which the root of the leaf's
-- batch hashes to `tree_root`. `f` has the roots of the batches.
pub record IsPath (rows : List Leaf) (nodes : NodeStore) (main_depth cid tree_root : ℕ) (f : ℕ → ℕ)
    (path : List ℕ) : Type 0 where
  pub leaf : Leaf
  pub is_leaf : get_elem? rows cid ≡ some leaf
  pub main : List ℕ
  pub elements :
      path
      ≡ leaf.commitment
        ∷ leaf_or_zero (found_commitment (get_elem? rows (sibling cid)))
        ∷ stored_hash nodes 1 (sibling (cid / 2))
        ∷ stored_hash nodes 2 (sibling (cid / 4))
        ∷ stored_hash nodes 3 (sibling (cid / 8))
        ∷ stored_hash nodes 4 (sibling (cid / 16))
        ∷ reversed main
  pub size : length main ≡ main_depth
  pub climbs : climb (cid / 32) main_depth (f (cid / 32 % 2 ^ main_depth)) main ≡ tree_root

-- A leaf that the contract's tree does not have yet has a path of zeros.
abbrev pub IsEntry : ℕ → List Leaf → NodeStore → ℕ → ℕ → ℕ → (ℕ → ℕ) → ProofEntry → Type 0
IsEntry tree rows nodes main_depth cid tree_root f entry =
    (entry.leaf_index ≡ cid)
    × (((tree ≤ cid) × (entry.path ≡ replicate (subtree_depth + main_depth + 1) 0))
        ⊎ ((cid < tree) × IsPath rows nodes main_depth cid tree_root f entry.path))

abbrev pub AreEntries :
    ℕ → List Leaf → NodeStore → ℕ → List ℕ → ℕ → (ℕ → ℕ) → List ProofEntry → Type 0
AreEntries tree rows nodes main_depth [] tree_root f [] = Unit
AreEntries tree rows nodes main_depth (cid ∷ cids) tree_root f (e ∷ es) =
    IsEntry tree rows nodes main_depth cid tree_root f e
    × AreEntries tree rows nodes main_depth cids tree_root f es
AreEntries tree rows nodes main_depth _ tree_root f _ = ⊥

-- A proof for each of the leaves `cids`, in their order, under `tree_root`.
abbrev pub Answers :
    ℕ
    → List Leaf
    → NodeStore
    → ℕ
    → List ℕ
    → ℕ
    → (ℕ → ℕ)
    → ℤ
    → Result ProofError ProofResponse
    → Type 0
Answers tree rows nodes main_depth cids tree_root f latest (err e) = ⊥
Answers tree rows nodes main_depth cids tree_root f latest (ok r) =
    AreEntries tree rows nodes main_depth cids tree_root f r.proof
    × (r.merkle_root ≡ tree_root)
    × (r.latest_cid ≡ latest)

-- The storage has, under a version, the tree over the batches' roots `f`, and the version has its root.
pub record StoredTree (s : Engine) (main_depth : ℕ) (version : Option Version) (f : ℕ → ℕ)
    : Type 0 where
  pub represents : Represents s.nodes (suc s.merged) 0 main_depth (prev_root version) f
  pub has_root : root main_depth f ≡ version_root (subtree_depth + main_depth) version
