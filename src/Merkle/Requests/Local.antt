-- ===== src/Merkle/Requests/Local.antt =====
-- The answer of the local tree after a restart.
use ocash_sdk.Prelude.{
  ℕ, zero, suc, ◌+◌, ◌-◌, ◌/◌, ◌%◌, ◌^◌, ◌≤◌, ◌<◌, ◌≡◌, ◌≢◌, refl, ◌∙◌, ap, inl, inr, true, false,
  ◌||◌, ◌==◌, List, [], ◌∷◌, Option, none, some, length, get_elem?, leb, le→ltb, Bool-cases,
  Option-cases, arith,
}
use ocash_sdk.Prelude.Int.{ℤ}
use ocash_sdk.Prelude.Maps.{lookup}
use ocash_sdk.Prelude.Results.{Result, ok}
use ocash_sdk.Merkle.Nodes.{NodeId, node_id_eq, Version}
use ocash_sdk.Merkle.Insert.{NodeStore, subtree_depth, go_right, child_hash}
use ocash_sdk.Merkle.Proof.Siblings.{sibling, shift_right_lem, sibling_position_lem}
use ocash_sdk.Merkle.Proof.Climb.{climb, climb-main_siblings}
use ocash_sdk.Merkle.Proof.{
  build_local_proof_path, main_siblings, reversed, shift_right, leaf_or_zero, leaf_at, subtree_node,
  subtree_sibling, sibling_position,
}
use ocash_sdk.Merkle.Ingest.{prev_root}
use ocash_sdk.Merkle.Hydration.{MerkleMode, remote, local, hybrid, is_remote, ChainTree, restarted}
use ocash_sdk.Merkle.Hydration.Restart.{
  ChainInStep, hydrate_from_storage-restarted, length-commitments,
}
use ocash_sdk.Merkle.Requests.{
  ProofEntry, ProofResponse, ProofError, total_elements_in_tree, latest_cid_of, buffered_entry,
  leaf_commitment, found_commitment, version_root, local_entry, local_entries, contract_version,
  is_there, ask_local, get_proof_by_cids,
}
use ocash_sdk.Store.Memory.{Leaf, existing_leaves}
use ocash_sdk.Merkle.Requests.Entries.{
  stored_hash, IsPath, IsEntry, AreEntries, Answers, StoredTree,
}

length-main_siblings :
    (m : NodeStore) (batch r : ℕ) (id : Option NodeId) → length (main_siblings m batch r id) ≡ r
unfolding main_siblings
length-main_siblings m batch zero id = refl
length-main_siblings m batch (suc r) none = ap suc (length-main_siblings m batch r none)
length-main_siblings m batch (suc r) (some id) = elim (Option-cases (lookup id m)) [
  | inl e ↦ rw (e, main_siblings) (ap suc (length-main_siblings m batch r none))
  | inr (node, e) ↦ elim (Bool-cases (go_right batch r)) [
    | inl d ↦ rw (e, d, main_siblings) (ap suc (length-main_siblings m batch r node.right_id))
    | inr d ↦ rw (e, d, main_siblings) (ap suc (length-main_siblings m batch r node.left_id))
  ]
]

get-within :
    (leaves : List Leaf) (i : ℕ) → i < length leaves → (l : Leaf) × (get_elem? leaves i ≡ some l)
get-within [] i h = absurd (omega arith)
get-within (l ∷ leaves) zero h = (l, refl)
get-within (l ∷ leaves) (suc i) h = get-within leaves i (omega arith)

module _ (main_depth tree : ℕ) (shallow : subtree_depth + main_depth ≤ 32) (c : ChainTree)
    (small : tree ≤ 2 ^ 31) (within : tree ≤ length (existing_leaves c.leaves))
    (version : Option Version) (f : ℕ → ℕ) (stored : StoredTree c.engine main_depth version f) where
  tree_root : ℕ
  tree_root = version_root (subtree_depth + main_depth) version

  subtree_sibling_lem :
      (cid level : ℕ)
      → cid < 2 ^ 31
      → cid / 2 ^ level < 2 ^ 31
      → subtree_sibling c.engine.nodes cid level
        ≡ stored_hash c.engine.nodes level (sibling (cid / 2 ^ level))
  subtree_sibling_lem cid level lt below =
      ap (λ (p : Option ℕ). child_hash c.engine.nodes level (subtree_node level p))
        (sibling_position_lem cid level lt below)

  first_sibling :
      (cid : ℕ)
      → cid < 2 ^ 31
      → leaf_or_zero (leaf_at (leaf_commitment c) (sibling_position cid 0))
        ≡ leaf_or_zero (leaf_commitment c (sibling cid))
  first_sibling cid lt =
      let itself : cid / 2 ^ 0 ≡ cid = omega arith in
      ap (λ (p : Option ℕ). leaf_or_zero (leaf_at (leaf_commitment c) p))
        (sibling_position_lem cid 0 lt (omega arith) ∙ ap (λ n. some (sibling n)) itself)

  build_local_proof_path-IsPath :
      (cid : ℕ)
      → cid < tree
      → (path : List ℕ) × (build_local_proof_path
            (leaf_commitment c)
            c.engine.nodes
            main_depth
            cid
            (prev_root version)
          ≡ some path)
        × IsPath (existing_leaves c.leaves) c.engine.nodes main_depth cid tree_root f path
  unfolding build_local_proof_path tree_root
  build_local_proof_path-IsPath cid inside =
      let m = c.engine.nodes in
      let lt : cid < 2 ^ 31 = omega (arith, inside, small) in
      let (l, found) = get-within (existing_leaves c.leaves) cid (omega arith) in
      let commitment : leaf_commitment c cid ≡ some l.commitment = ap found_commitment found in
      let main = main_siblings m (shift_right cid subtree_depth) main_depth (prev_root version) in
      let batch : shift_right cid subtree_depth ≡ cid / 32 = shift_right_lem cid 5 lt in
      let first = first_sibling cid lt in
      let at1 = subtree_sibling_lem cid 1 lt (omega arith) in
      let at2 = subtree_sibling_lem cid 2 lt (omega arith) in
      let at3 = subtree_sibling_lem cid 3 lt (omega arith) in
      let at4 = subtree_sibling_lem cid 4 lt (omega arith) in
      rw (commitment, build_local_proof_path)
        (
          _,
          refl,
          record {
            leaf = l;
            is_leaf = found;
            main = main;
            elements = λ i.
                l.commitment ∷ (first i) ∷ (at1 i) ∷ (at2 i) ∷ (at3 i) ∷ (at4 i) ∷ reversed main;
            size =
                length-main_siblings m (shift_right cid subtree_depth) main_depth
                  (prev_root version);
            climbs =
                ap
                  (λ (b : ℕ).
                    climb (cid / 32) main_depth (f (cid / 32 % 2 ^ main_depth))
                      (main_siblings m b main_depth (prev_root version)))
                  batch
                ∙ climb-main_siblings m (cid / 32) (suc c.engine.merged) 0 main_depth
                    (prev_root version) f shallow (omega arith) stored.represents
                ∙ stored.has_root;
          },
        )

  local_entry_lem :
      (cid : ℕ)
      → (e : ProofEntry) × (local_entry (subtree_depth + main_depth) tree c version cid ≡ some e)
        × IsEntry tree (existing_leaves c.leaves) c.engine.nodes main_depth cid tree_root f e
  unfolding local_entry
  local_entry_lem cid = elim (Bool-cases (leb tree cid)) [
    | inl buffered ↦
        rw (buffered)
          (buffered_entry (subtree_depth + main_depth) cid, refl, (refl, inl (ground arith, refl)))
    | inr inside ↦
        let depth : subtree_depth + main_depth - subtree_depth ≡ main_depth = omega arith in
        let (path, built, is_path) = build_local_proof_path-IsPath cid (ground arith) in
        rw (inside, depth, built)
          (record { leaf_index = cid; path = path }, refl, (refl, inr (ground arith, is_path)))
  ]

  local_entries_lem :
      (cids : List ℕ)
      → (es : List ProofEntry) × (local_entries (subtree_depth + main_depth) tree c version cids
          ≡ some es)
        × AreEntries tree (existing_leaves c.leaves) c.engine.nodes main_depth cids tree_root f es
  unfolding local_entries
  local_entries_lem [] = ([], refl, tt)
  local_entries_lem (cid ∷ cids) =
      let (e, found, is_entry) = local_entry_lem cid in
      let (es, rest, are_entries) = local_entries_lem cids in
      rw (found, rest) (e ∷ es, refl, (is_entry, are_entries))

  ask_local-Answers :
      (mode : MerkleMode) (cids : List ℕ) (total : ℤ)
      → is_remote mode ≡ false
      → tree ≤ c.engine.merged
      → contract_version (subtree_depth + main_depth) tree c ≡ version
      → ((tree == 0) || is_there version) ≡ true
      → (r : ProofResponse) × (ask_local (subtree_depth + main_depth) tree mode c cids total
          ≡ some (ok r))
        × Answers tree
            (existing_leaves c.leaves)
            c.engine.nodes
            main_depth
            cids
            tree_root
            f
            (latest_cid_of total)
            (ok r)
  unfolding ask_local tree_root
  ask_local-Answers remote cids total here merged at there = absurd (ground arith)
  ask_local-Answers local cids total here merged at there =
      let (es, found, entries) = local_entries_lem cids in
      rw (at, there, le→ltb c.engine.merged tree merged, found) (_, refl, (entries, refl, refl))
  ask_local-Answers hybrid cids total here merged at there =
      let (es, found, entries) = local_entries_lem cids in
      rw (at, there, le→ltb c.engine.merged tree merged, found) (_, refl, (entries, refl, refl))

-- After a restart outside remote mode, over the storage of an engine in step with it, with a tree depth of
-- 5 to 32: a request for some leaves under a contract tree of at most 2 ^ 31 leaves that the engine
-- had merged, whose version is stored with the tree's nodes (or that is empty), is answered without the
-- service. The answer has an entry for each leaf in the order of the request, and the root of
-- that version. The entry of a leaf that is not in the contract's tree has a path of zeros. The other
-- ones begin with the leaf, its sibling, and the stored siblings of its ancestors up to level 4, and the
-- rest of them hashes the root of the leaf's batch to the root of the answer.
pub get_proof_by_cids-restarted :
    (service : Option (List ℕ → Result ProofError ProofResponse)) (main_depth : ℕ)
    (mode : MerkleMode) (cids : List ℕ) (total : ℤ) (tree : ℕ) (c : ChainTree) (f : ℕ → ℕ)
    → subtree_depth + main_depth ≤ 32
    → is_remote mode ≡ false
    → cids ≢ []
    → ChainInStep (subtree_depth + main_depth) c
    → total_elements_in_tree total 32 ≡ ok tree
    → tree ≤ 2 ^ 31
    → tree ≤ c.engine.merged
    → ((tree == 0) || is_there (contract_version (subtree_depth + main_depth) tree c)) ≡ true
    → StoredTree c.engine main_depth (contract_version (subtree_depth + main_depth) tree c) f
    → Answers tree
        (existing_leaves c.leaves)
        c.engine.nodes
        main_depth
        cids
        (version_root
          (subtree_depth + main_depth)
          (contract_version (subtree_depth + main_depth) tree c))
        f
        (latest_cid_of total)
        (get_proof_by_cids service
          (subtree_depth + main_depth)
          mode
          cids
          total
          (restarted (subtree_depth + main_depth) c)).1
unfolding get_proof_by_cids tree_root
get_proof_by_cids-restarted service main_depth mode [] total tree c f shallow here some_cids step
      sized small merged there stored =
    absurd (some_cids refl)
get_proof_by_cids-restarted service main_depth mode (cid ∷ cids) total tree c f shallow here
      some_cids step sized small merged there stored =
    let depth = subtree_depth + main_depth in
    let (counts, h) = step in
    let within : tree ≤ length (existing_leaves c.leaves) =
      omega (arith, merged, h.within, length-commitments (existing_leaves c.leaves)) in
    let again : ChainTree = record c { hydrated = true } in
    let (r, answered, answers) =
      ask_local-Answers main_depth tree shallow again small within (contract_version depth tree c) f
        stored mode (cid ∷ cids) total here merged refl there in
    rw (hydrate_from_storage-restarted mode depth c here step, sized, answered) answers
