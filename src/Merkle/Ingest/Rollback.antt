-- ===== src/Merkle/Ingest/Rollback.antt =====
-- A rollback leaves the later versions in storage, and the next merge builds on the latest of them.
use ocash_sdk.Prelude.{
  ℕ, zero, suc, ◌+◌, ◌-◌, ◌/◌, ◌%◌, ◌^◌, ◌≤◌, ◌<◌, ◌≡◌, refl, sym, ◌∙◌, ap, inl, inr, true, List,
  [], Option, none, some, arith, Bool-cases,
}
use ocash_sdk.Prelude.Maps.{lookup, nat_eq}
use ocash_sdk.Prelude.Results.{ok}
use ocash_sdk.Merkle.Nodes.{NodeId, Node, Version}
use ocash_sdk.Merkle.Tree.{root, root_ext, update}
use ocash_sdk.Merkle.Insert.{
  NodeStore, Descent, insert_subtree_root, subtree_depth, descend, go_right, prev_left, prev_right,
}
use ocash_sdk.Merkle.Insert.Bits.{go_right-true, go_right-false, mod-lt-pow}
use ocash_sdk.Merkle.Represents.{
  Represents, upper_half, child_hash-root, prev_left-Represents, prev_right-Represents,
}
use ocash_sdk.Merkle.Writes.{update_below, update_above, update_shift}
use ocash_sdk.Merkle.Persistent.{descend-right, descend-left}
use ocash_sdk.Merkle.Subtree.{subtree_size, build_subtree}
use ocash_sdk.Merkle.Ingest.{
  Engine, prev_root, rollback_to, rollback_found, merge_batch, merge_built, persist, mismatches,
}
use ocash_sdk.Merkle.Ingest.Current.{Current}
use ocash_sdk.Store.Memory.{values}
use ocash_sdk.Store.Memory.Chains.{latest_version}

module _ (m : NodeStore) (sub batch new : ℕ) where
  descend_leaf-root :
      (id : Option NodeId) (f : ℕ → ℕ)
      → (descend m sub batch new zero id).hash ≡ update f (batch % 2 ^ 0) sub 0
  unfolding descend
  descend_leaf-root id f = let set : update f (batch % 2 ^ 0) sub 0 ≡ sub = ground arith in sym set

  -- The hash that `descend` returns, from a tree of any versions.
  descend-root :
      (version level r : ℕ) (id : Option NodeId) (f : ℕ → ℕ)
      → subtree_depth + r ≤ 32
      → batch < 2 ^ 32
      → Represents m version level r id f
      → (descend m sub batch new r id).hash ≡ root r (update f (batch % 2 ^ r) sub)
  unfolding root
  descend-root v l zero id f le small h = descend_leaf-root id f
  descend-root v l (suc r) id f le small h =
      let g = update f (batch % 2 ^ suc r) sub in
      let left_tree = prev_left-Represents m v l r id f h in
      let right_tree = prev_right-Represents m v l r id f h in
      let bound = mod-lt-pow batch r in
      elim (Bool-cases (go_right batch r)) [
        | inl on_right ↦
            let at : batch % 2 ^ suc r ≡ 2 ^ r + batch % 2 ^ r =
              go_right-true batch r (omega arith) small on_right in
            let ih =
              descend-root v l r (prev_right m id) (upper_half r f) (omega arith) small
                right_tree in
            let other = child_hash-root m v l r (prev_left m id) f (omega arith) left_tree in
            let lower =
              root_ext r g f λ i lt. update_below f (batch % 2 ^ suc r) sub i (omega arith) in
            let upper =
              root_ext r (upper_half r g) (update (upper_half r f) (batch % 2 ^ r) sub)
                λ i lt. update_shift f (2 ^ r) (batch % 2 ^ suc r) (batch % 2 ^ r) sub i at in
            ap (λ (d : Descent). d.hash) (descend-right m sub batch new r id on_right)
            ∙ rw (ih, other, lower, upper) refl
        | inr on_left ↦
            let at : batch % 2 ^ suc r ≡ batch % 2 ^ r =
              go_right-false batch r (omega arith) small on_left in
            let ih = descend-root v l r (prev_left m id) f (omega arith) small left_tree in
            let other =
              child_hash-root m v l r (prev_right m id) (upper_half r f) (omega arith) right_tree in
            let lower =
              root_ext r g (update f (batch % 2 ^ r) sub)
                λ i lt. ap (λ (b : ℕ). update f b sub i) at in
            let upper =
              root_ext r (upper_half r g) (upper_half r f)
                λ i lt. update_above f (batch % 2 ^ suc r) sub (2 ^ r + i) (omega arith) in
            ap (λ (d : Descent). d.hash) (descend-left m sub batch new r id on_left)
            ∙ rw (ih, other, lower, upper) refl
      ]

-- A rollback that succeeds sets the merged count, and changes neither nodes nor versions.
abbrev pub RollsBack : ℕ → Engine → Engine → Type 0
RollsBack target s next =
    (next.merged ≡ target)
    × (next.nodes ≡ s.nodes)
    × (next.versions ≡ s.versions)
    × (next.pending ≡ [])

rollback_to-RollsBack :
    (tree_depth target : ℕ) (s : Engine)
    → (rollback_to tree_depth target s).1 ≡ true
    → RollsBack target s (rollback_to tree_depth target s).0
unfolding rollback_to
rollback_to-RollsBack tree_depth zero s h = (refl, refl, refl, refl)
rollback_to-RollsBack tree_depth (suc target) s h = found (lookup (suc target) s.versions) h
  where
    found :
        (o : Option Version)
        → (rollback_found o (suc target) s).1 ≡ true
        → RollsBack (suc target) s (rollback_found o (suc target) s).0
    found none h = cc
    found (some v) h = (refl, refl, refl, refl)

persist-root :
    (read : ℕ → Option ℕ) (tree_depth : ℕ) (d : Descent) (nodes : List Node) (new : ℕ) (s : Engine)
    → (persist read tree_depth d nodes new s).1 ≡ none
    → (persist read tree_depth d nodes new s).0.root_hash ≡ d.hash
persist-root read tree_depth d nodes new s h =
    elim (Bool-cases (mismatches (read (new / subtree_size)) d.hash)) [
      | inl differs ↦ let thrown = rw differs at h in cc
      | inr fits ↦ rw (fits) refl
    ]

built-root :
    (read : ℕ → Option ℕ) (r : ℕ) (s : Engine) (f : ℕ → ℕ) (sub : ℕ) (nodes : List Node)
    (version level : ℕ)
    → subtree_depth + r ≤ 32
    → s.merged / subtree_size < 2 ^ 32
    → Represents s.nodes version level r (prev_root (latest_version none (values s.versions))) f
    → (merge_built read (subtree_depth + r) (ok (sub, nodes)) s).1 ≡ none
    → (merge_built read (subtree_depth + r) (ok (sub, nodes)) s).0.root_hash
      ≡ root r (update f (s.merged / subtree_size % 2 ^ r) sub)
unfolding insert_subtree_root
built-root read r s f sub nodes version level le small tree done =
    let new = s.merged + subtree_size in
    let depth : subtree_depth + r - subtree_depth ≡ r = omega arith in
    let prev = prev_root (latest_version none (values s.versions)) in
    let d =
      descend s.nodes sub (s.merged / subtree_size) new (subtree_depth + r - subtree_depth) prev in
    persist-root read (subtree_depth + r) d nodes new s done
    ∙ rw (depth) (
        descend-root s.nodes sub (s.merged / subtree_size) new version level r prev f le small tree)

-- From a current storage of a tree of depth 5 to 32, after a rollback to `target` that succeeds,
-- however far, a merge without an error gives the engine the root of the tree of every batch that
-- was merged before the rollback, with only the batch at `target` replaced: the batches after it
-- are still in the tree. The batch index is below 2 ^ 32.
pub merge_batch-after_rollback :
    (read : ℕ → Option ℕ) (r : ℕ) (s : Engine) (f : ℕ → ℕ) (target : ℕ) (batch : List ℕ) (sub : ℕ)
    (nodes : List Node)
    → subtree_depth + r ≤ 32
    → target / subtree_size < 2 ^ 32
    → Current r s f
    → (rollback_to (subtree_depth + r) target s).1 ≡ true
    → build_subtree batch target ≡ ok (sub, nodes)
    → (merge_batch read (subtree_depth + r) batch (rollback_to (subtree_depth + r) target s).0).1
      ≡ none
    → (merge_batch read
        (subtree_depth + r)
        batch
        (rollback_to (subtree_depth + r) target s).0).0.root_hash
      ≡ root r (update f (target / subtree_size % 2 ^ r) sub)
unfolding merge_batch
merge_batch-after_rollback read r s f target batch sub nodes le small c rolled built done =
    let next = (rollback_to (subtree_depth + r) target s).0 in
    let (merged, same_nodes, same_versions, _) =
      rollback_to-RollsBack (subtree_depth + r) target s rolled in
    let again : build_subtree batch next.merged ≡ ok (sub, nodes) = rw (merged) built in
    let tree : Represents next.nodes (suc s.merged) 0 r
        (prev_root (latest_version none (values next.versions))) f =
      rw (same_nodes, same_versions) c.tree in
    let few : next.merged / subtree_size < 2 ^ 32 = rw (merged) small in
    let whole =
      built-root read r next f sub nodes (suc s.merged) 0 le few tree (rw again at done) in
    rw (again) (whole ∙ rw (merged) refl)
