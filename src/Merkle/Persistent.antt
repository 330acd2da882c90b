-- ===== src/Merkle/Persistent.antt =====
-- `insertSubtreeRoot` makes a new version of the tree with one batch replaced, and shares the rest.
use mathlib.Core.Path.{subst}
use ocash_sdk.Prelude.{
  ℕ, zero, suc, ◌+◌, ◌%◌, ◌^◌, ◌≤◌, ◌<◌, ◌≡◌, refl, sym, ◌∙◌, ap, inl, inr, true, false, List, [],
  ◌∷◌, Option, none, some, All, All-append, arith, Bool-cases,
}
use ocash_sdk.Prelude.Maps.{lookup, lookup-insert_self}
use ocash_sdk.Merkle.Nodes.{NodeId, cm, node_id_eq, Node, hash_pair}
use ocash_sdk.Merkle.Tree.{root, root_ext, update}
use ocash_sdk.Merkle.Insert.{
  NodeStore, subtree_depth, put_nodes, child_hash, prev_left, prev_right, go_right, Descent, branch,
  descend,
}
use ocash_sdk.Merkle.Insert.Bits.{go_right-true, go_right-false, mod-lt-pow}
use ocash_sdk.Merkle.Represents.{
  Below, upper_half, Represents, child_hash-root, Represents-agree, Represents-ext,
  prev_left-Represents, prev_right-Represents,
}
use ocash_sdk.Merkle.Writes.{
  IsNew, IsNew-mono, put_nodes-append, lookup-insert_ne, Below-ne, put_nodes-old, Below-mono,
  update_below, update_above, update_shift,
}

module _ (m : NodeStore) (sub batch version : ℕ) where
  descend-IsNew :
      (r : ℕ) (id : Option NodeId)
      → All (IsNew version (subtree_depth + r)) (descend m sub batch version r id).nodes
  unfolding descend
  descend-IsNew zero id = ((subtree_depth, refl, omega arith), tt)
  descend-IsNew (suc r) id = elim (Bool-cases (go_right batch r)) [
    | inl right ↦ rw (right) (
        All-append _ _ _
          (IsNew-mono version _ _ _ (omega arith) (descend-IsNew r (prev_right m id)))
          ((subtree_depth + suc r, refl, omega arith), tt))
    | inr left ↦ rw (left) (
        All-append _ _ _ (IsNew-mono version _ _ _ (omega arith) (descend-IsNew r (prev_left m id)))
          ((subtree_depth + suc r, refl, omega arith), tt))
  ]

  -- One more node on top of two trees that the store has once the nodes are written.
  branch-Represents :
      (r : ℕ) (left right : Option NodeId) (left_hash right_hash : ℕ) (nodes : List Node)
      (g : ℕ → ℕ)
      → Represents (put_nodes nodes m) version (suc (subtree_depth + r)) r left g
      → Represents (put_nodes nodes m) version (suc (subtree_depth + r)) r right (upper_half r g)
      → left_hash ≡ root r g
      → right_hash ≡ root r (upper_half r g)
      → let d =
          branch m sub batch version
            (subtree_depth + suc r)
            left
            left_hash
            right
            right_hash
            nodes in
        (d.hash ≡ root (suc r) g)
        × Represents
            (put_nodes d.nodes m)
            version
            (suc (subtree_depth + suc r))
            (suc r)
            (some d.id)
            g
  unfolding root
  branch-Represents r left right left_hash right_hash nodes g l h el eh =
      let d =
        branch m sub batch version (subtree_depth + suc r) left left_hash right right_hash nodes in
      let node : Node = record {
        id = cm version (subtree_depth + suc r);
        hash = d.hash;
        left_id = left;
        right_id = right;
      } in
      let written = put_nodes nodes m in
      let stored = put_nodes-append nodes (node ∷ []) m in
      let hash : hash_pair left_hash right_hash ≡ hash_pair (root r g) (root r (upper_half r g)) =
        rw (el, eh) in
      let keep = λ (k : NodeId) (below : Below version (suc (subtree_depth + r)) k).
        let b : Below version (suc (subtree_depth + suc r)) k =
          Below-mono version _ _ k (omega arith) below in
        let e : lookup k (put_nodes (node ∷ []) written) ≡ lookup k written =
          lookup-insert_ne (cm version (subtree_depth + suc r)) k node written (
            Below-ne version (suc (subtree_depth + r)) (subtree_depth + suc r) k below
              (omega arith)) in
        pair b e in
      let top = put_nodes (node ∷ []) written in
      let P = λ (store : NodeStore).
        Represents store version (suc (subtree_depth + suc r)) (suc r) (some d.id) g in
      (
        hash,
        subst P (sym stored) (
          inr (refl, omega arith),
          node,
          lookup-insert_self (cm version (subtree_depth + suc r)) node written,
          hash,
          Represents-agree written top version _ version _ r left g keep l,
          Represents-agree written top version _ version _ r right (upper_half r g) keep h,
        ),
      )
    where
      pair : {A B : Type 0} → A → B → A × B
      pair a b = (a, b)

  kept :
      (r : ℕ) (nodes : List Node)
      → All (IsNew version (subtree_depth + r)) nodes
      → (k : NodeId) → Below version 0 k
      → Below version (suc (subtree_depth + r)) k × (lookup k (put_nodes nodes m) ≡ lookup k m)
  kept r nodes new k below = (
    Below-mono version 0 _ k (omega arith) below,
    put_nodes-old version (subtree_depth + r) nodes m k new below,
  )

  pub descend-right :
      (r : ℕ) (id : Option NodeId)
      → go_right batch r ≡ true
      → let left = prev_left m id in
        let d = descend m sub batch version r (prev_right m id) in
        descend m sub batch version (suc r) id
        ≡ branch m sub batch version
            (subtree_depth + suc r)
            left
            (child_hash m (subtree_depth + r) left)
            (some d.id)
            d.hash
            d.nodes
  unfolding descend
  descend-right r id h = rw (h)

  pub descend-left :
      (r : ℕ) (id : Option NodeId)
      → go_right batch r ≡ false
      → let right = prev_right m id in
        let d = descend m sub batch version r (prev_left m id) in
        descend m sub batch version (suc r) id
        ≡ branch m sub batch version
            (subtree_depth + suc r)
            (some d.id)
            d.hash
            right
            (child_hash m (subtree_depth + r) right)
            d.nodes
  unfolding descend
  descend-left r id h = rw (h)

  -- What a descent promises for the leaves `g`.
  abbrev pub Makes : ℕ → (ℕ → ℕ) → Descent → Type 0
  Makes r g d =
      (d.hash ≡ root r g)
      × Represents (put_nodes d.nodes m) version (suc (subtree_depth + r)) r (some d.id) g

  descend-leaf :
      (id : Option NodeId) (f : ℕ → ℕ)
      → Makes zero (update f (batch % 2 ^ 0) sub) (descend m sub batch version zero id)
  unfolding descend root
  descend-leaf id f =
      let node : Node = record {
        id = cm version subtree_depth;
        hash = sub;
        left_id = none;
        right_id = none;
      } in
      let set : update f (batch % 2 ^ 0) sub 0 ≡ sub = ground arith in
      (
        sym set,
        (
          inr (refl, omega arith),
          node,
          lookup-insert_self (cm version subtree_depth) node m,
          sym set,
        ),
      )

  -- From nodes of earlier versions that represent a tree, of level at most 32, `descend` returns
  -- the root of the tree with the batch's leaf replaced, and with its new nodes the store
  -- represents that tree. The batch index is below 2 ^ 32.
  pub descend-Makes :
      (r : ℕ) (id : Option NodeId) (f : ℕ → ℕ)
      → subtree_depth + r ≤ 32
      → batch < 2 ^ 32
      → Represents m version 0 r id f
      → Makes r (update f (batch % 2 ^ r) sub) (descend m sub batch version r id)
  descend-Makes zero id f le small h = descend-leaf id f
  descend-Makes (suc r) id f le small h =
      let g = update f (batch % 2 ^ suc r) sub in
      let left = prev_left m id in
      let right = prev_right m id in
      let left_tree = prev_left-Represents m version 0 r id f h in
      let right_tree = prev_right-Represents m version 0 r id f h in
      let bound = mod-lt-pow batch r in
      elim (Bool-cases (go_right batch r)) [
        | inl on_right ↦
            let at : batch % 2 ^ suc r ≡ 2 ^ r + batch % 2 ^ r =
              go_right-true batch r (omega arith) small on_right in
            let d = descend m sub batch version r right in
            let ih = descend-Makes r right (upper_half r f) (omega arith) small right_tree in
            let lower =
              λ (i : ℕ) (lt : i < 2 ^ r). update_below f (batch % 2 ^ suc r) sub i (omega arith) in
            let upper = λ (i : ℕ) (lt : i < 2 ^ r).
              update_shift f (2 ^ r) (batch % 2 ^ suc r) (batch % 2 ^ r) sub i at in
            subst (Makes (suc r) g) (sym (descend-right r id on_right)) (
              branch-Represents r left (some d.id) _ _ d.nodes g
                (Represents-agree m (put_nodes d.nodes m) version 0 version _ r left g
                  (kept r d.nodes (descend-IsNew r right))
                  (Represents-ext m version 0 r left f g lower left_tree))
                (Represents-ext _ version _ r (some d.id) _ (upper_half r g) upper ih.1)
                (child_hash-root m version 0 r left f (omega arith) left_tree
                  ∙ sym (root_ext r g f lower))
                (ih.0 ∙ sym (root_ext r _ _ upper)))
        | inr on_left ↦
            let at : batch % 2 ^ suc r ≡ batch % 2 ^ r =
              go_right-false batch r (omega arith) small on_left in
            let d = descend m sub batch version r left in
            let ih = descend-Makes r left f (omega arith) small left_tree in
            let lower = λ (i : ℕ) (lt : i < 2 ^ r). ap (λ (b : ℕ). update f b sub i) at in
            let upper = λ (i : ℕ) (lt : i < 2 ^ r).
              update_above f (batch % 2 ^ suc r) sub (2 ^ r + i) (omega arith) in
            subst (Makes (suc r) g) (sym (descend-left r id on_left)) (
              branch-Represents r (some d.id) right _ _ d.nodes g
                (Represents-ext _ version _ r (some d.id) _ g lower ih.1)
                (Represents-agree m (put_nodes d.nodes m) version 0 version _ r right
                  (upper_half r g) (kept r d.nodes (descend-IsNew r left))
                  (Represents-ext m version 0 r right (upper_half r f) (upper_half r g) upper
                    right_tree))
                (ih.0 ∙ sym (root_ext r _ _ lower))
                (child_hash-root m version 0 r right (upper_half r f) (omega arith) right_tree
                  ∙ sym (root_ext r (upper_half r g) (upper_half r f) upper)))
      ]
