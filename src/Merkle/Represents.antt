-- ===== src/Merkle/Represents.antt =====
-- When the nodes of storage stand for a tree: the invariant of the persistent tree.
use ocash_sdk.Prelude.{
  ℕ, zero, suc, ◌+◌, ◌^◌, ◌≤◌, ◌<◌, ◌≡◌, sym, ◌∙◌, ◌⊎◌, Option, none, some, arith,
}
use ocash_sdk.Prelude.Maps.{lookup}
use ocash_sdk.Merkle.Zeros.{get_zero_hash}
use ocash_sdk.Merkle.Nodes.{NodeId, st, cm, node_id_eq, Node}
use ocash_sdk.Merkle.Tree.{root, root_zero, root_ext}
use ocash_sdk.Merkle.Insert.{NodeStore, subtree_depth, child_hash, prev_left, prev_right}

-- The main-tree ids of earlier versions, and of this version below a level.
abbrev pub Below : ℕ → ℕ → NodeId → Type 0
Below version level (cm v l) = (v < version) ⊎ ((v ≡ version) × (l < level))
Below version level (st l p) = ⊥

abbrev pub upper_half : ℕ → (ℕ → ℕ) → ℕ → ℕ
upper_half r f i = f (2 ^ r + i)

-- `id` stands, in the store `m`, for the tree of height `r` over `f`, by nodes that are `Below`; no
-- node stands for a tree of zero leaves.
abbrev pub Represents : NodeStore → ℕ → ℕ → ℕ → Option NodeId → (ℕ → ℕ) → Type 0
Represents m version level zero none f = f 0 ≡ get_zero_hash subtree_depth
Represents m version level zero (some id) f =
    Below version level id × (n : Node) × (lookup id m ≡ some n) × (n.hash ≡ f 0)
Represents m version level (suc r) none f =
    (i : ℕ) → i < 2 ^ suc r → f i ≡ get_zero_hash subtree_depth
Represents m version level (suc r) (some id) f =
    Below version level id
    × (n : Node) × (lookup id m ≡ some n)
    × (n.hash ≡ root (suc r) f)
    × Represents m version level r n.left_id f
    × Represents m version level r n.right_id (upper_half r f)

-- The hash that the engine reads for a child is the root of the child's tree.
pub child_hash-root :
    (m : NodeStore) (version level r : ℕ) (id : Option NodeId) (f : ℕ → ℕ)
    → subtree_depth + r ≤ 32
    → Represents m version level r id f
    → child_hash m (subtree_depth + r) id ≡ root r f
unfolding root
child_hash-root m version level zero none f le h = sym h
child_hash-root m version level zero (some id) f le (below, n, found, hash) =
    rw (found, child_hash) hash
child_hash-root m version level (suc r) none f le h = sym (root_zero (suc r) subtree_depth f le h)
child_hash-root m version level (suc r) (some id) f le (below, n, found, hash, left, right) =
    rw (found, child_hash) hash

-- Another store that has the same nodes below represents the same trees.
pub Represents-agree :
    (m m' : NodeStore) (version level version' level' r : ℕ) (id : Option NodeId) (f : ℕ → ℕ)
    → ((k : NodeId) → Below version level k → Below version' level' k × (lookup k m' ≡ lookup k m))
    → Represents m version level r id f
    → Represents m' version' level' r id f
Represents-agree m m' v l v' l' zero none f same h = h
Represents-agree m m' v l v' l' zero (some id) f same (below, n, found, hash) =
    let (below', e) = same id below in (below', n, e ∙ found, hash)
Represents-agree m m' v l v' l' (suc r) none f same h = h
Represents-agree m m' v l v' l' (suc r) (some id) f same (below, n, found, hash, left, right) =
    let (below', e) = same id below in
    (
      below',
      n,
      e ∙ found,
      hash,
      Represents-agree m m' v l v' l' r n.left_id f same left,
      Represents-agree m m' v l v' l' r n.right_id (upper_half r f) same right,
    )

-- The tree depends only on the leaves that it has.
pub Represents-ext :
    (m : NodeStore) (version level r : ℕ) (id : Option NodeId) (f g : ℕ → ℕ)
    → ((i : ℕ) → i < 2 ^ r → g i ≡ f i)
    → Represents m version level r id f
    → Represents m version level r id g
Represents-ext m v l zero none f g e h = e 0 (omega arith) ∙ h
Represents-ext m v l zero (some id) f g e (below, n, found, hash) =
    (below, n, found, hash ∙ sym (e 0 (omega arith)))
Represents-ext m v l (suc r) none f g e h = λ i lt. e i lt ∙ h i lt
Represents-ext m v l (suc r) (some id) f g e (below, n, found, hash, left, right) = (
  below,
  n,
  found,
  hash ∙ sym (root_ext (suc r) g f e),
  Represents-ext m v l r n.left_id f g (λ i lt. e i (omega arith)) left,
  Represents-ext m v l r n.right_id (upper_half r f) (upper_half r g)
      (λ i lt. e (2 ^ r + i) (omega arith)) right,
)

-- The children that `descend` reads represent the halves.
pub prev_left-Represents :
    (m : NodeStore) (version level r : ℕ) (id : Option NodeId) (f : ℕ → ℕ)
    → Represents m version level (suc r) id f
    → Represents m version level r (prev_left m id) f
prev_left-Represents m v l zero none f h = h 0 (omega arith)
prev_left-Represents m v l (suc r) none f h = λ i lt. h i (omega arith)
prev_left-Represents m v l r (some id) f (below, n, found, hash, left, right) =
    rw (found, prev_left) left

pub prev_right-Represents :
    (m : NodeStore) (version level r : ℕ) (id : Option NodeId) (f : ℕ → ℕ)
    → Represents m version level (suc r) id f
    → Represents m version level r (prev_right m id) (upper_half r f)
prev_right-Represents m v l zero none f h = h 1 (omega arith)
prev_right-Represents m v l (suc r) none f h = λ i lt. h (2 ^ suc r + i) (omega arith)
prev_right-Represents m v l r (some id) f (below, n, found, hash, left, right) =
    rw (found, prev_right) right
