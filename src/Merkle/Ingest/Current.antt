-- ===== src/Merkle/Ingest/Current.antt =====
-- A merged batch: the latest version in storage is the merged one, and its nodes represent the tree of
-- the batches so far.
use ocash_sdk.Prelude.{
  ℕ, zero, suc, ◌+◌, ◌-◌, ◌/◌, ◌%◌, ◌^◌, ◌≤◌, ◌<◌, ◌≡◌, refl, sym, ◌∙◌, ap, inl, inr, true, false,
  ◌==◌, List, [], ◌∷◌, ◌++◌, Option, none, some, All, All-append, ltb, not, length, arith,
  Bool-cases,
}
use ocash_sdk.Prelude.Maps.{Map, lookup, insert, lookup-insert, nat_eq}
use ocash_sdk.Prelude.Results.{ok, Ensures, Ensures-throw_if, Ensures-eq_ok}
use ocash_sdk.Merkle.Nodes.{NodeId, st, cm, node_id_eq, Node, Version}
use ocash_sdk.Merkle.Tree.{root, update}
use ocash_sdk.Merkle.Insert.{
  NodeStore, Descent, put_nodes, insert_subtree_root, subtree_depth, descend,
}
use ocash_sdk.Merkle.Represents.{Below, Represents, Represents-agree}
use ocash_sdk.Merkle.Writes.{put_nodes-append, lookup-insert_ne}
use ocash_sdk.Merkle.Persistent.{descend-Makes}
use ocash_sdk.Merkle.Subtree.{
  subtree_size, build_subtree, build_levels, level_nodes, pair_up, not_32_leaves, not_aligned,
}
use ocash_sdk.Merkle.Ingest.{
  Engine, IngestError, prev_root, mismatches, persist, merge_built, merge_batch,
}
use ocash_sdk.Store.Memory.{values}
use ocash_sdk.Store.Memory.Chains.{latest_version, later_version}

-- Each stored version stands under its own number, which is at most `merged`.
abbrev pub VersionsUpTo : ℕ → Map ℕ Version → Type 0
VersionsUpTo merged [] = Unit
VersionsUpTo merged ((k, v) ∷ m) = ((k ≡ v.version) × (v.version ≤ merged)) × VersionsUpTo merged m

-- The storage is current for a tree of height `r` over the batches' subtree roots `f`.
pub record Current (r : ℕ) (s : Engine) (f : ℕ → ℕ) : Type 0 where
  pub stored : VersionsUpTo s.merged s.versions
  pub tree :
      Represents s.nodes (suc s.merged) 0 r (prev_root (latest_version none (values s.versions))) f

abbrev IsSt : Node → Type 0
IsSt n = (l : ℕ) × (p : ℕ) × (n.id ≡ st l p)

level_nodes-IsSt :
    (level position : ℕ) (hashes : List ℕ) → All IsSt (level_nodes level position hashes)
unfolding level_nodes
level_nodes-IsSt level position [] = tt
level_nodes-IsSt level position (h ∷ hashes) =
    ((level, position, refl), level_nodes-IsSt level (position + 1) hashes)

build_levels-IsSt :
    (levels level base : ℕ) (current : List ℕ)
    → All IsSt (build_levels levels level base current).nodes
unfolding build_levels
build_levels-IsSt zero level base current = tt
build_levels-IsSt (suc levels) level base current =
    All-append IsSt (level_nodes level (base % 2 ^ 32 / 2 ^ level) (pair_up current)) _
      (level_nodes-IsSt level (base % 2 ^ 32 / 2 ^ level) (pair_up current))
      (build_levels-IsSt levels (level + 1) base (pair_up current))

-- Subtree nodes do not change what a version's node is.
put_nodes-IsSt :
    (nodes : List Node) (m : NodeStore) (v l : ℕ)
    → All IsSt nodes
    → lookup (cm v l) (put_nodes nodes m) ≡ lookup (cm v l) m
put_nodes-IsSt [] m v l h = refl
put_nodes-IsSt (n ∷ nodes) m v l ((i, p, e), h) =
    put_nodes-IsSt nodes (insert n.id n m) v l h
    ∙ lookup-insert_ne n.id (cm v l) n m (λ same. ground arith)

put_nodes-same :
    (nodes : List Node) (m m' : NodeStore) (k : NodeId)
    → lookup k m' ≡ lookup k m
    → lookup k (put_nodes nodes m') ≡ lookup k (put_nodes nodes m)
put_nodes-same [] m m' k e = e
put_nodes-same (n ∷ nodes) m m' k e =
    put_nodes-same nodes (insert n.id n m) (insert n.id n m') k
      (lookup-insert n.id k n m' ∙ rw (e) (sym (lookup-insert n.id k n m)))

-- A newer version becomes the latest.
abbrev AllBelow : ℕ → Map ℕ Version → Type 0
AllBelow new [] = Unit
AllBelow new ((k, v) ∷ m) = ((k < new) × (v.version < new)) × AllBelow new m

abbrev OldOption : ℕ → Option Version → Type 0
OldOption new none = Unit
OldOption new (some v) = v.version < new

pub latest_version-insert :
    (v : Version) (o : Option Version) (m : Map ℕ Version)
    → OldOption v.version o
    → AllBelow v.version m
    → latest_version o (values (insert v.version v m)) ≡ some v
unfolding latest_version
latest_version-insert v none [] old h = refl
latest_version-insert v (some w) [] old h = ap some (rw (newer v.version w.version old) refl)
  where
    newer : (a b : ℕ) → b < a → ltb b a ≡ true
    newer a b h = ground arith
latest_version-insert v o ((k, w) ∷ m) old ((apart, below), h) =
    let other : (v.version == k) ≡ false = ground arith in
    rw (other) (latest_version-insert v (some (later_version o w)) m (later o old) h)
  where
    later : (o : Option Version) → OldOption v.version o → (later_version o w).version < v.version
    later none old = below
    later (some l) old = ground arith

pub VersionsUpTo-AllBelow :
    (merged new : ℕ) (m : Map ℕ Version) → merged < new → VersionsUpTo merged m → AllBelow new m
VersionsUpTo-AllBelow merged new [] lt h = tt
VersionsUpTo-AllBelow merged new ((k, v) ∷ m) lt ((e, le), h) =
    ((omega arith, omega arith), VersionsUpTo-AllBelow merged new m lt h)

pub insert-VersionsUpTo :
    (merged : ℕ) (v : Version) (m : Map ℕ Version)
    → merged < v.version
    → VersionsUpTo merged m
    → VersionsUpTo v.version (insert v.version v m)
insert-VersionsUpTo merged v [] lt h = ((refl, omega arith), tt)
insert-VersionsUpTo merged v ((k, w) ∷ m) lt ((e, le), h) =
    let other : (v.version == k) ≡ false = ground arith in
    rw (other) ((e, omega arith), insert-VersionsUpTo merged v m lt h)

-- Both stores of nodes agree on the main tree, and older versions are below the next one.
descent-Represents :
    (subtree_nodes : List Node) (d : Descent) (m : NodeStore) (new level r : ℕ) (f : ℕ → ℕ)
    → All IsSt subtree_nodes
    → Represents (put_nodes d.nodes m) new level r (some d.id) f
    → Represents (put_nodes (subtree_nodes ++ d.nodes) m) (suc new) 0 r (some d.id) f
descent-Represents subtree_nodes d m new level r f subtree h =
    Represents-agree (put_nodes d.nodes m) _ new level (suc new) 0 r (some d.id) f agree h
  where
    agree :
        (k : NodeId)
        → Below new level k
        → Below (suc new) 0 k
          × (lookup k (put_nodes (subtree_nodes ++ d.nodes) m) ≡ lookup k (put_nodes d.nodes m))
    agree (st l p) below = absurd below
    agree (cm v l) below =
        let kept =
          put_nodes-same d.nodes m (put_nodes subtree_nodes m) (cm v l)
            (put_nodes-IsSt subtree_nodes m v l subtree) in
        (ground arith, ap (lookup (cm v l)) (put_nodes-append subtree_nodes d.nodes m) ∙ kept)

older-Represents :
    (m : NodeStore) (merged new r : ℕ) (id : Option NodeId) (f : ℕ → ℕ)
    → merged < new
    → Represents m (suc merged) 0 r id f
    → Represents m new 0 r id f
older-Represents m merged new r id f lt h = Represents-agree m m (suc merged) 0 new 0 r id f agree h
  where
    agree : (k : NodeId) → Below (suc merged) 0 k → Below new 0 k × (lookup k m ≡ lookup k m)
    agree (st l p) below = absurd below
    agree (cm v l) below = (ground arith, refl)

-- What a call without an error leaves: a current storage, the tree's root, and so many merged leaves.
abbrev pub Merged : ℕ → (ℕ → ℕ) → ℕ → Engine × Option IngestError → Type 0
Merged r g n (s, none) = Current r s g × (s.root_hash ≡ root r g) × (s.merged ≡ n)
Merged r g n (s, some e) = Unit

module _ (read : ℕ → Option ℕ) (r : ℕ) (le : subtree_depth + r ≤ 32) (s : Engine) (f : ℕ → ℕ) where
  persist-Merged :
      (d : Descent) (subtree_nodes : List Node) (new level : ℕ) (g : ℕ → ℕ)
      → s.merged < new
      → VersionsUpTo s.merged s.versions
      → All IsSt subtree_nodes
      → (d.hash ≡ root r g) × Represents (put_nodes d.nodes s.nodes) new level r (some d.id) g
      → Merged r g new (persist read (subtree_depth + r) d subtree_nodes new s)
  persist-Merged d subtree_nodes new level g lt stored subtree (hash, tree) =
      elim (Bool-cases (mismatches (read (new / subtree_size)) d.hash)) [
        | inl differs ↦ rw (differs) tt
        | inr fits ↦
            let v : Version = record { version = new; root_id = d.id; root_hash = d.hash } in
            let latest =
              latest_version-insert v none s.versions tt
                (VersionsUpTo-AllBelow s.merged new s.versions lt stored) in
            rw (fits) (
              record {
                stored = insert-VersionsUpTo s.merged v s.versions lt stored;
                tree =
                    rw (latest)
                      (descent-Represents subtree_nodes d s.nodes new level r g subtree tree);
              },
              hash,
              refl,
            )
      ]

  built-Merged :
      (sub : ℕ) (nodes : List Node)
      → All IsSt nodes
      → s.merged / subtree_size < 2 ^ 32
      → Current r s f
      → Merged r
          (update f (s.merged / subtree_size % 2 ^ r) sub)
          (s.merged + subtree_size)
          (merge_built read (subtree_depth + r) (ok (sub, nodes)) s)
  unfolding insert_subtree_root
  built-Merged sub nodes subtree small c =
      let new = s.merged + subtree_size in
      let depth : subtree_depth + r - subtree_depth ≡ r = omega arith in
      let prev = prev_root (latest_version none (values s.versions)) in
      let old = older-Represents s.nodes s.merged new r prev f (omega arith) c.tree in
      let d = descend s.nodes sub (s.merged / subtree_size) new r prev in
      let makes = descend-Makes s.nodes sub (s.merged / subtree_size) new r prev f le small old in
      rw (depth) (
        persist-Merged d nodes new (suc (subtree_depth + r))
          (update f (s.merged / subtree_size % 2 ^ r) sub) (omega arith) c.stored subtree makes)

build_subtree-IsSt :
    (batch : List ℕ) (base : ℕ)
    → Ensures (λ (built : ℕ × List Node). All IsSt built.1) (build_subtree batch base)
unfolding build_subtree
build_subtree-IsSt batch base =
    let P = λ (built : ℕ × List Node). All IsSt built.1 in
    Ensures-throw_if P (not (length batch == subtree_size)) not_32_leaves _ λ _.
      Ensures-throw_if P (not (base % subtree_size == 0)) not_aligned _
        λ _. build_levels-IsSt 5 1 base batch

-- From a current storage, a merge of 32 leaves whose subtree is built, at a batch index below 2 ^
-- 32 and into a tree of depth 5 to 32, leaves without an error a current storage for the tree with
-- that batch's subtree root, the tree's root as the engine's, and 32 more merged leaves.
pub merge_batch-Merged :
    (read : ℕ → Option ℕ) (r : ℕ) (s : Engine) (f : ℕ → ℕ) (batch : List ℕ) (sub : ℕ)
    (nodes : List Node)
    → subtree_depth + r ≤ 32
    → s.merged / subtree_size < 2 ^ 32
    → Current r s f
    → build_subtree batch s.merged ≡ ok (sub, nodes)
    → Merged r
        (update f (s.merged / subtree_size % 2 ^ r) sub)
        (s.merged + subtree_size)
        (merge_batch read (subtree_depth + r) batch s)
unfolding merge_batch
merge_batch-Merged read r s f batch sub nodes le small c built =
    let subtree : All IsSt nodes =
      Ensures-eq_ok (λ (built : ℕ × List Node). All IsSt built.1)
        (build_subtree-IsSt batch s.merged) built in
    rw (built) (built-Merged read r le s f sub nodes subtree small c)

-- What `Merged` says of a call that had no error.
pub Merged-Current :
    (r : ℕ) (g : ℕ → ℕ) (n : ℕ) (o : Engine × Option IngestError)
    → Merged r g n o
    → o.1 ≡ none
    → Current r o.0 g
Merged-Current r g n (s, none) h e = h.0
Merged-Current r g n (s, some x) h e = cc
