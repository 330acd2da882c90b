-- ===== src/Merkle/Hydration/Steps.antt =====
-- The merges of an ingestion keep the engine in step with its storage, or the contract refuses a root.
use ocash_sdk.Prelude.{
  ℕ, zero, suc, ◌+◌, ◌-◌, ◌/◌, ◌%◌, ◌≤◌, ◌≡◌, refl, sym, ◌∙◌, ap, inl, inr, true, false, ◌==◌, List,
  [], ◌++◌, Option, none, some, leb, length, take, drop, arith, Bool-cases, ==_iff, length-drop,
  length-take, drop-drop,
}
use mathlib.Core.List.{append-nil, append_assoc}
use mathlib.Core.Path.{subst}
use ocash_sdk.Prelude.Maps.{nat_eq}
use ocash_sdk.Prelude.Results.{ok}
use ocash_sdk.Merkle.Zeros.{get_zero_hash}
use ocash_sdk.Merkle.Nodes.{Node, Version}
use ocash_sdk.Merkle.Insert.{Descent, insert_subtree_root, subtree_depth}
use ocash_sdk.Merkle.Subtree.{subtree_size, build_subtree}
use ocash_sdk.Merkle.Ingest.{
  Engine, non_contiguous, root_mismatch, bad_subtree, Outcome, and_then, mismatches, persist,
  prev_root, rollback_to, merge_batch, merge_pending,
}
use ocash_sdk.Merkle.Ingest.Pending.{merge_pending-stops, merge_pending-goes}
use ocash_sdk.Merkle.Ingest.Current.{
  VersionsUpTo, latest_version-insert, VersionsUpTo-AllBelow, insert-VersionsUpTo,
}
use ocash_sdk.Store.Memory.{values}
use ocash_sdk.Store.Memory.Chains.{latest_version}

-- The latest version in storage is the engine's; without one, the engine's tree is empty.
abbrev pub IsLatestOf : ℕ → Engine → Option Version → Type 0
IsLatestOf tree_depth s none = (s.merged ≡ 0) × (s.root_hash ≡ get_zero_hash tree_depth)
IsLatestOf tree_depth s (some v) = (v.version ≡ s.merged) × (v.root_hash ≡ s.root_hash)

-- The engine after the commitments `all`: whole batches of them are merged, and the rest is pending.
pub record InStep (tree_depth : ℕ) (s : Engine) (all : List ℕ) : Type 0 where
  pub pending : s.pending ≡ drop s.merged all
  pub within : s.merged ≤ length all
  pub aligned : s.merged % 32 ≡ 0
  pub stored : VersionsUpTo s.merged s.versions
  pub latest : IsLatestOf tree_depth s (latest_version none (values s.versions))

-- No contract root is read.
abbrev pub no_reader : ℕ → Option ℕ
no_reader index = none

-- The root of the tree after the next batch of the pending leaves, where no contract root is read.
abbrev pub next_root : ℕ → Engine → ℕ
next_root tree_depth t =
    (merge_batch no_reader tree_depth (take 32 t.pending)
      (record t { pending = drop 32 t.pending })).0.root_hash

-- Where the contract refuses a root: an engine `t` after the first commitments of `all` has a whole batch
-- pending, the contract's root of that batch is not 0 and not the root of `t`'s tree with the batch,
-- and `s` is `t` rolled back.
pub record Refused (read : ℕ → Option ℕ) (tree_depth : ℕ) (all : List ℕ) (s : Engine) : Type 0 where
  pub before : Engine
  pub merged_or_pending : List ℕ
  pub others : List ℕ
  pub first_of_all : merged_or_pending ++ others ≡ all
  pub in_step : InStep tree_depth before merged_or_pending
  pub whole_batch : 32 ≤ length before.pending
  pub differs : mismatches (read ((before.merged + 32) / 32)) (next_root tree_depth before) ≡ true
  pub rolled_back :
      s
      ≡ (rollback_to tree_depth before.merged
          (record before { pending = drop 32 before.pending })).0

-- Without an error, the engine is in step; the only error is that of a refused root.
abbrev pub StaysInStep : (ℕ → Option ℕ) → ℕ → List ℕ → Outcome → Type 0
StaysInStep read tree_depth all (s, none) = InStep tree_depth s all
StaysInStep read tree_depth all (s, some root_mismatch) = Refused read tree_depth all s
StaysInStep read tree_depth all (s, some non_contiguous) = ⊥
StaysInStep read tree_depth all (s, some (bad_subtree e)) = ⊥

built_ok :
    (batch : List ℕ) (base : ℕ)
    → length batch ≡ 32
    → base % 32 ≡ 0
    → (built : ℕ × List Node) × (build_subtree batch base ≡ ok built)
unfolding build_subtree
built_ok batch base full aligned =
    let length_fits : (length batch == 32) ≡ true = (==_iff (length batch) 32).1 full in
    let base_fits : (base % 32 == 0) ≡ true = (==_iff (base % 32) 0).1 aligned in
    rw (length_fits, base_fits) (_, refl)

module _ (read : ℕ → Option ℕ) (tree_depth : ℕ) where
  persist-InStep :
      (d : Descent) (nodes : List Node) (s : Engine) (all : List ℕ)
      → s.pending ≡ drop (s.merged + 32) all
      → s.merged + 32 ≤ length all
      → s.merged % 32 ≡ 0
      → VersionsUpTo s.merged s.versions
      → mismatches (read ((s.merged + 32) / 32)) d.hash ≡ false
      → StaysInStep read tree_depth all (persist read tree_depth d nodes (s.merged + 32) s)
  persist-InStep d nodes s all pending within aligned stored agrees =
      let new = s.merged + 32 in
      let v : Version = record { version = new; root_id = d.id; root_hash = d.hash } in
      let found =
        latest_version-insert v none s.versions tt
          (VersionsUpTo-AllBelow s.merged new s.versions (omega arith) stored) in
      rw (agrees) (record {
        pending = pending;
        within = within;
        aligned = omega arith;
        stored = insert-VersionsUpTo s.merged v s.versions (omega arith) stored;
        latest = rw (found) (refl, refl);
      })

  merge_batch-InStep :
      (s : Engine) (all : List ℕ)
      → InStep tree_depth s all
      → 32 ≤ length s.pending
      → StaysInStep read tree_depth all (
          merge_batch read tree_depth
            (take 32 s.pending)
            (record s { pending = drop 32 s.pending }))
  unfolding merge_batch
  merge_batch-InStep s all h full =
      let next = record s { pending = drop 32 s.pending } in
      let (built, e) =
        built_ok (take 32 s.pending) s.merged (omega (arith, length-take 32 s.pending, full))
          h.aligned in
      let rest : drop 32 s.pending ≡ drop (s.merged + 32) all =
        ap (drop 32) h.pending ∙ drop-drop s.merged 32 (s.merged + 32) all refl in
      let enough : s.merged + 32 ≤ length all =
        omega (arith, full, ap (λ (xs : List ℕ). length xs) h.pending, length-drop s.merged all) in
      let d =
        insert_subtree_root s.nodes (tree_depth - subtree_depth)
          (prev_root (latest_version none (values s.versions))) built.0 (s.merged / subtree_size)
          (s.merged + 32) in
      elim (Bool-cases (mismatches (read ((s.merged + 32) / 32)) d.hash)) [
        | inr agrees ↦
            rw (e) (persist-InStep d built.1 next all rest enough h.aligned h.stored agrees)
        | inl differs ↦
            rw (e, differs)
              (record {
                before = s;
                merged_or_pending = all;
                others = [];
                first_of_all = append-nil all;
                in_step = h;
                whole_batch = full;
                differs = rw (e, next_root, merge_batch) differs;
                rolled_back = refl;
              })
      ]

  Refused-longer :
      (all rest more : List ℕ) (s : Engine)
      → all ++ more ≡ rest
      → Refused read tree_depth all s
      → Refused read tree_depth rest s
  Refused-longer all rest more s longer r = record {
    before = r.before;
    merged_or_pending = r.merged_or_pending;
    others = r.others ++ more;
    first_of_all =
        sym (append_assoc r.merged_or_pending r.others more)
        ∙ ap (λ (xs : List ℕ). xs ++ more) r.first_of_all
        ∙ longer;
    in_step = r.in_step;
    whole_batch = r.whole_batch;
    differs = r.differs;
    rolled_back = r.rolled_back;
  }

  pub and_then-InStep :
      (o : Outcome) (next : Engine → Outcome) (all rest more : List ℕ)
      → all ++ more ≡ rest
      → StaysInStep read tree_depth all o
      → ((s : Engine) → InStep tree_depth s all → StaysInStep read tree_depth rest (next s))
      → StaysInStep read tree_depth rest (and_then o next)
  and_then-InStep (s, none) next all rest more longer h k = k s h
  and_then-InStep (s, some root_mismatch) next all rest more longer h k =
      Refused-longer all rest more s longer h
  and_then-InStep (s, some non_contiguous) next all rest more longer h k = absurd h
  and_then-InStep (s, some (bad_subtree e)) next all rest more longer h k = absurd h

  pub merge_pending-InStep :
      (fuel : ℕ) (s : Engine) (all : List ℕ)
      → InStep tree_depth s all
      → StaysInStep read tree_depth all (merge_pending read tree_depth fuel s)
  unfolding merge_pending
  merge_pending-InStep zero s all h = h
  merge_pending-InStep (suc fuel) s all h =
      elim (Bool-cases (leb subtree_size (length s.pending))) [
        | inr few ↦
            subst (StaysInStep read tree_depth all)
              (sym (merge_pending-stops read tree_depth fuel s few)) h
        | inl full ↦
            subst (StaysInStep read tree_depth all)
              (sym (merge_pending-goes read tree_depth fuel s full))
              (and_then-InStep _ (merge_pending read tree_depth fuel) all all [] (append-nil all)
                (merge_batch-InStep s all h (ground arith))
                (λ next k. merge_pending-InStep fuel next all k))
      ]
