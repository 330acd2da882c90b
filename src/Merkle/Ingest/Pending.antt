-- ===== src/Merkle/Ingest/Pending.antt =====
-- The pending leaves: the `while` of an ingestion ends with less than a batch of them.
use ocash_sdk.Prelude.{
  ℕ, zero, suc, ◌+◌, ◌/◌, ◌≤◌, ◌<◌, ◌≡◌, refl, sym, inl, inr, true, false, List, Option, none, some,
  length, take, drop, length-drop, leb, arith, Bool-cases,
}
use mathlib.Core.Path.{subst}
use ocash_sdk.Prelude.Results.{Result, ok, err}
use ocash_sdk.Merkle.Nodes.{Node}
use ocash_sdk.Merkle.Insert.{Descent}
use ocash_sdk.Merkle.Subtree.{SubtreeError, subtree_size, build_subtree}
use ocash_sdk.Merkle.Ingest.{
  Engine, Outcome, and_then, mismatches, persist, merge_built, merge_batch, merge_pending,
}

-- Without an error, the pending leaves are as before.
abbrev Keeps : List ℕ → Outcome → Type 0
Keeps pending (s, none) = s.pending ≡ pending
Keeps pending (s, some e) = Unit

module _ (read : ℕ → Option ℕ) (tree_depth : ℕ) where
  persist-Keeps :
      (d : Descent) (nodes : List Node) (new : ℕ) (s : Engine)
      → Keeps s.pending (persist read tree_depth d nodes new s)
  persist-Keeps d nodes new s = elim (Bool-cases (mismatches (read (new / subtree_size)) d.hash)) [
    | inl differs ↦ rw (differs) tt
    | inr fits ↦ rw (fits) refl
  ]

  merge_built-Keeps :
      (b : Result SubtreeError (ℕ × List Node)) (s : Engine)
      → Keeps s.pending (merge_built read tree_depth b s)
  merge_built-Keeps (err e) s = tt
  merge_built-Keeps (ok (sub, nodes)) s = persist-Keeps _ nodes (s.merged + subtree_size) s

  merge_batch-Keeps :
      (batch : List ℕ) (s : Engine) → Keeps s.pending (merge_batch read tree_depth batch s)
  unfolding merge_batch
  merge_batch-Keeps batch s = merge_built-Keeps (build_subtree batch s.merged) s

  -- Less than a batch is pending, unless there was an error.
  abbrev pub IsShort : Outcome → Type 0
  IsShort (s, none) = length s.pending < subtree_size
  IsShort (s, some e) = Unit

  and_then-IsShort :
      (o : Outcome) (next : Engine → Outcome) (pending : List ℕ)
      → Keeps pending o
      → ((s : Engine) → s.pending ≡ pending → IsShort (next s))
      → IsShort (and_then o next)
  and_then-IsShort (s, none) next pending kept h = h s kept
  and_then-IsShort (s, some e) next pending kept h = tt

  pub merge_pending-stops :
      (fuel : ℕ) (s : Engine)
      → leb subtree_size (length s.pending) ≡ false
      → merge_pending read tree_depth (suc fuel) s ≡ (s, none)
  unfolding merge_pending
  merge_pending-stops fuel s h = rw (h, merge_pending) refl

  pub merge_pending-goes :
      (fuel : ℕ) (s : Engine)
      → leb subtree_size (length s.pending) ≡ true
      → merge_pending read tree_depth (suc fuel) s
        ≡ and_then
            (merge_batch read tree_depth
              (take subtree_size s.pending)
              (record s { pending = drop subtree_size s.pending }))
            (merge_pending read tree_depth fuel)
  unfolding merge_pending
  merge_pending-goes fuel s h = rw (h, merge_pending) refl

  merge_pending-zero-IsShort :
      (s : Engine) → length s.pending ≤ 0 → IsShort (merge_pending read tree_depth zero s)
  unfolding merge_pending
  merge_pending-zero-IsShort s h = omega arith

  -- With the number of pending leaves as fuel (or more), the `while` ends by its own test: without an
  -- error, less than 32 leaves are pending.
  pub merge_pending-IsShort :
      (fuel : ℕ) (s : Engine)
      → length s.pending ≤ fuel
      → IsShort (merge_pending read tree_depth fuel s)
  merge_pending-IsShort zero s h = merge_pending-zero-IsShort s h
  merge_pending-IsShort (suc fuel) s h = elim (Bool-cases (leb subtree_size (length s.pending))) [
    | inr few ↦
        let short : length s.pending < subtree_size = ground arith in
        subst IsShort (sym (merge_pending-stops fuel s few)) short
    | inl full ↦
        let rest = drop subtree_size s.pending in
        let enough : 32 ≤ length s.pending = ground arith in
        let shorter = length-drop subtree_size s.pending in
        subst IsShort (sym (merge_pending-goes fuel s full)) (
          and_then-IsShort
            (merge_batch read tree_depth (take subtree_size s.pending)
              (record s { pending = rest }))
            (merge_pending read tree_depth fuel) rest
            (merge_batch-Keeps (take subtree_size s.pending) (record s { pending = rest }))
            λ next kept. merge_pending-IsShort fuel next (rw (kept) (omega arith)))
  ]
