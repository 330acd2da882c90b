-- ===== src/Merkle/Hydration/Pushes.antt =====
-- The leaves that an ingestion pushes keep the engine in step with its storage.
use ocash_sdk.Prelude.{
  ℕ, zero, suc, ◌+◌, ◌≤◌, ◌≡◌, refl, sym, ◌∙◌, ap, inl, inr, true, false, ◌==◌, List, [], ◌∷◌, ◌++◌,
  Option, none, some, ltb, leb, length, drop, filter, arith, Bool-cases, length-append,
}
use mathlib.Core.List.{append-nil, append_assoc}
use mathlib.Core.Path.{subst}
use ocash_sdk.Prelude.Maps.{nat_eq}
use ocash_sdk.Merkle.Nodes.{Version}
use ocash_sdk.Merkle.Ingest.{Engine, merge_pending, ingest_leaves}
use ocash_sdk.Merkle.Hydration.{commitments, indexed}
use ocash_sdk.Store.Memory.{Leaf, values}
use ocash_sdk.Store.Memory.Contiguous.{Counts}
use ocash_sdk.Store.Memory.Chains.{latest_version}
use ocash_sdk.Merkle.Hydration.Steps.{
  IsLatestOf, InStep, StaysInStep, and_then-InStep, merge_pending-InStep,
}

drop-snoc :
    (n : ℕ) (xs : List ℕ) (x : ℕ) → n ≤ length xs → drop n (xs ++ x ∷ []) ≡ drop n xs ++ x ∷ []
drop-snoc zero xs x h = refl
drop-snoc (suc n) [] x h = absurd (omega arith)
drop-snoc (suc n) (y ∷ xs) x h = drop-snoc n xs x (omega arith)

-- The leaves that are not behind `next`.
abbrev pub fresh_leaves : ℕ → List Leaf → List Leaf
fresh_leaves next leaves = filter (λ (l : Leaf). leb next l.cid) leaves

pub fresh-Counts :
    (leaves : List Leaf) (next n : ℕ)
    → Counts next leaves
    → n ≤ next
    → fresh_leaves n leaves ≡ leaves
fresh-Counts [] next n q h = refl
fresh-Counts (l ∷ leaves) next n (at, q) h =
    let kept : leb n l.cid ≡ true = ground arith in
    rw (kept, fresh-Counts leaves (suc next) n q (omega arith)) refl

module _ (read : ℕ → Option ℕ) (tree_depth : ℕ) where
  pushed-InStep :
      (s : Engine) (all : List ℕ) (commitment : ℕ)
      → InStep tree_depth s all
      → InStep tree_depth
          (record s { pending = s.pending ++ commitment ∷ [] })
          (all ++ commitment ∷ [])
  pushed-InStep s all commitment h = record {
    pending =
        ap (λ (xs : List ℕ). xs ++ commitment ∷ []) h.pending
        ∙ sym (drop-snoc s.merged all commitment h.within);
    within = omega (arith, h.within, length-append all (commitment ∷ []));
    aligned = h.aligned;
    stored = h.stored;
    latest = go (latest_version none (values s.versions)) h.latest;
  }
    where
      go :
          (o : Option Version)
          → IsLatestOf tree_depth s o
          → IsLatestOf tree_depth (record s { pending = s.pending ++ commitment ∷ [] }) o
      go none l = l
      go (some v) l = l

  pub ingest_leaves-InStep :
      (leaves : List Leaf) (next expected : ℕ) (s : Engine) (all : List ℕ)
      → Counts next leaves
      → next ≤ expected
      → expected ≡ length all
      → InStep tree_depth s all
      → StaysInStep read tree_depth
          (all ++ commitments (fresh_leaves expected leaves))
          (ingest_leaves read tree_depth (indexed leaves) expected s)
  unfolding ingest_leaves
  ingest_leaves-InStep [] next expected s all q le e h =
      subst (InStep tree_depth s) (sym (append-nil all)) h
  ingest_leaves-InStep (l ∷ leaves) next expected s all (at, q) le e h =
      elim (Bool-cases (ltb l.cid expected)) [
        | inl behind ↦
            let dropped : leb expected l.cid ≡ false = ground arith in
            rw (dropped, behind, ingest_leaves)
              (ingest_leaves-InStep leaves (suc next) expected s all q (ground arith) e h)
        | inr ahead ↦
            let here : (l.cid == expected) ≡ true = ground arith in
            let kept : leb expected l.cid ≡ true = ground arith in
            rw
              (
                kept,
                ahead,
                here,
                fresh-Counts leaves (suc next) expected q (ground arith),
                ingest_leaves,
              )
              (and_then-InStep read tree_depth
                (merge_pending read tree_depth (length (s.pending ++ l.commitment ∷ []))
                  (record s { pending = s.pending ++ l.commitment ∷ [] }))
                (ingest_leaves read tree_depth (indexed leaves) (expected + 1))
                (all ++ l.commitment ∷ []) (all ++ l.commitment ∷ commitments leaves)
                (commitments leaves) (append_assoc all (l.commitment ∷ []) (commitments leaves))
                (merge_pending-InStep read tree_depth (length (s.pending ++ l.commitment ∷ [])) _ _
                  (pushed-InStep s all l.commitment h))
                (λ after k.
                  subst
                    (λ (xs : List ℕ).
                      StaysInStep read tree_depth xs
                        (ingest_leaves read tree_depth (indexed leaves) (expected + 1) after))
                    (ap (λ (ls : List Leaf). (all ++ l.commitment ∷ []) ++ commitments ls)
                        (fresh-Counts leaves (suc next) (expected + 1) q (ground arith))
                      ∙ append_assoc all (l.commitment ∷ []) (commitments leaves))
                    (ingest_leaves-InStep leaves (suc next) (expected + 1) after
                      (all ++ l.commitment ∷ []) q (ground arith)
                      (omega (arith, e, length-append all (l.commitment ∷ []))) k)))
      ]
