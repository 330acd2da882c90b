-- ===== src/Merkle/Hydration/Ingestion.antt =====
-- `ingestEntryMemos` on leaves that follow the stored ones.
use ocash_sdk.Prelude.{
  ℕ, suc, ◌+◌, ◌≤◌, ◌≡◌, refl, sym, ◌∙◌, ap, inl, inr, Bool, true, false, ◌==◌, ◌||◌, List, [], ◌∷◌,
  ◌++◌, Option, none, some, leb, length, arith, Bool-cases, ==_iff, if◌then◌else◌, length-drop,
}
use mathlib.Core.List.{append-nil, append_assoc, map-append}
use mathlib.Core.Path.{subst}
use ocash_sdk.Prelude.Sorting.{sort}
use ocash_sdk.Merkle.Ingest.{Outcome, non_contiguous, root_mismatch, bad_subtree}
use ocash_sdk.Merkle.Hydration.{
  MerkleMode, remote, local, hybrid, ChainTree, hydrate_from_storage, hydrate_local, is_remote,
  commitments, IngestMemo, memo_leaves, kept_rows, append_rows, MerkleError, failed_to_ingest,
  invalid_commitment, ingested, ingest_sorted, ingest_some, ingest_entry_memos,
}
use ocash_sdk.Merkle.Hydration.Steps.{StaysInStep, Refused}
use ocash_sdk.Merkle.Hydration.Pushes.{fresh_leaves, fresh-Counts, ingest_leaves-InStep}
use ocash_sdk.Store.Memory.{Leaf, existing_leaves, push_leaves, cid_precedes}
use ocash_sdk.Store.Memory.Contiguous.{Counts}
use ocash_sdk.Merkle.Hydration.Restart.{ChainInStep, sort-Counts, length-commitments}

push_leaves-Counts :
    (existing : List Leaf) (next : ℕ) (rows : List Leaf)
    → Counts next rows
    → push_leaves existing next rows ≡ (existing ++ rows, false)
unfolding push_leaves
push_leaves-Counts existing next [] h =
    ap (λ (ls : List Leaf). (ls, false)) (sym (append-nil existing))
push_leaves-Counts existing next (l ∷ rows) (at, h) =
    let fits : (l.cid == next) ≡ true = (==_iff l.cid next).1 at in
    rw (fits) (
      push_leaves-Counts (existing ++ l ∷ []) (next + 1) rows
        (subst (λ k. Counts k rows) {x = suc next} {y = next + 1} (omega arith) h)
      ∙ ap (λ (ls : List Leaf). (ls, false)) (append_assoc existing (l ∷ []) rows))

Counts-fresh :
    (leaves : List Leaf) (next n : ℕ)
    → Counts next leaves
    → next ≤ n
    → Counts n (fresh_leaves n leaves)
Counts-fresh [] next n h le = tt
Counts-fresh (l ∷ leaves) next n (at, h) le = elim (Bool-cases (leb n l.cid)) [
  | inl kept ↦ rw (kept) (
    ground arith,
    rw (fresh-Counts leaves (suc next) n h (ground arith))
        (subst (λ k. Counts k leaves) {x = suc next} {y = suc n} (ground arith) h),
  )
  | inr dropped ↦ rw (dropped) (Counts-fresh leaves (suc next) n h (ground arith))
]

Counts-append :
    (xs ys : List Leaf) (next : ℕ)
    → Counts next xs
    → Counts (next + length xs) ys
    → Counts next (xs ++ ys)
Counts-append [] ys next h k = subst (λ n. Counts n ys) {x = next + 0} {y = next} (omega arith) k
Counts-append (x ∷ xs) ys next (at, h) k = (
  at,
  Counts-append xs ys (suc next) h (
      subst (λ n. Counts n ys) {x = next + suc (length xs)} {y = suc next + length xs} (omega arith)
        k),
)

kept_rows_lem :
    (o : Option (List Leaf)) (rows : List Leaf) → existing_leaves (kept_rows o (rows, false)) ≡ rows
kept_rows_lem none rows = refl
kept_rows_lem (some old) rows = refl

append_rows-Counts :
    (leaves : List Leaf) (o : Option (List Leaf)) (next : ℕ)
    → Counts next leaves
    → next ≤ length (existing_leaves o)
    → existing_leaves (append_rows leaves o)
      ≡ existing_leaves o ++ fresh_leaves (length (existing_leaves o)) leaves
unfolding append_rows
append_rows-Counts leaves o next h le =
    let n = length (existing_leaves o) in
    ap
      (λ (ls : List Leaf).
        existing_leaves (kept_rows o (push_leaves (existing_leaves o) n (fresh_leaves n ls))))
      (sort-Counts leaves next h)
    ∙ ap (λ (r : List Leaf × Bool). existing_leaves (kept_rows o r))
        (push_leaves-Counts (existing_leaves o) n (fresh_leaves n leaves)
          (Counts-fresh leaves next n h le))
    ∙ kept_rows_lem o (existing_leaves o ++ fresh_leaves n leaves)

hydrated_same :
    (mode : MerkleMode) (c : ChainTree)
    → is_remote mode ≡ false
    → c.hydrated ≡ true
    → hydrate_from_storage mode c ≡ c
unfolding hydrate_from_storage
hydrated_same mode c here ready =
    ap (λ (b : Bool). if is_remote mode || b then c else hydrate_local c) ready
    ∙ ap (λ (b : Bool). if b || true then c else hydrate_local c) here

-- The stored leaves are `rows`. Without an error the chain is in step; the only error is that of a
-- refused root.
abbrev pub Ingests : (ℕ → Option ℕ) → ℕ → List Leaf → ChainTree × Option MerkleError → Type 0
Ingests read tree_depth rows (c, none) =
    ChainInStep tree_depth c × (existing_leaves c.leaves ≡ rows)
Ingests read tree_depth rows (c, some (failed_to_ingest root_mismatch)) =
    Refused read tree_depth (commitments rows) c.engine × (existing_leaves c.leaves ≡ rows)
Ingests read tree_depth rows (c, some (failed_to_ingest non_contiguous)) = ⊥
Ingests read tree_depth rows (c, some (failed_to_ingest (bad_subtree e))) = ⊥
Ingests read tree_depth rows (c, some invalid_commitment) = ⊥

module _ (read : ℕ → Option ℕ) (tree_depth : ℕ) (mode : MerkleMode) where
  ingested-Ingests :
      (c : ChainTree) (rows : List Leaf) (o : Outcome)
      → Counts 0 rows
      → existing_leaves c.leaves ≡ rows
      → StaysInStep read tree_depth (commitments rows) o
      → Ingests read tree_depth rows (ingested mode c o)
  ingested-Ingests c rows (s, none) h e k = (rw (e) (h, k), e)
  ingested-Ingests c rows (s, some root_mismatch) h e k =
      elim mode as (λ k. Ingests read tree_depth rows (ingested k c (s, some root_mismatch))) [
        | remote ↦ (k, e)
        | local ↦ (k, e)
        | hybrid ↦ (k, e)
      ]
  ingested-Ingests c rows (s, some non_contiguous) h e k = absurd k
  ingested-Ingests c rows (s, some (bad_subtree x)) h e k = absurd k

  sorted-Ingests :
      (sorted : List Leaf) (c : ChainTree) (next : ℕ)
      → ChainInStep tree_depth c
      → Counts next sorted
      → next ≤ length (existing_leaves c.leaves)
      → Ingests read tree_depth
          (existing_leaves c.leaves ++ fresh_leaves (length (existing_leaves c.leaves)) sorted)
          (ingest_sorted read tree_depth mode sorted c)
  sorted-Ingests sorted c next (counts, h) q le =
      let old = existing_leaves c.leaves in
      let n = length old in
      let fresh = fresh_leaves n sorted in
      let expected : c.engine.merged + length c.engine.pending ≡ n = omega (
        arith,
        ap (λ (xs : List ℕ). length xs) h.pending,
        length-drop c.engine.merged (commitments old),
        length-commitments old,
        h.within,
      ) in
      let same_length : n ≡ length (commitments old) = sym (length-commitments old) in
      let whole : commitments (old ++ fresh) ≡ commitments old ++ commitments fresh =
        map-append (λ (l : Leaf). l.commitment) old fresh in
      ingested-Ingests (record c { leaves = append_rows sorted c.leaves }) (old ++ fresh) _
        (Counts-append old fresh 0 counts (
          subst (λ k. Counts k fresh) {x = n} {y = 0 + n} (omega arith)
            (Counts-fresh sorted next n q le)))
        (append_rows-Counts sorted c.leaves next q le)
        (rw (expected, whole)
          (ingest_leaves-InStep read tree_depth sorted next n c.engine (commitments old) q le
            same_length h))

  pub ingest_entry_memos-Ingests :
      (memos : List IngestMemo) (leaves : List Leaf) (c : ChainTree) (next : ℕ)
      → is_remote mode ≡ false
      → c.hydrated ≡ true
      → ChainInStep tree_depth c
      → memo_leaves memos ≡ some leaves
      → Counts next (sort cid_precedes leaves)
      → next ≤ length (existing_leaves c.leaves)
      → Ingests read tree_depth
          (existing_leaves c.leaves
            ++ fresh_leaves (length (existing_leaves c.leaves)) (sort cid_precedes leaves))
          (ingest_entry_memos read tree_depth mode memos c)
  unfolding ingest_entry_memos
  ingest_entry_memos-Ingests memos leaves c next here ready h valid q le =
      rw (here, hydrated_same mode c here ready, valid) (go leaves q)
    where
      go :
          (leaves : List Leaf)
          → Counts next (sort cid_precedes leaves)
          → Ingests read tree_depth
              (existing_leaves c.leaves
                ++ fresh_leaves (length (existing_leaves c.leaves)) (sort cid_precedes leaves))
              (ingest_some read tree_depth mode leaves c)
      go [] q = (h, sym (append-nil (existing_leaves c.leaves)))
      go (l ∷ leaves) q = sorted-Ingests (sort cid_precedes (l ∷ leaves)) c next h q le
