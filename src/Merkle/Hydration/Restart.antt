-- ===== src/Merkle/Hydration/Restart.antt =====
-- A new engine over the storage of one that is in step with it.
use ocash_sdk.Prelude.{
  ℕ, zero, suc, ◌≤◌, ◌<◌, ◌≡◌, refl, sym, ◌∙◌, ap, inl, inr, true, false, List, [], ◌∷◌, Option,
  none, some, ltb, length, drop, arith, Bool-cases,
}
use ocash_sdk.Prelude.Sorting.{sort, insert_sorted}
use ocash_sdk.Merkle.Nodes.{Version}
use ocash_sdk.Merkle.Ingest.{Engine}
use ocash_sdk.Merkle.Hydration.{
  MerkleMode, ChainTree, restarted, hydrate_version, hydrate_pending, hydrate_from_storage,
  is_remote, commitments,
}
use ocash_sdk.Merkle.Hydration.Steps.{IsLatestOf, InStep}
use ocash_sdk.Store.Memory.{Leaf, values, existing_leaves, some_rows, cid_precedes}
use ocash_sdk.Store.Memory.Chains.{latest_version}
use ocash_sdk.Store.Memory.Contiguous.{Counts}

-- The storage's leaves count from 0, and the engine is in step with them.
abbrev pub ChainInStep : ℕ → ChainTree → Type 0
ChainInStep tree_depth c =
    Counts 0 (existing_leaves c.leaves)
    × InStep tree_depth c.engine (commitments (existing_leaves c.leaves))

insert_sorted-Counts :
    (l : Leaf) (leaves : List Leaf) (next : ℕ)
    → l.cid < next
    → Counts next leaves
    → insert_sorted cid_precedes l leaves ≡ l ∷ leaves
insert_sorted-Counts l [] next lt h = refl
insert_sorted-Counts l (k ∷ leaves) next lt (at, h) =
    let here : cid_precedes k l ≡ false = ground arith in rw (here) refl

pub sort-Counts :
    (leaves : List Leaf) (next : ℕ) → Counts next leaves → sort cid_precedes leaves ≡ leaves
sort-Counts [] next h = refl
sort-Counts (l ∷ leaves) next (at, h) =
    ap (insert_sorted cid_precedes l) (sort-Counts leaves (suc next) h)
    ∙ insert_sorted-Counts l leaves (suc next) (omega arith) h

pub length-commitments : (leaves : List Leaf) → length (commitments leaves) ≡ length leaves
length-commitments [] = refl
length-commitments (l ∷ leaves) = ap suc (length-commitments leaves)

drop-commitments :
    (n : ℕ) (leaves : List Leaf) → commitments (drop n leaves) ≡ drop n (commitments leaves)
drop-commitments zero leaves = refl
drop-commitments (suc n) [] = refl
drop-commitments (suc n) (l ∷ leaves) = drop-commitments n leaves

drop_past : (n : ℕ) (leaves : List Leaf) → length leaves ≤ n → drop n (commitments leaves) ≡ []
drop_past zero [] h = refl
drop_past zero (l ∷ leaves) h = absurd (omega arith)
drop_past (suc n) [] h = refl
drop_past (suc n) (l ∷ leaves) h = drop_past n leaves (omega arith)

hydrate_pending_lem :
    (o : Option (List Leaf)) (s : Engine)
    → Counts 0 (existing_leaves o)
    → s.pending ≡ []
    → hydrate_pending (some_rows o) s
      ≡ record s { pending = drop s.merged (commitments (existing_leaves o)) }
hydrate_pending_lem none s h e =
    λ i. record s { pending = (e ∙ sym (drop_past s.merged [] (omega arith))) i }
hydrate_pending_lem (some []) s h e =
    λ i. record s { pending = (e ∙ sym (drop_past s.merged [] (omega arith))) i }
hydrate_pending_lem (some (l ∷ ls)) s h e = elim (Bool-cases (ltb s.merged (length (l ∷ ls)))) [
  | inl more ↦ rw (more) (λ i. record s {
    pending =
        (ap (λ (rows : List Leaf). commitments (drop s.merged rows)) (sort-Counts (l ∷ ls) 0 h)
            ∙ drop-commitments s.merged (l ∷ ls))
          i;
  })
  | inr done ↦
      rw (done)
        (λ i. record s { pending = (e ∙ sym (drop_past s.merged (l ∷ ls) (ground arith))) i })
]

-- Outside remote mode, a new engine over the storage of an engine that is in step with it is hydrated to
-- that engine: the merged count, the root and the pending leaves are restored.
pub hydrate_from_storage-restarted :
    (mode : MerkleMode) (tree_depth : ℕ) (c : ChainTree)
    → is_remote mode ≡ false
    → ChainInStep tree_depth c
    → hydrate_from_storage mode (restarted tree_depth c) ≡ record c { hydrated = true }
unfolding hydrate_from_storage
hydrate_from_storage-restarted mode tree_depth c here (counts, h) =
    rw (here) (λ i. record c { hydrated = true; engine = engine i })
  where
    fresh : Engine
    fresh = (restarted tree_depth c).engine

    versioned :
        (o : Option Version)
        → IsLatestOf tree_depth c.engine o
        → hydrate_version o fresh ≡ record c.engine { pending = [] }
    versioned none (m, r) =
        λ i. record c.engine { merged = sym m i; root_hash = sym r i; pending = [] }
    versioned (some v) (m, r) = λ i. record c.engine { merged = m i; root_hash = r i; pending = [] }

    engine :
        hydrate_pending
          (some_rows c.leaves)
          (hydrate_version (latest_version none (values c.engine.versions)) fresh)
        ≡ c.engine
    engine =
        ap (hydrate_pending (some_rows c.leaves))
          (versioned (latest_version none (values c.engine.versions)) h.latest)
        ∙ hydrate_pending_lem c.leaves (record c.engine { pending = [] }) counts refl
        ∙ (λ i. record c.engine { pending = sym h.pending i })
