-- ===== src/Merkle/Hydration.antt =====
-- src/merkle/merkleEngine.ts: `hydrateFromStorage` and the public `ingestEntryMemos`, for one chain. The
-- storage is the memory store's; its reads do not throw. Calls follow one another.
pub mod Steps
pub mod Pushes
pub mod Restart
pub mod Ingestion
use ocash_sdk.Prelude.{
  ℕ, zero, suc, ◌^◌, ◌+◌, ◌-◌, Bool, true, false, ◌||◌, List, [], ◌∷◌, map, Option, none, some,
  length, drop, filter, ltb, leb, if◌then◌else◌,
}
use ocash_sdk.Prelude.Int.{ℤ, pos, negsuc}
use ocash_sdk.Prelude.Sorting.{sort}
use ocash_sdk.Merkle.Zeros.{get_zero_hash}
use ocash_sdk.Merkle.Nodes.{Version}
use ocash_sdk.Merkle.Ingest.{Engine, IngestError, non_contiguous, Outcome, ingest_leaves}
use ocash_sdk.Store.Memory.{Leaf, values, existing_leaves, some_rows, push_leaves, cid_precedes}
use ocash_sdk.Store.Memory.Chains.{latest_version}

pub data MerkleMode : Type 0 where
  remote local hybrid : MerkleMode

-- The engine's state of the chain and the storage's leaves; the other storage is in `engine`.
pub record ChainTree : Type 0 where
  pub hydrated : Bool
  pub engine : Engine
  pub leaves : Option (List Leaf)

-- A new engine over the storage of another one.
abbrev pub restarted : ℕ → ChainTree → ChainTree
restarted tree_depth c = record c {
  hydrated = false;
  engine = record c.engine { merged = 0; root_hash = get_zero_hash tree_depth; pending = [] };
}

abbrev pub hydrate_version : Option Version → Engine → Engine
hydrate_version none s = s
hydrate_version (some latest) s = record s { merged = latest.version; root_hash = latest.root_hash }

abbrev pub commitments : List Leaf → List ℕ
commitments leaves = map (λ (l : Leaf). l.commitment) leaves

-- The leaves beyond the merged ones replace the pending ones.
abbrev pub hydrate_pending : Option (List Leaf) → Engine → Engine
hydrate_pending none s = s
hydrate_pending (some leaves) s =
    if ltb s.merged (length leaves)
    then record s { pending = commitments (drop s.merged (sort cid_precedes leaves)) }
    else s

abbrev pub hydrate_local : ChainTree → ChainTree
hydrate_local c = record c {
  hydrated = true;
  engine =
      hydrate_pending (some_rows c.leaves)
        (hydrate_version (latest_version none (values c.engine.versions)) c.engine);
}

abbrev pub is_remote : MerkleMode → Bool
is_remote remote = true
is_remote local = false
is_remote hybrid = false

unfoldable pub hydrate_from_storage : MerkleMode → ChainTree → ChainTree
hydrate_from_storage mode c = if is_remote mode || c.hydrated then c else hydrate_local c

-- A memo as it is handed in. `cid` may be null; `commitment` is `BigInt` of the value, none where that
-- throws.
pub record IngestMemo : Type 0 where
  pub cid : Option ℕ
  pub commitment : Option ℤ

-- `normalizeHex32`, none where it throws: a canonical hex string of 32 bytes stands for its number.
abbrev pub normalize_hex32 : Option ℤ → Option ℕ
normalize_hex32 none = none
normalize_hex32 (some (negsuc n)) = none
normalize_hex32 (some (pos n)) = if ltb n (2 ^ 256) then some n else none

abbrev pub leaf_before : ℕ → Option ℕ → Option (List Leaf) → Option (List Leaf)
leaf_before cid (some commitment) (some leaves) =
    some (record { cid = cid; commitment = commitment } ∷ leaves)
leaf_before cid (some commitment) none = none
leaf_before cid none leaves = none

-- The leaves of the memos with a cid; none where a commitment of theirs throws.
unfoldable pub memo_leaves : List IngestMemo → Option (List Leaf)
memo_leaves [] = some []
memo_leaves (memo ∷ memos) = elim memo.cid [
  | none ↦ memo_leaves memos
  | some cid ↦ leaf_before cid (normalize_hex32 memo.commitment) (memo_leaves memos)
]

-- `appendMerkleLeaves` on the rows of the chain; its error is swallowed.
abbrev pub kept_rows : Option (List Leaf) → List Leaf × Bool → Option (List Leaf)
kept_rows none (rows, true) = none
kept_rows none (rows, false) = some rows
kept_rows (some old) (rows, failed) = some rows

unfoldable pub append_rows : List Leaf → Option (List Leaf) → Option (List Leaf)
append_rows leaves present =
    let existing = existing_leaves present in
    let next = length existing in
    kept_rows present
      (push_leaves existing next (filter (λ (l : Leaf). leb next l.cid) (sort cid_precedes leaves)))

pub data MerkleError : Type 0 where
  failed_to_ingest : IngestError → MerkleError
  invalid_commitment : MerkleError

-- The end of the second `try`: a gap is no error in hybrid mode.
abbrev pub ingested : MerkleMode → ChainTree → Outcome → ChainTree × Option MerkleError
ingested mode c (s, none) = (record c { engine = s; hydrated = true }, none)
ingested hybrid c (s, some non_contiguous) = (record c { engine = s }, none)
ingested mode c (s, some e) = (record c { engine = s }, some (failed_to_ingest e))

abbrev pub indexed : List Leaf → List (ℕ × ℕ)
indexed leaves = map (λ (l : Leaf). (l.cid, l.commitment)) leaves

module _ (read : ℕ → Option ℕ) (tree_depth : ℕ) (mode : MerkleMode) where
  abbrev pub ingest_sorted : List Leaf → ChainTree → ChainTree × Option MerkleError
  ingest_sorted sorted c =
      let stored = record c { leaves = append_rows sorted c.leaves } in
      ingested mode stored (
        ingest_leaves read tree_depth (indexed sorted) (c.engine.merged + length c.engine.pending)
          c.engine)

  abbrev pub ingest_some : List Leaf → ChainTree → ChainTree × Option MerkleError
  ingest_some [] c = (c, none)
  ingest_some (l ∷ leaves) c = ingest_sorted (sort cid_precedes (l ∷ leaves)) c

  abbrev pub ingest_valid : Option (List Leaf) → ChainTree → ChainTree × Option MerkleError
  ingest_valid none c = (c, some invalid_commitment)
  ingest_valid (some leaves) c = ingest_some leaves c

  unfoldable pub ingest_entry_memos : List IngestMemo → ChainTree → ChainTree × Option MerkleError
  ingest_entry_memos memos c =
      if is_remote mode
      then (c, none)
      else ingest_valid (memo_leaves memos) (hydrate_from_storage mode c)
