-- ===== src/Sync/State.antt =====
-- src/sync/syncEngine.ts: the state of `syncChain`, for one chain. What it calls is in two records: `Ports` for the
-- storage, the wallet and the Merkle engine, whose state is the world, and `Entry` for the entry
-- service, whose answers are functions of the number of requests made before. Debug events are left
-- out, and so is `hadError`, which nothing reads.
use Prim.Native.String.{String}
use ocash_sdk.Prelude.{ℕ, ◌+◌, Bool, true, false, List, [], ◌∷◌, ◌++◌, Option, none, some}
use ocash_sdk.Prelude.Results.{Result}
use ocash_sdk.Types.{SyncCursor}
use ocash_sdk.Store.Query.{EntryMemoRecord, EntryNullifierRecord}
use ocash_sdk.Sync.Retries.{Thrown, Signals}
use ocash_sdk.Sync.Memos.{EntryMemo, EntryNullifier, Numbered}

pub record MemoPage : Type 0 where
  pub items : List EntryMemo
  pub total : ℕ

pub record NullifierPage : Type 0 where
  pub items : List EntryNullifier
  pub total : ℕ
  pub ready : Bool

pub data SyncError : Type 0 where
  sync_aborted no_attempt still_running requires_memo memo_failed : SyncError
  wallet_not_open missing_entry_url missing_contract_address : SyncError
  call_failed : Thrown → SyncError
  -- expectedCid, firstCid, cids, the number applied, returned and total
  memos_not_contiguous : ℕ → Option ℕ → List ℕ → ℕ → ℕ → ℕ → SyncError
  -- offset, total and limit
  nullifiers_end_early : ℕ → ℕ → ℕ → SyncError
  -- offset and duplicate
  nullifiers_duplicate : ℕ → String → SyncError

pub data Progress : Type 0 where
  idle syncing synced failing : Progress

pub record ResourceStatus : Type 0 where
  pub status : Progress
  pub downloaded : ℕ
  pub total : Option ℕ
  pub error_message : Option SyncError

pub record MerkleStatus : Type 0 where
  pub status : Progress
  pub cursor : ℕ
  pub error_message : Option SyncError

pub record SyncChainStatus : Type 0 where
  pub memo : ResourceStatus
  pub nullifier : ResourceStatus
  pub merkle : MerkleStatus

pub data Resource : Type 0 where
  memos nullifiers merkles entry : Resource

pub data Event : Type 0 where
  sync_start : Event
  sync_done : SyncCursor → Event
  sync_progress : Resource → ℕ → ℕ → Event
  sync_error : Resource → SyncError → Event
  sync_retry : Resource → ℕ → Event

-- `upsert_entry_memos` and `upsert_entry_nullifiers` have no error: the code ignores theirs.
pub record Ports (W : Type 0) : Type 0 where
  pub is_open : W → Bool
  pub get_sync_cursor : W → Option SyncCursor
  pub set_sync_cursor : SyncCursor → W → W × Option Thrown
  pub upsert_entry_memos : List EntryMemoRecord → W → W
  pub upsert_entry_nullifiers : List EntryNullifierRecord → W → W
  pub ingest_entry_memos : List Numbered → W → W × Option Thrown
  pub apply_memos : List Numbered → W → W × Option Thrown
  pub mark_spent : List String → W → W × Option Thrown

-- The answers to a request for an offset and a limit. `is_cancelled` is `options.signal.aborted`, and
-- `signals` are the tests of the signal that also times out.
pub record Entry : Type 0 where
  pub list_memos : ℕ → ℕ → ℕ → Result Thrown MemoPage
  pub list_nullifiers_by_block : ℕ → ℕ → ℕ → Result Thrown NullifierPage
  pub is_cancelled : ℕ → Bool
  pub signals : Signals

-- The variables of `syncChain`, the chain's status, what it calls, and the events so far.
pub record ChainState (W : Type 0) : Type 0 where
  pub world : W
  pub cursor : SyncCursor
  pub status : SyncChainStatus
  pub requests : ℕ
  pub events : List Event

abbrev pub default_cursor : SyncCursor
default_cursor = record { memo = 0; nullifier = 0; merkle = 0 }

abbrev pub started : ℕ → ResourceStatus
started n = record { status = syncing; downloaded = n; total = none; error_message = none }

abbrev pub failed_at : ℕ → SyncError → ResourceStatus
failed_at n e = record { status = failing; downloaded = n; total = none; error_message = some e }

-- `status.memo = …` and its like.
module _ {W : Type 0} where
  abbrev pub set_memo : (ResourceStatus → ResourceStatus) → ChainState W → ChainState W
  set_memo f s = record s { status = record s.status { memo = f s.status.memo } }

  abbrev pub set_nullifier : (ResourceStatus → ResourceStatus) → ChainState W → ChainState W
  set_nullifier f s = record s { status = record s.status { nullifier = f s.status.nullifier } }

  abbrev pub set_merkle : (MerkleStatus → MerkleStatus) → ChainState W → ChainState W
  set_merkle f s = record s { status = record s.status { merkle = f s.status.merkle } }

  -- `if (enabled.has('merkle'))`.
  abbrev pub set_merkle_if : Bool → (MerkleStatus → MerkleStatus) → ChainState W → ChainState W
  set_merkle_if true f s = set_merkle f s
  set_merkle_if false f s = s

  abbrev pub emitted : Event → ChainState W → ChainState W
  emitted e s = record s { events = s.events ++ e ∷ [] }

  abbrev pub emitted_if : Bool → Event → ChainState W → ChainState W
  emitted_if true e s = emitted e s
  emitted_if false e s = s

-- The rows of the caches.
abbrev pub memo_record : ℕ → Numbered → EntryMemoRecord
memo_record chain_id m = record {
  chain_id = chain_id;
  cid = m.cid;
  commitment = m.entry.commitment;
  memo = m.entry.memo;
  is_transparent = m.entry.is_transparent;
  asset_id = m.entry.asset_id;
  amount = m.entry.amount;
  partial_hash = m.entry.partial_hash;
  tx_hash = m.entry.txhash;
  created_at = m.entry.created_at;
}

-- The row at index `idx` has `nid = offset + idx`.
abbrev pub nullifier_records : ℕ → ℕ → List EntryNullifier → List EntryNullifierRecord
nullifier_records chain_id nid [] = []
nullifier_records chain_id nid (n ∷ ns) =
    record { chain_id = chain_id; nid = nid; nullifier = n.nullifier; created_at = n.created_at }
    ∷ nullifier_records chain_id (nid + 1) ns

abbrev pub nullifier_of : EntryNullifier → String
nullifier_of n = n.nullifier

-- `contiguous[contiguous.length - 1]!.cid`, for a list that is not empty.
abbrev pub last_cid : ℕ → List Numbered → ℕ
last_cid cid [] = cid
last_cid cid (m ∷ ms) = last_cid m.cid ms

abbrev pub is_empty : {A : Type 0} → List A → Bool
is_empty [] = true
is_empty (x ∷ xs) = false
