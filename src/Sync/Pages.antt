-- ===== src/Sync/Pages.antt =====
-- src/sync/syncEngine.ts: the memo and the nullifier part of `syncChain`, for one chain. A `while (true)`
-- runs on fuel; one that has none left throws `still_running`, which the code does not have.
use Prim.Native.String.{String}
use ocash_sdk.Prelude.{
  ℕ, zero, suc, ◌+◌, ◌==◌, Bool, ◌&&◌, not, List, ◌++◌, map, Option, none, some, length, ltb,
  if◌then◌else◌,
}
use ocash_sdk.Prelude.Results.{Result, ok, err}
use ocash_sdk.Prelude.Actions.{
  Action, returned, thrown, modify, current, throw_when, raised, catching, ◌>>=◌, ◌>>◌,
}
use ocash_sdk.Types.{SyncCursor}
use ocash_sdk.Merkle.Ingest.{current_merkle_root_index}
use ocash_sdk.Sync.Options.{Retry}
use ocash_sdk.Sync.Retries.{
  Thrown, RetryError, aborted, nothing_tried, failed, Attempts, with_retries,
}
use ocash_sdk.Sync.Memos.{Numbered, sanitize_contiguous_memos, min_cid, sample_cids, find_duplicate}
use ocash_sdk.Sync.State.{
  MemoPage, NullifierPage, SyncError, sync_aborted, no_attempt, still_running, call_failed,
  memos_not_contiguous, nullifiers_end_early, nullifiers_duplicate, syncing, synced, failing,
  Resource, memos, nullifiers, merkles, sync_progress, sync_error, sync_retry, Ports, Entry,
  ChainState, started, failed_at, set_memo, set_nullifier, set_merkle_if, emitted, emitted_if,
  memo_record, nullifier_records, nullifier_of, last_cid, is_empty,
}

abbrev pub sync_error_of : RetryError → SyncError
sync_error_of aborted = sync_aborted
sync_error_of nothing_tried = no_attempt
sync_error_of (failed e) = call_failed e

abbrev pub call_error : Option Thrown → Option SyncError
call_error none = none
call_error (some e) = some (call_failed e)

abbrev pub not_contiguous : ℕ → ℕ → MemoPage → SyncError
not_contiguous offset applied page =
    memos_not_contiguous offset (min_cid page.items) (sample_cids page.items) applied
      (length page.items) page.total

module _ {W : Type 0} where
  abbrev pub answered : {A : Type 0} → Result RetryError A → Action (ChainState W) SyncError A
  answered (ok a) s = (s, ok a)
  answered (err e) s = (s, err (sync_error_of e))

  -- A request through `withRetries`; each retry is an event.
  abbrev pub asked : {A : Type 0} → Resource → (ℕ → Attempts A) → Action (ChainState W) SyncError A
  asked resource attempts s =
      let r = attempts s.requests in
      answered r.answer (record s {
        requests = r.requests;
        events = s.events ++ map (sync_retry resource) r.delays;
      })

  -- `await` of a call that changes the world.
  abbrev pub called : (W → W × Option Thrown) → Action (ChainState W) SyncError (Unit {0})
  called f s = let r = f s.world in raised (record s { world = r.0 }) (call_error r.1)

  abbrev pub cached : (W → W) → ChainState W → ChainState W
  cached f s = record s { world = f s.world }

  -- The `while (true)` goes on from the next offset; none is its `break`.
  abbrev pub from_next :
      (ℕ → Action (ChainState W) SyncError (Unit {0}))
      → Option ℕ
      → Action (ChainState W) SyncError (Unit {0})
  from_next again none = returned tt
  from_next again (some offset) = again offset

  abbrev pub moved_to : SyncCursor → ChainState W → ChainState W
  moved_to cursor s = record s { cursor = cursor }

  -- The cursor after the last applied memo, whose merkle part is derived from it.
  abbrev pub advanced : ℕ → ChainState W → ChainState W
  advanced offset s =
      moved_to (record s.cursor { memo = offset; merkle = current_merkle_root_index offset }) s

-- The parameters of `syncChain` besides the resources: `is_merkle` is `enabled.has('merkle')`.
module _ {W : Type 0} (p : Ports W) (e : Entry) (retry : Retry) (to_lower : String → String)
    (chain_id page_size : ℕ) (is_merkle : Bool) where
  abbrev pub check_abort : Action (ChainState W) SyncError (Unit {0})
  check_abort s = throw_when (e.is_cancelled s.requests) sync_aborted s

  abbrev pub save_cursor : Action (ChainState W) SyncError (Unit {0})
  save_cursor s = called (p.set_sync_cursor s.cursor) s

  -- The rest of a round, on a run of memos that is not empty: the next offset, or none for `break`.
  unfoldable pub apply_memo_page :
      MemoPage → List Numbered → Action (ChainState W) SyncError (Option ℕ)
  apply_memo_page page contiguous = do
    modify (cached (p.upsert_entry_memos (map (memo_record chain_id) contiguous)))
    called (p.ingest_entry_memos contiguous)
    called (p.apply_memos contiguous)
    let offset = last_cid 0 contiguous + 1
    modify (advanced offset)
    save_cursor
    modify (set_memo (λ m. record m { downloaded = offset }))
    modify (set_merkle_if is_merkle (λ m. record m { cursor = current_merkle_root_index offset }))
    throw_when (ltb (length contiguous) (length page.items))
        (not_contiguous offset (length contiguous) page)
    returned (if ltb (length contiguous) page_size then none else some offset)

  -- A round from its answer on.
  unfoldable pub memo_answer : ℕ → MemoPage → Action (ChainState W) SyncError (Option ℕ)
  memo_answer offset page = do
    modify (set_memo (λ m. record m { total = some page.total }))
    let contiguous = sanitize_contiguous_memos page.items offset
    throw_when (not (is_empty page.items) && is_empty contiguous) (not_contiguous offset 0 page)
    modify (emitted (sync_progress memos offset page.total))
    if is_empty contiguous then returned none else apply_memo_page page contiguous

  -- One round of the `while`.
  unfoldable pub memo_page : ℕ → Action (ChainState W) SyncError (Option ℕ)
  memo_page offset = do
    check_abort
    page ← asked memos (with_retries retry e.signals (λ n. e.list_memos n offset page_size))
    memo_answer offset page

  unfoldable pub memo_pages : ℕ → ℕ → Action (ChainState W) SyncError (Unit {0})
  memo_pages zero offset = thrown still_running
  memo_pages (suc fuel) offset = memo_page offset >>= from_next (memo_pages fuel)

  -- The merkle cursor is derived from the memo cursor, and saved where it changes.
  abbrev pub derive_merkle_cursor : Action (ChainState W) SyncError (Unit {0})
  derive_merkle_cursor s =
      let derived = current_merkle_root_index s.cursor.memo in
      if s.cursor.merkle == derived
      then (s, ok tt)
      else save_cursor (moved_to (record s.cursor { merkle = derived }) s)

  abbrev pub memo_started : ChainState W → ChainState W
  memo_started s =
      set_merkle_if is_merkle
        (λ m. record { status = syncing; cursor = s.cursor.merkle; error_message = none })
        (set_memo (λ m. started s.cursor.memo) s)

  abbrev pub merkle_shown : ChainState W → ChainState W
  merkle_shown s = set_merkle_if is_merkle (λ m. record m { cursor = s.cursor.merkle }) s

  abbrev pub memo_failing : SyncError → ChainState W → ChainState W
  memo_failing error s =
      emitted (sync_error memos error) (set_memo (λ m. failed_at m.downloaded error) s)

  abbrev pub merkle_failing : SyncError → ChainState W → ChainState W
  merkle_failing error s = emitted_if is_merkle (sync_error merkles error) (
      set_merkle_if is_merkle
        (λ m. record { status = failing; cursor = m.cursor; error_message = some error }) s)

  abbrev pub memo_body : ℕ → Action (ChainState W) SyncError (Unit {0})
  memo_body fuel = do
    modify memo_started
    derive_merkle_cursor
    modify merkle_shown
    s ← current
    memo_pages fuel s.cursor.memo
    modify (set_memo (λ m. record m { status = synced }))
    modify (set_merkle_if is_merkle (λ m. record m { status = synced }))

  abbrev pub memo_caught : SyncError → Action (ChainState W) SyncError (Unit {0})
  memo_caught error = do modify (memo_failing error); modify (merkle_failing error)

  -- `if (enabled.has('memo')) { try … catch … }`.
  unfoldable pub sync_memos : ℕ → Action (ChainState W) SyncError (Unit {0})
  sync_memos fuel = catching (memo_body fuel) memo_caught

  -- `page.total > offset`: the page is empty before the end of the list.
  abbrev pub ended_early : ℕ → NullifierPage → Bool
  ended_early offset page = is_empty page.items && ltb offset page.total && page.ready

  abbrev pub found_duplicate : ℕ → Option String → Option SyncError
  found_duplicate offset none = none
  found_duplicate offset (some v) = some (nullifiers_duplicate offset v)

  abbrev pub check_duplicate : ℕ → List String → Action (ChainState W) SyncError (Unit {0})
  check_duplicate offset values s =
      raised s (found_duplicate offset (find_duplicate to_lower values))

  unfoldable pub apply_nullifier_page :
      ℕ → NullifierPage → Action (ChainState W) SyncError (Option ℕ)
  apply_nullifier_page offset page = do
    let values = map nullifier_of page.items
    check_duplicate offset values
    modify (cached (p.upsert_entry_nullifiers (nullifier_records chain_id offset page.items)))
    called (p.mark_spent values)
    let next = offset + length page.items
    modify (λ s. moved_to (record s.cursor { nullifier = next }) s)
    save_cursor
    modify (set_nullifier (λ n. record n { downloaded = next }))
    returned (if ltb (length page.items) page_size then none else some next)

  unfoldable pub nullifier_answer : ℕ → NullifierPage → Action (ChainState W) SyncError (Option ℕ)
  nullifier_answer offset page = do
    modify (set_nullifier (λ n. record n { total = some page.total }))
    modify (emitted (sync_progress nullifiers offset page.total))
    throw_when (ended_early offset page) (nullifiers_end_early offset page.total page_size)
    if is_empty page.items then returned none else apply_nullifier_page offset page

  unfoldable pub nullifier_page : ℕ → Action (ChainState W) SyncError (Option ℕ)
  nullifier_page offset = do
    check_abort
    page ←
        asked nullifiers
          (with_retries retry e.signals (λ n. e.list_nullifiers_by_block n offset page_size))
    nullifier_answer offset page

  unfoldable pub nullifier_pages : ℕ → ℕ → Action (ChainState W) SyncError (Unit {0})
  nullifier_pages zero offset = thrown still_running
  nullifier_pages (suc fuel) offset = nullifier_page offset >>= from_next (nullifier_pages fuel)

  abbrev pub nullifier_failing : SyncError → ChainState W → ChainState W
  nullifier_failing error s =
      emitted (sync_error nullifiers error) (set_nullifier (λ n. failed_at n.downloaded error) s)

  abbrev pub nullifier_body : ℕ → Action (ChainState W) SyncError (Unit {0})
  nullifier_body fuel = do
    modify (λ s. set_nullifier (λ n. started s.cursor.nullifier) s)
    s ← current
    nullifier_pages fuel s.cursor.nullifier
    modify (set_nullifier (λ n. record n { status = synced }))

  abbrev pub nullifier_caught : SyncError → Action (ChainState W) SyncError (Unit {0})
  nullifier_caught error = modify (nullifier_failing error)

  -- `if (enabled.has('nullifier')) { try … catch … }`.
  unfoldable pub sync_nullifiers : ℕ → Action (ChainState W) SyncError (Unit {0})
  sync_nullifiers fuel = catching (nullifier_body fuel) nullifier_caught
