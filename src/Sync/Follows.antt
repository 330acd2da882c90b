-- ===== src/Sync/Follows.antt =====
-- The memo part of `syncChain` against an entry service that answers from a log of memos.
pub mod Steps
pub mod Rounds
use mathlib.Core.Path.{subst}
use Prim.Native.String.{String}
use ocash_sdk.Prelude.{
  ℕ, zero, suc, ◌+◌, ◌-◌, ◌==◌, ◌≤◌, ◌<◌, ◌≡◌, refl, sym, ap, ◌∙◌, Bool, Bool-cases, inl, inr, true,
  false, ◌&&◌, not, List, [], ◌∷◌, ◌++◌, map, Option, none, some, length, length-take, length-drop,
  take, drop, min, ltb, le→ltb, if◌then◌else◌, arith,
}
use ocash_sdk.Prelude.Results.{Result, ok, err}
use ocash_sdk.Prelude.Actions.{
  Action, Post, Leads, Leads-bind, Leads-modify, Leads-passes, Leads-catching, current, throw_when,
  returned,
}
use ocash_sdk.Types.{SyncCursor}
use ocash_sdk.Merkle.Ingest.{current_merkle_root_index}
use ocash_sdk.Sync.Options.{Retry}
use ocash_sdk.Sync.Retries.{Thrown, Signals, Attempts, with_retries, try_from_answers}
use ocash_sdk.Sync.Memos.{
  EntryMemo, Numbered, CountsFrom, sanitize_contiguous_memos, sanitize_contiguous_memos-maximal,
}
use ocash_sdk.Sync.State.{
  MemoPage, SyncError, Ports, Entry, ChainState, last_cid, is_empty, MerkleStatus, ResourceStatus,
  Event, set_memo, set_merkle_if, emitted, Progress, synced, started, memo_record, memos,
}
use ocash_sdk.Sync.Pages.{
  called, asked, cached, advanced, from_next, moved_to, apply_memo_page, memo_page, memo_answer,
  memo_pages, derive_merkle_cursor, memo_body, memo_caught, sync_memos, save_cursor,
}
use ocash_sdk.Sync.Applied.Steps.{last_cid-CountsFrom}
use ocash_sdk.Sync.Log.{IsLog, IsLog-page, sanitize_contiguous_memos-IsLog}
use ocash_sdk.Sync.Follows.Steps.{
  length-some, same_emptiness, Has, Never, NextHas, AtEnd, called-Has, cached-Has, emitted-Has,
  advanced-Has, derived-Has, current-Has, set_memo-Has, set_merkle_if-Has, from_next-AtEnd, Synced,
  set_synced, set_merkle_if-Synced, Post-Synced,
}
use ocash_sdk.Sync.Follows.Rounds.{Serves, Reliable, save_cursor-Has, memo_pages-AtEnd}

module _ {W : Type 0} (p : Ports W) (e : Entry) (retry : Retry) (to_lower : String → String)
    (chain_id page_size : ℕ) (is_merkle : Bool) (log : List EntryMemo) (is_log : IsLog 0 log)
    (serves : Serves e log) (reliable : Reliable p) (tries : 1 ≤ retry.attempts)
    (rows : 1 ≤ page_size) where
  derive_merkle_cursor-Has :
      (o : ℕ)
      → Leads
          (Has (length log) o)
          (derive_merkle_cursor p e retry to_lower chain_id page_size is_merkle)
          (λ u. Has (length log) o)
          (Never (length log))
  derive_merkle_cursor-Has o s at =
      elim (Bool-cases (s.cursor.merkle == current_merkle_root_index s.cursor.memo)) [
        | inl same ↦ rw (same) at
        | inr other ↦ rw (other) (
            save_cursor-Has p e retry to_lower chain_id page_size is_merkle log is_log serves
              reliable tries rows o _ (derived-Has (length log) o s at))
      ]

  memo_body-Synced :
      (fuel o : ℕ)
      → length log < o + fuel
      → o ≤ length log
      → Leads
          (Has (length log) o)
          (memo_body p e retry to_lower chain_id page_size is_merkle fuel)
          (λ u. Synced (length log))
          (Never (length log))
  memo_body-Synced fuel o enough within =
      let I = Has (length log) o in
      let T = λ (u : Unit {0}). Synced {W = W} (length log) in
      let R = Never (length log) in
      Leads-modify I I T R _ _
        (λ s at.
          set_merkle_if-Has (length log) o is_merkle _ _
            (set_memo-Has (length log) o (λ m. started s.cursor.memo) s at))
        (Leads-bind I (λ u. I) T R _ _ (derive_merkle_cursor-Has o)
          (λ u.
            Leads-modify I I T R _ _ (λ s at. set_merkle_if-Has (length log) o is_merkle _ s at)
              (Leads-bind I (λ s t. (s.cursor.memo ≡ o) × I t) T R _ _ (current-Has (length log) o)
                (λ s.
                  Leads-bind (λ t. (s.cursor.memo ≡ o) × I t) (λ u. AtEnd (length log)) T R _ _
                    (λ t at.
                      subst
                        (λ k.
                          Post (λ u. AtEnd (length log)) R
                            (memo_pages p e retry to_lower chain_id page_size is_merkle fuel k t))
                        (sym at.0)
                        (memo_pages-AtEnd p e retry to_lower chain_id page_size is_merkle log is_log
                          serves reliable tries rows fuel o enough within t at.1))
                    (λ u.
                      Leads-modify (AtEnd (length log)) (Synced (length log)) T R _ _
                        (set_synced (length log))
                        (set_merkle_if-Synced (length log) is_merkle _))))))

  sync_memos-Leads :
      (fuel o : ℕ)
      → length log < o + fuel
      → o ≤ length log
      → Leads
          (Has (length log) o)
          (sync_memos p e retry to_lower chain_id page_size is_merkle fuel)
          (λ u. Synced (length log))
          (Never (length log))
  unfolding sync_memos Never
  sync_memos-Leads fuel o enough within =
      Leads-catching (Has (length log) o) (λ u. Synced (length log)) (Never (length log))
        (Never (length log)) (memo_body p e retry to_lower chain_id page_size is_merkle fuel)
        (memo_caught p e retry to_lower chain_id page_size is_merkle)
        (memo_body-Synced fuel o enough within) (λ error t never. absurd never)

  -- A service that answers every request with the page of its log, where no call fails and nothing is
  -- aborted: from a cursor within the log, and with fuel for what is left of it, the memo part ends
  -- without an error as synced, and the memo cursor is the length of the log.
  pub sync_memos-Synced :
      (fuel : ℕ) (s : ChainState W)
      → s.cursor.memo ≤ length log
      → length log < s.cursor.memo + fuel
      → let t = sync_memos p e retry to_lower chain_id page_size is_merkle fuel s in
        (t.1 ≡ ok tt) × (t.0.cursor.memo ≡ length log) × (t.0.status.memo.status ≡ synced)
  unfolding Has
  sync_memos-Synced fuel s within enough =
      Post-Synced (length log) _
        (sync_memos-Leads fuel s.cursor.memo enough within s (refl, within))
