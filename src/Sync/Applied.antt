-- ===== src/Sync/Applied.antt =====
-- What the memo part of `syncChain` gives to the wallet, for any answers of the entry service.
pub mod Steps
use mathlib.Core.Path.{subst}
use mathlib.Core.List.{append_assoc, append-nil}
use Prim.Native.String.{String}
use ocash_sdk.Prelude.{
  ℕ, zero, suc, ◌+◌, ◌-◌, ◌==◌, ◌≡◌, refl, sym, ap, ◌∙◌, Bool, Bool-cases, ==_iff, Option-cases,
  inl, inr, true, false, ◌&&◌, ◌||◌, not, List, [], ◌∷◌, ◌++◌, map, Option, none, some, length, ltb,
  if◌then◌else◌, arith,
}
use ocash_sdk.Prelude.Results.{Result, ok, err, Result-cases}
use ocash_sdk.Prelude.Actions.{
  Post-state, Action, Leads, Post, Leads-bind, Leads-modify, Leads-catching, Leads-throw_when,
  throw_when, returned,
}
use ocash_sdk.Types.{SyncCursor}
use ocash_sdk.Merkle.Ingest.{current_merkle_root_index}
use ocash_sdk.Store.Query.{EntryMemoRecord, EntryNullifierRecord}
use ocash_sdk.Sync.Options.{Retry}
use ocash_sdk.Sync.Retries.{Thrown, Attempts}
use ocash_sdk.Sync.Memos.{
  Numbered, CountsFrom, sanitize_contiguous_memos, sanitize_contiguous_memos-maximal,
}
use ocash_sdk.Sync.State.{
  MemoPage, SyncError, Ports, Entry, ChainState, last_cid, MerkleStatus, set_merkle_if, Resource,
  is_empty, set_memo, emitted, emitted_if, started, sync_error, memos, merkles, failed_at,
  memo_record, ResourceStatus, Event,
}
use ocash_sdk.Sync.Pages.{
  called, asked, advanced, cached, apply_memo_page, memo_page, memo_pages, memo_answer,
  derive_merkle_cursor, memo_body, sync_memos, from_next, moved_to, memo_caught,
}
use ocash_sdk.Sync.Applied.Steps.{
  Origin, Call, marked_spent, memo_call, count_up, At, Somewhere, NextAt, Given, Fresh, called-At,
  asked-At, throws-At, set_merkle_if-At, set_memo-At, emitted-At, At-Somewhere, NextAt-if,
  advanced-At, from_next-Somewhere, Fresh-At, Fresh-same, Fresh-memo_started, cursor-At,
  Somewhere-shown, Somewhere-emitted, Somewhere-set_memo, Somewhere-emitted_if,
}

-- `applied` lists what the wallet was told, in calls of `applyMemos` and `markSpent` that did not throw.
pub record Recorder {W : Type 0} (p : Ports W) (applied : W → List Call) : Type 0 where
  pub at_set : (c : SyncCursor) (w : W) → applied (p.set_sync_cursor c w).0 ≡ applied w
  pub at_upsert :
      (rows : List EntryMemoRecord) (w : W) → applied (p.upsert_entry_memos rows w) ≡ applied w
  pub at_upsert_nullifiers :
      (rows : List EntryNullifierRecord) (w : W)
      → applied (p.upsert_entry_nullifiers rows w) ≡ applied w
  pub at_ingest : (ms : List Numbered) (w : W) → applied (p.ingest_entry_memos ms w).0 ≡ applied w
  pub at_apply :
      (ms : List Numbered) (w : W)
      → (p.apply_memos ms w).1 ≡ none
      → applied (p.apply_memos ms w).0 ≡ applied w ++ map memo_call ms
  pub at_apply_error :
      (ms : List Numbered) (w : W) (e : Thrown)
      → (p.apply_memos ms w).1 ≡ some e
      → applied (p.apply_memos ms w).0 ≡ applied w
  pub at_mark :
      (ns : List String) (w : W)
      → (p.mark_spent ns w).1 ≡ none
      → applied (p.mark_spent ns w).0 ≡ applied w ++ map marked_spent ns
  pub at_mark_error :
      (ns : List String) (w : W) (e : Thrown)
      → (p.mark_spent ns w).1 ≡ some e
      → applied (p.mark_spent ns w).0 ≡ applied w

module _ {W : Type 0} (p : Ports W) (e : Entry) (retry : Retry) (to_lower : String → String)
    (chain_id page_size : ℕ) (is_merkle : Bool) (g : Origin W) (r : Recorder p g.applied) where
  cached-At :
      (o : ℕ) (rows : List EntryMemoRecord) (s : ChainState W)
      → At g o s
      → At g o (cached (p.upsert_entry_memos rows) s)
  unfolding At
  cached-At o rows s (at, n, here, so_far) = (at, n, here, r.at_upsert rows s.world ∙ so_far)

  apply_memos-Given :
      (o : ℕ) (ms : List Numbered)
      → Leads (At g o) (called (p.apply_memos ms)) (λ u. Given g o ms) (Somewhere g)
  unfolding At Somewhere Given
  apply_memos-Given o ms s (at, n, here, so_far) =
      elim (Option-cases (p.apply_memos ms s.world).1) [
        | inl fine ↦
            let more = r.at_apply ms s.world fine in
            rw (fine) (at, n, here, more ∙ ap (λ cids. cids ++ map memo_call ms) so_far)
        | inr (e, raises) ↦
            let same = r.at_apply_error ms s.world e raises in
            rw (raises) (o, (at, n, here, same ∙ so_far))
      ]

  save_cursor-At :
      (o : ℕ)
      → Leads (At g o) (λ s. called (p.set_sync_cursor s.cursor) s) (λ u. At g o) (Somewhere g)
  save_cursor-At o s at = (called-At g) o (p.set_sync_cursor s.cursor) (r.at_set s.cursor) s at

  module _ (page : MemoPage) (o : ℕ) (ms : List Numbered) (run : CountsFrom o ms)
      (some_memos : is_empty ms ≡ false) where
    apply_memo_page-At :
        Leads
          (At g o)
          (apply_memo_page p e retry to_lower chain_id page_size is_merkle page ms)
          (NextAt g)
          (Somewhere g)
    unfolding apply_memo_page
    apply_memo_page-At =
        let next = last_cid 0 ms + 1 in
        Leads-modify (At g o) (At g o) (NextAt g) (Somewhere g) _ _
          (cached-At o (map (memo_record chain_id) ms))
          (Leads-bind (At g o) (λ u. At g o) (NextAt g) (Somewhere g) _ _
            (called-At g o (p.ingest_entry_memos ms) (r.at_ingest ms))
            (λ u.
              Leads-bind (At g o) (λ u. Given g o ms) (NextAt g) (Somewhere g) _ _
                (apply_memos-Given o ms)
                (λ u.
                  Leads-modify (Given g o ms) (At g next) (NextAt g) (Somewhere g) _ _
                    (advanced-At g o ms run some_memos)
                    (Leads-bind (At g next) (λ u. At g next) (NextAt g) (Somewhere g) _ _
                      (save_cursor-At next)
                      (λ u.
                        Leads-modify (At g next) (At g next) (NextAt g) (Somewhere g) _ _
                          (set_memo-At g next _)
                          (Leads-modify (At g next) (At g next) (NextAt g) (Somewhere g) _ _
                            (λ s at. set_merkle_if-At g next _ s is_merkle at)
                            (Leads-throw_when (At g next) (NextAt g) (Somewhere g) _ _ _
                              (At-Somewhere g next) (λ full. NextAt-if g next _))))))))

  memo_page-At :
      (o : ℕ)
      → Leads
          (At g o)
          (memo_page p e retry to_lower chain_id page_size is_merkle o)
          (NextAt g)
          (Somewhere g)
  unfolding memo_page memo_answer NextAt Somewhere
  memo_page-At o =
      Leads-bind (At g o) (λ u. At g o) (NextAt g) (Somewhere g) _ _
        (throws-At g o (λ s. e.is_cancelled s.requests) _)
        (λ u.
          Leads-bind (At g o) (λ page. (At g) o) (NextAt g) (Somewhere g) _ _ (asked-At g o _ _)
            (λ page.
              Leads-modify (At g o) (At g o) (NextAt g) (Somewhere g) _ _ (set_memo-At g o _) (
                Leads-throw_when (At g o) (NextAt g) (Somewhere g) _ _ _ (At-Somewhere g o)
                  (λ some_kept.
                    Leads-modify (At g o) (At g o) (NextAt g) (Somewhere g) _ _ (emitted-At g o _) (
                      let kept = sanitize_contiguous_memos page.items o in
                      elim (Bool-cases (is_empty kept)) [
                        | inl nothing ↦ rw (nothing) (At-Somewhere g o)
                        | inr something ↦ rw (something) (
                            apply_memo_page-At page o kept
                              (sanitize_contiguous_memos-maximal page.items o).0 something)
                      ])))))

  memo_pages-Somewhere :
      (fuel o : ℕ)
      → Leads
          (At g o)
          (memo_pages p e retry to_lower chain_id page_size is_merkle fuel o)
          (λ u. (Somewhere g))
          (Somewhere g)
  unfolding memo_pages
  memo_pages-Somewhere zero o = (At-Somewhere g) o
  memo_pages-Somewhere (suc fuel) o =
      Leads-bind (At g o) (NextAt g) (λ u. (Somewhere g)) (Somewhere g) _ _ (memo_page-At o)
        (from_next-Somewhere g _ (memo_pages-Somewhere fuel))

  derive_merkle_cursor-At :
      Leads
        (Fresh g)
        (derive_merkle_cursor p e retry to_lower chain_id page_size is_merkle)
        (λ u. At g g.start)
        (Somewhere g)
  derive_merkle_cursor-At s f =
      elim (Bool-cases (s.cursor.merkle == current_merkle_root_index s.cursor.memo)) [
        | inl same ↦ rw (same) (
            Fresh-same g s f
              ((==_iff s.cursor.merkle (current_merkle_root_index s.cursor.memo)).0 same))
        | inr other ↦ rw (other) (save_cursor-At g.start _ (Fresh-At g s f))
      ]

  memo_body-Somewhere :
      (fuel : ℕ)
      → Leads
          (Fresh g)
          (memo_body p e retry to_lower chain_id page_size is_merkle fuel)
          (λ u. (Somewhere g))
          (Somewhere g)
  memo_body-Somewhere fuel =
      Leads-modify (Fresh g) (Fresh g) (λ u. (Somewhere g)) (Somewhere g) _ _
        (λ s h. (Fresh-memo_started g) s h is_merkle _ (λ m. started s.cursor.memo))
        (Leads-bind (Fresh g) (λ u. At g g.start) (λ u. (Somewhere g)) (Somewhere g) _ _
          derive_merkle_cursor-At
          (λ u.
            Leads-modify (At g g.start) (At g g.start) (λ u. (Somewhere g)) (Somewhere g) _ _
              (λ s at. set_merkle_if-At g g.start _ s is_merkle at)
              (Leads-bind (At g g.start) (λ s. (At g) s.cursor.memo) (λ u. (Somewhere g))
                (Somewhere g) _ _ (cursor-At g)
                (λ s.
                  Leads-bind (At g s.cursor.memo) (λ u. (Somewhere g)) (λ u. (Somewhere g))
                    (Somewhere g) _ _ (memo_pages-Somewhere fuel s.cursor.memo)
                    (λ u.
                      Leads-modify (Somewhere g) (Somewhere g) (λ u. (Somewhere g)) (Somewhere g) _
                        _ (Somewhere-set_memo g _) (Somewhere-shown g is_merkle _))))))

  sync_memos-Somewhere :
      (fuel : ℕ)
      → Leads
          (Fresh g)
          (sync_memos p e retry to_lower chain_id page_size is_merkle fuel)
          (λ u. (Somewhere g))
          (Somewhere g)
  unfolding sync_memos
  sync_memos-Somewhere fuel =
      Leads-catching (Fresh g) (λ u. (Somewhere g)) (Somewhere g) (Somewhere g)
        (memo_body p e retry to_lower chain_id page_size is_merkle fuel)
        (memo_caught p e retry to_lower chain_id page_size is_merkle) (memo_body-Somewhere fuel)
        (λ error.
          Leads-modify (Somewhere g) (Somewhere g) (λ u. (Somewhere g)) (Somewhere g) _ _
            (Somewhere-emitted g (sync_error memos error) (λ m. failed_at m.downloaded error))
            (Somewhere-emitted_if g is_merkle (sync_error merkles error) _))

-- From the state at the start of the memo part.
origin : {W : Type 0} → (W → List Call) → ChainState W → Origin W
origin applied s = record {
  applied = applied;
  start = s.cursor.memo;
  nullifier = s.cursor.nullifier;
  before = applied s.world;
}

module _ {W : Type 0} (p : Ports W) (e : Entry) (retry : Retry) (to_lower : String → String)
    (chain_id page_size : ℕ) (is_merkle : Bool) where
  -- For any answers of the entry service and any failures, in however many rounds: the memo part gives
  -- the wallet the memos from the cursor on, each cid once and in order, and leaves the cursor right
  -- after the last of them. The merkle cursor is derived from it, and the nullifier cursor stays.
  -- `applied` lists what the wallet was given, in calls that did not throw.
  pub sync_memos-Applied :
      (applied : W → List Call)
      → Recorder p applied
      → (fuel : ℕ) (s : ChainState W)
      → let t = (sync_memos p e retry to_lower chain_id page_size is_merkle fuel s).0 in
        (n : ℕ) × (t.cursor ≡ record {
          memo = s.cursor.memo + n;
          nullifier = s.cursor.nullifier;
          merkle = current_merkle_root_index (s.cursor.memo + n);
        })
        × (applied t.world ≡ applied s.world ++ count_up s.cursor.memo n)
  unfolding Fresh Somewhere At origin
  sync_memos-Applied applied r fuel s =
      let (o, (at, n, here, given)) =
        Post-state (Somewhere (origin applied s))
          (sync_memos p e retry to_lower chain_id page_size is_merkle fuel s)
          (sync_memos-Somewhere p e retry to_lower chain_id page_size is_merkle (origin applied s) r
            fuel s (refl, refl, refl)) in
      (
        n,
        at
            ∙ ap
                (λ k. record {
                  memo = k;
                  nullifier = s.cursor.nullifier;
                  merkle = current_merkle_root_index k;
                })
                here,
        given,
      )
