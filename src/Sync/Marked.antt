-- ===== src/Sync/Marked.antt =====
-- What the nullifier part of `syncChain` tells the wallet, for any answers of the entry service.
pub mod Steps
use mathlib.Core.Path.{subst}
use mathlib.Core.List.{append_assoc, append-nil}
use Prim.Native.String.{String}
use ocash_sdk.Prelude.{
  ℕ, zero, suc, ◌+◌, ◌≡◌, refl, sym, ap, ◌∙◌, Bool, true, false, Bool-cases, Option-cases, inl, inr,
  List, [], ◌∷◌, ◌++◌, map, Option, none, some, length, length-append, if◌then◌else◌, arith,
}
use ocash_sdk.Prelude.Results.{Result-cases}
use ocash_sdk.Prelude.Actions.{
  Action, Leads, Leads-bind, Leads-modify, Leads-throw_when, Leads-catching, Post-state, throw_when,
}
use ocash_sdk.Types.{SyncCursor}
use ocash_sdk.Store.Query.{EntryNullifierRecord}
use ocash_sdk.Sync.Options.{Retry}
use ocash_sdk.Sync.Retries.{Attempts}
use ocash_sdk.Sync.Memos.{find_duplicate}
use ocash_sdk.Sync.State.{
  NullifierPage, SyncError, Ports, Entry, ChainState, Resource, is_empty, nullifier_of,
  set_nullifier, emitted, failed_at, ResourceStatus, Event, nullifiers, sync_error, started,
}
use ocash_sdk.Sync.Pages.{
  called, asked, cached, from_next, moved_to, nullifier_answer, nullifier_page, nullifier_pages,
  apply_nullifier_page, check_duplicate, nullifier_body, nullifier_caught, sync_nullifiers,
  save_cursor,
}
use ocash_sdk.Sync.Applied.{Recorder}
use ocash_sdk.Sync.Applied.Steps.{Call, marked_spent}
use ocash_sdk.Sync.Marked.Steps.{
  length-map, Marked, SomeMarked, NextMarked, Marking, Marked-some, asked-Marked, throws-Marked,
  set_nullifier-Marked, emitted-Marked, moved_to-Marked, NextMarked-if, from_next-Marked,
  SomeMarked-set, SomeMarked-emitted, cursor-Marked,
}

module _ {W : Type 0} (p : Ports W) (e : Entry) (retry : Retry) (to_lower : String → String)
    (chain_id page_size : ℕ) (is_merkle : Bool) (applied : W → List Call) (r : Recorder p applied)
    (first : SyncCursor) (before : List Call) where
  check_duplicate-Marked :
      (o : ℕ) (vs : List String)
      → Leads
          (Marked applied first before o)
          (check_duplicate p e retry to_lower chain_id page_size is_merkle o vs)
          (λ u. Marked applied first before o)
          (SomeMarked applied first before)
  check_duplicate-Marked o vs s at = elim (Option-cases (find_duplicate to_lower vs)) [
    | inl distinct ↦ rw (distinct) at
    | inr (v, twice) ↦ rw (twice) (Marked-some applied first before o s at)
  ]

  cached-Marked :
      (o : ℕ) (rows : List EntryNullifierRecord) (s : ChainState W)
      → Marked applied first before o s
      → Marked applied first before o (cached (p.upsert_entry_nullifiers rows) s)
  unfolding Marked
  cached-Marked o rows s (at, ns, here, so_far) =
      (at, ns, here, r.at_upsert_nullifiers rows s.world ∙ so_far)

  save_cursor-Marked :
      (o : ℕ)
      → Leads
          (Marked applied first before o)
          (save_cursor p e retry to_lower chain_id page_size is_merkle)
          (λ u. Marked applied first before o)
          (SomeMarked applied first before)
  unfolding Marked SomeMarked
  save_cursor-Marked o s (at, ns, here, so_far) =
      let same = r.at_set s.cursor s.world in
      elim (Option-cases (p.set_sync_cursor s.cursor s.world).1) [
        | inl fine ↦ rw (fine) (at, ns, here, same ∙ so_far)
        | inr (error, raises) ↦ rw (raises) (o, (at, ns, here, same ∙ so_far))
      ]

  mark_spent-Marking :
      (o : ℕ) (vs : List String)
      → Leads
          (Marked applied first before o)
          (called (p.mark_spent vs))
          (λ u. Marking applied first before o vs)
          (SomeMarked applied first before)
  unfolding Marked SomeMarked Marking
  mark_spent-Marking o vs s (at, ns, here, so_far) =
      elim (Option-cases (p.mark_spent vs s.world).1) [
        | inl fine ↦
            let more = r.at_mark vs s.world fine in
            rw (fine) (at, ns, here, more ∙ ap (λ calls. calls ++ map marked_spent vs) so_far)
        | inr (error, raises) ↦
            let same = r.at_mark_error vs s.world error raises in
            rw (raises) (o, (at, ns, here, same ∙ so_far))
      ]

  apply_nullifier_page-Marked :
      (o : ℕ) (page : NullifierPage)
      → Leads
          (Marked applied first before o)
          (apply_nullifier_page p e retry to_lower chain_id page_size is_merkle o page)
          (NextMarked applied first before)
          (SomeMarked applied first before)
  unfolding apply_nullifier_page
  apply_nullifier_page-Marked o page =
      let vs = map nullifier_of page.items in
      let next = o + length page.items in
      Leads-bind (Marked applied first before o) (λ u. Marked applied first before o)
        (NextMarked applied first before) (SomeMarked applied first before) _ _
        (check_duplicate-Marked o vs)
        (λ u.
          Leads-modify (Marked applied first before o) (Marked applied first before o)
            (NextMarked applied first before) (SomeMarked applied first before) _ _
            (cached-Marked o _)
            (Leads-bind (Marked applied first before o) (λ u. Marking applied first before o vs)
              (NextMarked applied first before) (SomeMarked applied first before) _ _
              (mark_spent-Marking o vs)
              (λ u.
                Leads-modify (Marking applied first before o vs) (Marked applied first before next)
                  (NextMarked applied first before) (SomeMarked applied first before) _ _
                  (moved_to-Marked applied first before o vs (length page.items)
                    (length-map nullifier_of page.items))
                  (Leads-bind (Marked applied first before next)
                    (λ u. Marked applied first before next) (NextMarked applied first before)
                    (SomeMarked applied first before) _ _ (save_cursor-Marked next)
                    (λ u.
                      Leads-modify (Marked applied first before next)
                        (Marked applied first before next) (NextMarked applied first before)
                        (SomeMarked applied first before) _ _
                        (set_nullifier-Marked applied first before next _)
                        (NextMarked-if applied first before next _))))))

  nullifier_answer-Marked :
      (o : ℕ) (page : NullifierPage)
      → Leads
          (Marked applied first before o)
          (nullifier_answer p e retry to_lower chain_id page_size is_merkle o page)
          (NextMarked applied first before)
          (SomeMarked applied first before)
  unfolding nullifier_answer NextMarked
  nullifier_answer-Marked o page =
      Leads-modify (Marked applied first before o) (Marked applied first before o)
        (NextMarked applied first before) (SomeMarked applied first before) _ _
        (set_nullifier-Marked applied first before o _)
        (Leads-modify (Marked applied first before o) (Marked applied first before o)
          (NextMarked applied first before) (SomeMarked applied first before) _ _
          (emitted-Marked applied first before o _)
          (Leads-throw_when (Marked applied first before o) (NextMarked applied first before)
            (SomeMarked applied first before) _ _ _ (Marked-some applied first before o)
            (λ go_on. elim (Bool-cases (is_empty page.items)) [
              | inl nothing ↦ rw (nothing) (Marked-some applied first before o)
              | inr something ↦ rw (something) (apply_nullifier_page-Marked o page)
            ])))

  nullifier_page-Marked :
      (o : ℕ)
      → Leads
          (Marked applied first before o)
          (nullifier_page p e retry to_lower chain_id page_size is_merkle o)
          (NextMarked applied first before)
          (SomeMarked applied first before)
  unfolding nullifier_page
  nullifier_page-Marked o =
      Leads-bind (Marked applied first before o) (λ u. Marked applied first before o)
        (NextMarked applied first before) (SomeMarked applied first before) _ _
        (throws-Marked applied first before o (λ s. e.is_cancelled s.requests) _)
        (λ u.
          Leads-bind (Marked applied first before o) (λ page. Marked applied first before o)
            (NextMarked applied first before) (SomeMarked applied first before) _ _
            (asked-Marked applied first before o _ _) (nullifier_answer-Marked o))

  nullifier_pages-Marked :
      (fuel o : ℕ)
      → Leads
          (Marked applied first before o)
          (nullifier_pages p e retry to_lower chain_id page_size is_merkle fuel o)
          (λ u. SomeMarked applied first before)
          (SomeMarked applied first before)
  unfolding nullifier_pages
  nullifier_pages-Marked zero o = Marked-some applied first before o
  nullifier_pages-Marked (suc fuel) o =
      Leads-bind (Marked applied first before o) (NextMarked applied first before)
        (λ u. SomeMarked applied first before) (SomeMarked applied first before) _ _
        (nullifier_page-Marked o)
        (from_next-Marked applied first before _ (nullifier_pages-Marked fuel))

  sync_nullifiers-SomeMarked :
      (fuel : ℕ)
      → Leads
          (Marked applied first before first.nullifier)
          (sync_nullifiers p e retry to_lower chain_id page_size is_merkle fuel)
          (λ u. SomeMarked applied first before)
          (SomeMarked applied first before)
  unfolding sync_nullifiers
  sync_nullifiers-SomeMarked fuel =
      Leads-catching (Marked applied first before first.nullifier)
        (λ u. SomeMarked applied first before) (SomeMarked applied first before)
        (SomeMarked applied first before)
        (nullifier_body p e retry to_lower chain_id page_size is_merkle fuel)
        (nullifier_caught p e retry to_lower chain_id page_size is_merkle)
        (Leads-modify (Marked applied first before first.nullifier)
          (Marked applied first before first.nullifier) (λ u. SomeMarked applied first before)
          (SomeMarked applied first before) _ _
          (λ s.
            set_nullifier-Marked applied first before first.nullifier
              (λ n. started s.cursor.nullifier) s)
          (Leads-bind (Marked applied first before first.nullifier)
            (λ s. Marked applied first before s.cursor.nullifier)
            (λ u. SomeMarked applied first before) (SomeMarked applied first before) _ _
            (cursor-Marked applied first before)
            (λ s.
              Leads-bind (Marked applied first before s.cursor.nullifier)
                (λ u. SomeMarked applied first before) (λ u. SomeMarked applied first before)
                (SomeMarked applied first before) _ _
                (nullifier_pages-Marked fuel s.cursor.nullifier)
                (λ u. SomeMarked-set applied first before _))))
        (λ error s at.
          (SomeMarked-emitted applied first before) (sync_error nullifiers error) _
            (SomeMarked-set applied first before (λ n. failed_at n.downloaded error) s at))

module _ {W : Type 0} (p : Ports W) (e : Entry) (retry : Retry) (to_lower : String → String)
    (chain_id page_size : ℕ) (is_merkle : Bool) where
  -- For any answers and any failures, in however many rounds: the nullifier part moves the nullifier
  -- cursor by the number of the nullifiers that it gave to `markSpent` in calls that did not throw, and
  -- leaves the other cursors.
  pub sync_nullifiers-Marked :
      (applied : W → List Call)
      → Recorder p applied
      → (fuel : ℕ) (s : ChainState W)
      → let t = (sync_nullifiers p e retry to_lower chain_id page_size is_merkle fuel s).0 in
        (ns : List String) × (t.cursor
          ≡ record s.cursor { nullifier = s.cursor.nullifier + length ns })
        × (applied t.world ≡ applied s.world ++ map marked_spent ns)
  unfolding SomeMarked Marked
  sync_nullifiers-Marked applied r fuel s =
      let (o, (at, ns, here, told)) =
        Post-state (SomeMarked applied s.cursor (applied s.world))
          (sync_nullifiers p e retry to_lower chain_id page_size is_merkle fuel s)
          (sync_nullifiers-SomeMarked p e retry to_lower chain_id page_size is_merkle applied r
            s.cursor (applied s.world) fuel s
            (refl, [], omega arith, sym (append-nil (applied s.world)))) in
      (ns, at ∙ ap (λ k. record s.cursor { nullifier = k }) here, told)
