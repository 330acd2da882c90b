-- ===== src/Sync/Follows/Rounds.antt =====
-- The rounds of the memo part against an entry service that answers from a log of memos, where no call
-- fails.
use mathlib.Core.Path.{subst}
use Prim.Native.String.{String}
use ocash_sdk.Prelude.{
  ℕ, zero, suc, ◌+◌, ◌-◌, ◌≤◌, ◌<◌, ◌≡◌, refl, sym, ap, ◌∙◌, Bool, Bool-cases, inl, inr, true,
  false, List, [], ◌∷◌, none, some, length, length-take, length-drop, take, drop, min, ltb, le→ltb,
  if◌then◌else◌, arith,
}
use ocash_sdk.Prelude.Results.{ok}
use ocash_sdk.Prelude.Actions.{Post, Leads, Leads-bind, Leads-modify, Leads-passes}
use ocash_sdk.Types.{SyncCursor}
use ocash_sdk.Sync.Options.{Retry}
use ocash_sdk.Sync.Retries.{with_retries, try_from_answers}
use ocash_sdk.Sync.Memos.{
  EntryMemo, Numbered, CountsFrom, sanitize_contiguous_memos, sanitize_contiguous_memos-maximal,
}
use ocash_sdk.Sync.State.{MemoPage, Ports, Entry, ChainState, last_cid, is_empty, memos}
use ocash_sdk.Sync.Pages.{asked, apply_memo_page, memo_page, memo_answer, memo_pages, save_cursor}
use ocash_sdk.Sync.Applied.Steps.{last_cid-CountsFrom}
use ocash_sdk.Sync.Log.{IsLog, IsLog-page, sanitize_contiguous_memos-IsLog}
use ocash_sdk.Sync.Follows.Steps.{
  length-some, same_emptiness, Has, Never, NextHas, AtEnd, called-Has, cached-Has, emitted-Has,
  advanced-Has, set_memo-Has, set_merkle_if-Has, from_next-AtEnd,
}

-- The service answers every request with the page of the log, and nothing is aborted.
pub record Serves (e : Entry) (log : List EntryMemo) : Type 0 where
  pub at_page :
      (n offset limit : ℕ)
      → e.list_memos n offset limit
        ≡ ok (record { items = take limit (drop offset log); total = length log })
  pub at_round : (n : ℕ) → e.is_cancelled n ≡ false
  pub at_attempt : (n : ℕ) → e.signals.is_aborted n ≡ false

-- The calls of the memo part do not throw.
pub record Reliable {W : Type 0} (p : Ports W) : Type 0 where
  pub at_set : (c : SyncCursor) (w : W) → (p.set_sync_cursor c w).1 ≡ none
  pub at_ingest : (ms : List Numbered) (w : W) → (p.ingest_entry_memos ms w).1 ≡ none
  pub at_apply : (ms : List Numbered) (w : W) → (p.apply_memos ms w).1 ≡ none

module _ {W : Type 0} (p : Ports W) (e : Entry) (retry : Retry) (to_lower : String → String)
    (chain_id page_size : ℕ) (is_merkle : Bool) (log : List EntryMemo) (is_log : IsLog 0 log)
    (serves : Serves e log) (reliable : Reliable p) (tries : 1 ≤ retry.attempts)
    (rows : 1 ≤ page_size) where
  pub save_cursor-Has :
      (o : ℕ)
      → Leads
          (Has (length log) o)
          (save_cursor p e retry to_lower chain_id page_size is_merkle)
          (λ u. Has (length log) o)
          (Never (length log))
  save_cursor-Has o s at =
      called-Has (length log) o (p.set_sync_cursor s.cursor) (reliable.at_set s.cursor) s at

  answer_at : ℕ → MemoPage
  answer_at o = record { items = take page_size (drop o log); total = length log }

  answer_at-IsLog : (o : ℕ) → IsLog o (answer_at o).items
  unfolding answer_at
  answer_at-IsLog o = IsLog-page page_size o log is_log

  -- An empty page is that after the end.
  ended :
      (o : ℕ) (kept : List Numbered)
      → o ≤ length log
      → length kept ≡ min page_size (length log - o)
      → is_empty kept ≡ true
      → (s : ChainState W) → Has (length log) o s
      → NextHas (length log) o none s
  unfolding Has NextHas
  ended o [] within size nothing s at = at.0 ∙ omega arith
  ended o (m ∷ ms) within size nothing s at = absurd (ground arith)

  length-answer_at : (o : ℕ) → length (answer_at o).items ≡ min page_size (length log - o)
  unfolding answer_at
  length-answer_at o = length-take page_size (drop o log) ∙ ap (min page_size) (length-drop o log)

  asked-Has :
      (o : ℕ)
      → Leads
          (Has (length log) o)
          (asked memos (with_retries retry e.signals (λ n. e.list_memos n o page_size)))
          (λ page s. (page ≡ answer_at o) × Has {W = W} (length log) o s)
          (Never (length log))
  unfolding answer_at Has
  asked-Has o s at =
      let answers =
        try_from_answers retry e.signals (λ n. e.list_memos n o page_size) retry.attempts 1
          s.requests (answer_at o) tries (serves.at_attempt s.requests)
          (serves.at_page s.requests o page_size) in
      rw (answers) (refl, at)

  module _ (o : ℕ) (within : o ≤ length log) (kept : List Numbered) (run : CountsFrom o kept)
      (whole : length kept ≡ length (answer_at o).items) (some_kept : is_empty kept ≡ false) where
    next_offset : ℕ
    next_offset = last_cid 0 kept + 1

    next_offset_lem :
        (o < next_offset)
        × (next_offset ≤ length log)
        × (ltb (length kept) page_size ≡ true → next_offset ≡ length log)
    unfolding next_offset
    next_offset_lem =
        let reach = last_cid-CountsFrom o kept run some_kept in
        let size = whole ∙ length-answer_at o in
        let more : 1 ≤ length kept = length-some kept some_kept in
        (omega arith, omega arith, λ short. ground arith)

    NextHas-if :
        (b : Bool) (s : ChainState W)
        → (b ≡ true → next_offset ≡ length log)
        → Has (length log) next_offset s
        → NextHas (length log) o (if b then none else some next_offset) s
    unfolding NextHas Has
    NextHas-if true s ends (at, le) = at ∙ ends refl
    NextHas-if false s ends at = (at, next_offset_lem.0)

    apply_memo_page-Has :
        Leads
          (Has (length log) o)
          (apply_memo_page p e retry to_lower chain_id page_size is_merkle (answer_at o) kept)
          (NextHas (length log) o)
          (Never (length log))
    unfolding apply_memo_page next_offset
    apply_memo_page-Has =
        let I = Has (length log) o in
        let J = Has (length log) next_offset in
        let T = NextHas (length log) o in
        let R = Never (length log) in
        Leads-modify I I T R _ _ (cached-Has (length log) o _) (
          Leads-bind I (λ u. I) T R _ _ (called-Has (length log) o _ (reliable.at_ingest kept))
            (λ u.
              Leads-bind I (λ u. I) T R _ _ (called-Has (length log) o _ (reliable.at_apply kept))
                (λ u.
                  Leads-modify I J T R _ _
                    (λ s at. advanced-Has (length log) o next_offset s next_offset_lem.1 at)
                    (Leads-bind J (λ u. J) T R _ _ (save_cursor-Has next_offset)
                      (λ u. Leads-modify J J T R _ _ (set_memo-Has (length log) next_offset _) (
                        Leads-modify J J T R _ _
                          (set_merkle_if-Has (length log) next_offset is_merkle _)
                          (Leads-passes J T R _ _ _ (le→ltb _ _ (omega arith))
                            (λ s at. NextHas-if _ s next_offset_lem.2 at))))))))

  memo_answer-Has :
      (o : ℕ)
      → o ≤ length log
      → Leads
          (Has (length log) o)
          (memo_answer p e retry to_lower chain_id page_size is_merkle o (answer_at o))
          (NextHas (length log) o)
          (Never (length log))
  unfolding memo_answer
  memo_answer-Has o within =
      let I = Has (length log) o in
      let T = NextHas (length log) o in
      let R = Never (length log) in
      let kept = sanitize_contiguous_memos (answer_at o).items o in
      let whole = sanitize_contiguous_memos-IsLog o (answer_at o).items (answer_at-IsLog o) in
      let run = (sanitize_contiguous_memos-maximal (answer_at o).items o).0 in
      Leads-modify I I T R _ _ (set_memo-Has (length log) o _) (
        Leads-passes I T R _ _ _ (same_emptiness (answer_at o).items kept whole) (
          Leads-modify I I T R _ _ (emitted-Has (length log) o _)
            (elim (Bool-cases (is_empty kept)) [
              | inl nothing ↦
                  rw (nothing) (ended o kept within (whole ∙ length-answer_at o) nothing)
              | inr something ↦
                  rw (something) (apply_memo_page-Has o within kept run whole something)
            ])))

  memo_page-Has :
      (o : ℕ)
      → o ≤ length log
      → Leads
          (Has (length log) o)
          (memo_page p e retry to_lower chain_id page_size is_merkle o)
          (NextHas (length log) o)
          (Never (length log))
  unfolding memo_page
  memo_page-Has o within =
      let I = Has (length log) o in
      let T = NextHas (length log) o in
      let R = Never (length log) in
      Leads-bind I (λ u. I) T R _ _ (λ s at. rw (serves.at_round s.requests) at)
        (λ u.
          Leads-bind I (λ page s. (page ≡ answer_at o) × I s) T R _ _ (asked-Has o)
            (λ page s at.
              subst
                (λ page.
                  Post T R (memo_answer p e retry to_lower chain_id page_size is_merkle o page s))
                (sym at.0) (memo_answer-Has o within s at.1)))

  -- Each round moves the offset, and the fuel is more than what is left of the log.
  pub memo_pages-AtEnd :
      (fuel o : ℕ)
      → length log < o + fuel
      → o ≤ length log
      → Leads
          (Has (length log) o)
          (memo_pages p e retry to_lower chain_id page_size is_merkle fuel o)
          (λ u. AtEnd (length log))
          (Never (length log))
  unfolding memo_pages
  memo_pages-AtEnd zero o enough within = absurd (omega arith)
  memo_pages-AtEnd (suc fuel) o enough within =
      Leads-bind (Has (length log) o) (NextHas (length log) o) (λ u. AtEnd (length log))
        (Never (length log)) _ _ (memo_page-Has o within)
        (from_next-AtEnd (length log) o _ (λ n le more. memo_pages-AtEnd fuel n (omega arith) le))
