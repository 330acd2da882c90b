-- ===== src/Sync/Told.antt =====
-- What one pass of `syncChain` tells the wallet, and where its cursors end.
use mathlib.Core.Path.{subst}
use mathlib.Core.List.{append-nil}
use Prim.Native.String.{String}
use ocash_sdk.Prelude.{
  ℕ, ◌+◌, ◌≡◌, refl, sym, ap, ◌∙◌, Bool, true, false, Bool-cases, inl, inr, List, [], ◌++◌, map,
  Option, none, some, length, arith, ◌&&◌, not,
}
use ocash_sdk.Types.{SyncCursor}
use ocash_sdk.Sync.Options.{Retry}
use ocash_sdk.Sync.State.{SyncError, SyncChainStatus, Ports, Entry, ChainState, Event}
use ocash_sdk.Sync.Applied.{Recorder, sync_memos-Applied}
use ocash_sdk.Sync.Applied.Steps.{Call, marked_spent, count_up}
use ocash_sdk.Sync.Marked.{sync_nullifiers-Marked}
use ocash_sdk.Sync.Engine.{
  ChainConfig, Resources, enabled, cursor_or_default, chain_started, check_merkle, refused,
  memo_part, nullifier_part, parts, needed_refusal, sync_chain, refuse_memo, refuse_nullifier,
}

module _ {W : Type 0} (p : Ports W) (e : Entry) (retry : Retry) (to_lower : String → String)
    (chain_id page_size : ℕ) (applied : W → List Call) (r : Recorder p applied) where
  -- From one state to a later one: the memos from the memo cursor on, and then some nullifiers.
  abbrev pub Told : SyncCursor → List Call → ChainState W → Type 0
  Told first before t =
      (n : ℕ) × (ns : List String) × (t.cursor.memo ≡ first.memo + n)
      × (t.cursor.nullifier ≡ first.nullifier + length ns)
      × (applied t.world ≡ (before ++ count_up first.memo n) ++ map marked_spent ns)

  Told-none :
      (first : SyncCursor) (before : List Call) (t : ChainState W)
      → t.cursor ≡ first
      → applied t.world ≡ before
      → Told first before t
  Told-none first before t at same = (
    0,
    [],
    ap (λ (c : SyncCursor). c.memo) at ∙ omega arith,
    ap (λ (c : SyncCursor). c.nullifier) at ∙ omega arith,
    same ∙ sym (append-nil before) ∙ sym (append-nil (before ++ [])),
  )

  memo_part-Told :
      (resources : Resources) (fuel : ℕ) (s : ChainState W)
      → let t = memo_part p e retry to_lower chain_id page_size resources fuel s in
        (n : ℕ) × (t.cursor.memo ≡ s.cursor.memo + n)
        × (t.cursor.nullifier ≡ s.cursor.nullifier)
        × (applied t.world ≡ applied s.world ++ count_up s.cursor.memo n)
  memo_part-Told resources fuel s = elim (Bool-cases resources.memo) [
    | inl on ↦
        let (n, at, told) =
          sync_memos-Applied p e retry to_lower chain_id page_size resources.merkle applied r fuel
            s in
        rw (on)
          (n, ap (λ (c : SyncCursor). c.memo) at, ap (λ (c : SyncCursor). c.nullifier) at, told)
    | inr off ↦ rw (off) (0, omega arith, refl, sym (append-nil (applied s.world)))
  ]

  nullifier_part-Told :
      (resources : Resources) (fuel : ℕ) (s : ChainState W)
      → let t = nullifier_part p e retry to_lower chain_id page_size resources fuel s in
        (ns : List String) × (t.cursor.memo ≡ s.cursor.memo)
        × (t.cursor.nullifier ≡ s.cursor.nullifier + length ns)
        × (applied t.world ≡ applied s.world ++ map marked_spent ns)
  nullifier_part-Told resources fuel s = elim (Bool-cases resources.nullifier) [
    | inl on ↦
        let (ns, at, told) =
          sync_nullifiers-Marked p e retry to_lower chain_id page_size resources.merkle applied r
            fuel s in
        rw (on)
          (ns, ap (λ (c : SyncCursor). c.memo) at, ap (λ (c : SyncCursor). c.nullifier) at, told)
    | inr off ↦ rw (off) ([], refl, omega arith, sym (append-nil (applied s.world)))
  ]

  -- What changes only the status and the events.
  abbrev Keeps : ChainState W → ChainState W → Type 0
  Keeps s t = (t.cursor ≡ s.cursor) × (applied t.world ≡ applied s.world)

  refuse_memo-Keeps :
      (b : Bool) (error : SyncError) (s : ChainState W)
      → Keeps s (refuse_memo p e retry to_lower chain_id page_size b error s)
  refuse_memo-Keeps true error s = (refl, refl)
  refuse_memo-Keeps false error s = (refl, refl)

  refuse_nullifier-Keeps :
      (b : Bool) (error : SyncError) (s : ChainState W)
      → Keeps s (refuse_nullifier p e retry to_lower chain_id page_size b error s)
  refuse_nullifier-Keeps true error s = (refl, refl)
  refuse_nullifier-Keeps false error s = (refl, refl)

  refused-Keeps :
      (resources : Resources) (error : SyncError) (s : ChainState W)
      → Keeps s (refused p e retry to_lower chain_id page_size resources error s)
  refused-Keeps resources error s =
      let t = refuse_memo p e retry to_lower chain_id page_size resources.memo error s in
      let memo = refuse_memo-Keeps resources.memo error s in
      let nullifier = refuse_nullifier-Keeps resources.nullifier error t in
      (nullifier.0 ∙ memo.0, nullifier.1 ∙ memo.1)

  check_merkle-Keeps :
      (resources : Resources) (s : ChainState W)
      → Keeps s (check_merkle p e retry to_lower chain_id page_size resources s)
  check_merkle-Keeps resources s = elim (Bool-cases (resources.merkle && not resources.memo)) [
    | inl alone ↦ rw (alone) (refl, refl)
    | inr fine ↦ rw (fine) (refl, refl)
  ]

  parts-Told :
      (resources : Resources) (refusal : Option SyncError) (fuel : ℕ) (s : ChainState W)
      → Told s.cursor
          (applied s.world)
          (parts p e retry to_lower chain_id page_size resources refusal fuel s)
  parts-Told resources none fuel s =
      let t = memo_part p e retry to_lower chain_id page_size resources fuel s in
      let (n, memo, same, told) = memo_part-Told resources fuel s in
      let (ns, kept, nullifier, marked) = nullifier_part-Told resources fuel t in
      (
        n,
        ns,
        kept ∙ memo,
        nullifier ∙ ap (λ k. k + length ns) same,
        marked ∙ ap (λ calls. calls ++ map marked_spent ns) told,
      )
  parts-Told resources (some error) fuel s =
      let keeps = refused-Keeps resources error s in
      Told-none s.cursor (applied s.world)
        (refused p e retry to_lower chain_id page_size resources error s) keeps.0 keeps.1

  -- One pass over a chain, whatever is enabled, answered, refused or fails, and in however many rounds:
  -- the wallet is told the memos that follow the stored memo cursor (0 if none is stored), each cid once
  -- and in order, and then nullifiers; and the cursors have moved by exactly these numbers of memos and
  -- of nullifiers. Calls that throw do not count.
  pub sync_chain-Told :
      (c : ChainConfig) (resources : Option Resources) (status : Option SyncChainStatus)
      (fuel requests : ℕ) (events : List Event) (w : W)
      → Told (cursor_or_default (p.get_sync_cursor w)) (applied w) (
          sync_chain p e retry to_lower chain_id page_size c resources status fuel requests events
            w)
  unfolding sync_chain
  sync_chain-Told c resources status fuel requests events w =
      let all = enabled resources in
      let s = chain_started p e retry to_lower chain_id page_size status requests events w in
      let m = check_merkle p e retry to_lower chain_id page_size all s in
      let refusal = needed_refusal p e retry to_lower chain_id page_size all c w in
      let t = parts p e retry to_lower chain_id page_size all refusal fuel m in
      let keeps = check_merkle-Keeps all s in
      subst (λ before. Told s.cursor before t) keeps.1
        (subst (λ first. Told first (applied m.world) t) keeps.0 (parts-Told all refusal fuel m))
