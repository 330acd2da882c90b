-- ===== src/Sync/Follows/Steps.antt =====
-- Where the memo part stands on an entry service that answers: assertions on the memo cursor, and the
-- steps that keep them.
use ocash_sdk.Prelude.{
  ℕ, ◌≤◌, ◌<◌, ◌≡◌, refl, Bool, true, false, ◌&&◌, not, List, [], ◌∷◌, Option, none, some, length,
  arith,
}
use ocash_sdk.Prelude.Results.{Result, ok, err}
use ocash_sdk.Prelude.Actions.{Action, Post, Leads, current}
use ocash_sdk.Merkle.Ingest.{current_merkle_root_index}
use ocash_sdk.Sync.Retries.{Thrown}
use ocash_sdk.Sync.State.{
  SyncError, ChainState, is_empty, MerkleStatus, ResourceStatus, Event, set_memo, set_merkle_if,
  emitted, synced,
}
use ocash_sdk.Sync.Pages.{called, cached, advanced, from_next, moved_to}

pub length-some : {A : Type 0} (xs : List A) → is_empty xs ≡ false → 1 ≤ length xs
length-some [] h = absurd (ground arith)
length-some (x ∷ xs) h = omega arith

pub same_emptiness :
    {A B : Type 0} (xs : List A) (ys : List B)
    → length ys ≡ length xs
    → (not (is_empty xs) && is_empty ys) ≡ false
same_emptiness [] ys h = refl
same_emptiness (x ∷ xs) [] h = absurd (omega arith)
same_emptiness (x ∷ xs) (y ∷ ys) h = refl

module _ {W : Type 0} (total : ℕ) where
  unfoldable pub Has : ℕ → ChainState W → Type 0
  Has o s = (s.cursor.memo ≡ o) × (o ≤ total)

  unfoldable pub Never : ChainState W → Type 0
  Never s = ⊥

  -- `break` comes at the end of the log, and another round starts further on.
  unfoldable pub NextHas : ℕ → Option ℕ → ChainState W → Type 0
  NextHas o none s = s.cursor.memo ≡ total
  NextHas o (some next) s = Has next s × (o < next)

  unfoldable pub AtEnd : ChainState W → Type 0
  AtEnd s = s.cursor.memo ≡ total

  pub called-Has :
      (o : ℕ) (f : W → W × Option Thrown)
      → ((w : W) → (f w).1 ≡ none)
      → Leads (Has o) (called f) (λ u. Has o) Never
  unfolding Has
  called-Has o f fine s at = rw (fine s.world) at

  pub cached-Has : (o : ℕ) (f : W → W) (s : ChainState W) → Has o s → Has o (cached f s)
  unfolding Has
  cached-Has o f s at = at

  pub emitted-Has : (o : ℕ) (event : Event) (s : ChainState W) → Has o s → Has o (emitted event s)
  unfolding Has
  emitted-Has o event s at = at

  pub advanced-Has :
      (o next : ℕ) (s : ChainState W) → next ≤ total → Has o s → Has next (advanced next s)
  unfolding Has
  advanced-Has o next s le at = (refl, le)

  pub derived-Has :
      (o : ℕ) (s : ChainState W)
      → Has o s
      → Has o (moved_to (record s.cursor { merkle = current_merkle_root_index s.cursor.memo }) s)
  unfolding Has
  derived-Has o s at = at

  pub current-Has :
      (o : ℕ) → Leads {E = SyncError} (Has o) current (λ s t. (s.cursor.memo ≡ o) × Has o t) Never
  unfolding Has
  current-Has o s at = (at.0, at)

  pub set_memo-Has :
      (o : ℕ) (f : ResourceStatus → ResourceStatus) (s : ChainState W)
      → Has o s
      → Has o (set_memo f s)
  unfolding Has
  set_memo-Has o f s at = at

  pub set_merkle_if-Has :
      (o : ℕ) (b : Bool) (f : MerkleStatus → MerkleStatus) (s : ChainState W)
      → Has o s
      → Has o (set_merkle_if b f s)
  unfolding Has
  set_merkle_if-Has o true f s at = at
  set_merkle_if-Has o false f s at = at

  pub from_next-AtEnd :
      (o : ℕ) (again : ℕ → Action (ChainState W) SyncError (Unit {0}))
      → ((n : ℕ) → n ≤ total → o < n → Leads (Has n) (again n) (λ u. AtEnd) Never)
      → (next : Option ℕ) → Leads (NextHas o next) (from_next again next) (λ u. AtEnd) Never
  unfolding NextHas AtEnd Has
  from_next-AtEnd o again h none s at = at
  from_next-AtEnd o again h (some n) s (at, more) = h n at.1 more s at

  -- The memo part is over, at the end of the log.
  unfoldable pub Synced : ChainState W → Type 0
  Synced s = AtEnd s × (s.status.memo.status ≡ synced)

  pub set_synced :
      (s : ChainState W) → AtEnd s → Synced (set_memo (λ m. record m { status = synced }) s)
  unfolding AtEnd Synced
  set_synced s at = (at, refl)

  pub set_merkle_if-Synced :
      (b : Bool) (f : MerkleStatus → MerkleStatus) (s : ChainState W)
      → Synced s
      → Synced (set_merkle_if b f s)
  unfolding AtEnd Synced
  set_merkle_if-Synced true f s h = h
  set_merkle_if-Synced false f s h = h

  pub Post-Synced :
      (r : ChainState W × Result SyncError (Unit {0}))
      → Post (λ u. Synced) Never r
      → (r.1 ≡ ok tt) × (r.0.cursor.memo ≡ total) × (r.0.status.memo.status ≡ synced)
  unfolding Synced AtEnd Never
  Post-Synced (s, ok u) h = (refl, h.0, h.1)
  Post-Synced (s, err error) h = absurd h
