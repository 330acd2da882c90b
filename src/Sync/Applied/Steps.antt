-- ===== src/Sync/Applied/Steps.antt =====
-- Where the memo part of `syncChain` stands: the assertions between its steps, and the steps that keep
-- them.
use mathlib.Core.Path.{subst}
use Prim.Native.String.{String}
use mathlib.Core.List.{append_assoc, append-nil}
use ocash_sdk.Prelude.{
  ℕ, zero, suc, ◌+◌, ◌≡◌, refl, sym, ap, ◌∙◌, Bool, Bool-cases, Option-cases, inl, inr, true, false,
  List, [], ◌∷◌, ◌++◌, map, Option, none, some, length, if◌then◌else◌, arith,
}
use ocash_sdk.Prelude.Results.{Result-cases}
use ocash_sdk.Prelude.Actions.{Action, Leads, throw_when}
use ocash_sdk.Types.{SyncCursor}
use ocash_sdk.Merkle.Ingest.{current_merkle_root_index}
use ocash_sdk.Sync.Retries.{Thrown, Attempts}
use ocash_sdk.Sync.Memos.{Numbered, CountsFrom}
use ocash_sdk.Sync.State.{
  SyncError, ChainState, last_cid, MerkleStatus, set_merkle_if, Resource, is_empty, set_memo,
  emitted, emitted_if, ResourceStatus, Event,
}
use ocash_sdk.Sync.Pages.{called, asked, advanced, from_next, moved_to}

-- What the wallet is told: a memo's cid, or a spent nullifier.
pub data Call : Type 0 where
  applied_memo : ℕ → Call
  marked_spent : String → Call

abbrev pub memo_call : Numbered → Call
memo_call m = applied_memo m.cid

-- The memos from `start`.
abbrev pub count_up : ℕ → ℕ → List Call
count_up start zero = []
count_up start (suc n) = applied_memo start ∷ count_up (start + 1) n

count_up-append :
    (start n k : ℕ) → count_up start n ++ count_up (start + n) k ≡ count_up start (n + k)
count_up-append start zero k =
    let at_start : start + 0 ≡ start = omega arith in
    let none_more : 0 + k ≡ k = omega arith in rw (at_start, none_more) refl
count_up-append start (suc n) k =
    let shift : start + suc n ≡ start + 1 + n = omega arith in
    let one_more : suc n + k ≡ suc (n + k) = omega arith in
    rw (shift, one_more) (ap (◌∷◌ (applied_memo start)) (count_up-append (start + 1) n k))

map-memo_call :
    (o : ℕ) (ms : List Numbered) → CountsFrom o ms → map memo_call ms ≡ count_up o (length ms)
map-memo_call o [] h = refl
map-memo_call o (m ∷ ms) (here, rest) = rw (here, map-memo_call (o + 1) ms rest) refl

last_cid-suc :
    (o cid : ℕ) (ms : List Numbered)
    → CountsFrom o ms
    → cid + 1 ≡ o
    → last_cid cid ms + 1 ≡ o + length ms
last_cid-suc o cid [] h e = omega arith
last_cid-suc o cid (m ∷ ms) (here, rest) e =
    omega (arith, last_cid-suc (o + 1) m.cid ms rest (omega arith))

-- The run is not empty, so that its last memo does not depend on what stands for no memo.
pub last_cid-CountsFrom :
    (o : ℕ) (ms : List Numbered)
    → CountsFrom o ms
    → is_empty ms ≡ false
    → last_cid 0 ms + 1 ≡ o + length ms
last_cid-CountsFrom o [] h e = absurd (ground arith)
last_cid-CountsFrom o (m ∷ ms) (here, rest) e =
    omega (arith, last_cid-suc (o + 1) m.cid ms rest (omega arith))

-- A run from `o` continues the numbers up to it.
joined_run :
    (before : List Call) (start n o : ℕ) (ms : List Numbered)
    → CountsFrom o ms
    → o ≡ start + n
    → (before ++ count_up start n) ++ map memo_call ms ≡ before ++ count_up start (n + length ms)
joined_run before start n o ms h here =
    append_assoc before (count_up start n) (map memo_call ms)
    ∙ ap (λ rest. before ++ rest)
        (rw (map-memo_call o ms h, here) (count_up-append start n (length ms)))

-- Where the memo part starts: the cursors, and what the wallet was given before.
pub record Origin (W : Type 0) : Type 0 where
  pub applied : W → List Call
  pub start : ℕ
  pub nullifier : ℕ
  pub before : List Call

module _ {W : Type 0} (g : Origin W) where
  unfoldable pub At : ℕ → ChainState W → Type 0
  At o s =
      (s.cursor
        ≡ record { memo = o; nullifier = g.nullifier; merkle = current_merkle_root_index o })
      × (n : ℕ) × (o ≡ g.start + n)
      × (g.applied s.world ≡ g.before ++ count_up g.start n)

  unfoldable pub Somewhere : ChainState W → Type 0
  Somewhere s = (o : ℕ) × At o s

  unfoldable pub NextAt : Option ℕ → ChainState W → Type 0
  NextAt none s = Somewhere s
  NextAt (some o) s = At o s

  -- After `applyMemos`, g.before the cursor moves.
  unfoldable pub Given : ℕ → List Numbered → ChainState W → Type 0
  Given o ms s =
      (s.cursor
        ≡ record { memo = o; nullifier = g.nullifier; merkle = current_merkle_root_index o })
      × (n : ℕ) × (o ≡ g.start + n)
      × (g.applied s.world ≡ (g.before ++ count_up g.start n) ++ map memo_call ms)

  unfoldable pub Fresh : ChainState W → Type 0
  Fresh s =
      (s.cursor.memo ≡ g.start)
      × (s.cursor.nullifier ≡ g.nullifier)
      × (g.applied s.world ≡ g.before)

  pub called-At :
      (o : ℕ) (f : W → W × Option Thrown)
      → ((w : W) → g.applied (f w).0 ≡ g.applied w)
      → Leads (At o) (called f) (λ u. At o) Somewhere
  unfolding At Somewhere
  called-At o f same s (at, n, here, so_far) = elim (Option-cases (f s.world).1) [
    | inl fine ↦ rw (fine) (at, n, here, same s.world ∙ so_far)
    | inr (e, raises) ↦ rw (raises) (o, (at, n, here, same s.world ∙ so_far))
  ]

  pub asked-At :
      {A : Type 0} (o : ℕ) (resource : Resource) (attempts : ℕ → Attempts A)
      → Leads (At o) (asked resource attempts) (λ a. At o) Somewhere
  unfolding At Somewhere
  asked-At o resource attempts s at = elim (Result-cases (attempts s.requests).answer) [
    | inl (a, answers) ↦ rw (answers) at
    | inr (e, fails) ↦ rw (fails) (o, at)
  ]

  pub throws-At :
      (o : ℕ) (b : ChainState W → Bool) (e : SyncError)
      → Leads (At o) (λ s. throw_when (b s) e s) (λ u. At o) Somewhere
  unfolding Somewhere
  throws-At o b e s at = elim (Bool-cases (b s)) [
    | inl stop ↦ rw (stop) (o, at)
    | inr go ↦ rw (go) at
  ]

  pub set_merkle_if-At :
      (o : ℕ) (f : MerkleStatus → MerkleStatus) (s : ChainState W) (b : Bool)
      → At o s
      → At o (set_merkle_if b f s)
  unfolding At
  set_merkle_if-At o f s true at = at
  set_merkle_if-At o f s false at = at

  pub set_memo-At :
      (o : ℕ) (f : ResourceStatus → ResourceStatus) (s : ChainState W)
      → At o s
      → At o (set_memo f s)
  unfolding At
  set_memo-At o f s at = at

  pub emitted-At : (o : ℕ) (event : Event) (s : ChainState W) → At o s → At o (emitted event s)
  unfolding At
  emitted-At o event s at = at

  pub At-Somewhere : (o : ℕ) (s : ChainState W) → At o s → Somewhere s
  unfolding Somewhere
  At-Somewhere o s at = (o, at)

  pub NextAt-if :
      (o : ℕ) (b : Bool) (s : ChainState W) → At o s → NextAt (if b then none else some o) s
  unfolding NextAt
  NextAt-if o true s at = At-Somewhere o s at
  NextAt-if o false s at = at

  pub advanced-At :
      (o : ℕ) (ms : List Numbered)
      → CountsFrom o ms
      → is_empty ms ≡ false
      → (s : ChainState W) → Given o ms s
      → At (last_cid 0 ms + 1) (advanced (last_cid 0 ms + 1) s)
  unfolding At Given
  advanced-At o ms h e s (at, n, here, so_far) = (
    ap
        (λ (c : SyncCursor). record c {
          memo = last_cid 0 ms + 1;
          merkle = current_merkle_root_index (last_cid 0 ms + 1);
        })
        at,
    n + length ms,
    omega (arith, last_cid-CountsFrom o ms h e),
    so_far ∙ joined_run g.before g.start n o ms h here,
  )

  pub from_next-Somewhere :
      (again : ℕ → Action (ChainState W) SyncError (Unit {0}))
      → ((o : ℕ) → Leads (At o) (again o) (λ u. Somewhere) Somewhere)
      → (next : Option ℕ) → Leads (NextAt next) (from_next again next) (λ u. Somewhere) Somewhere
  unfolding NextAt
  from_next-Somewhere again h none s at = at
  from_next-Somewhere again h (some o) s at = h o s at

  pub Fresh-At :
      (s : ChainState W)
      → Fresh s
      → At g.start
          (moved_to (record s.cursor { merkle = current_merkle_root_index s.cursor.memo }) s)
  unfolding Fresh At
  Fresh-At s (a, b, c) = (rw (a, b) refl, 0, omega arith, c ∙ sym (append-nil g.before))

  pub Fresh-same :
      (s : ChainState W)
      → Fresh s
      → s.cursor.merkle ≡ current_merkle_root_index s.cursor.memo
      → At g.start s
  unfolding Fresh At
  Fresh-same s (a, b, c) same = (
    λ i. record { memo = a i; nullifier = b i; merkle = (same ∙ ap current_merkle_root_index a) i },
    0,
    omega arith,
    c ∙ sym (append-nil g.before),
  )

  pub Fresh-memo_started :
      (s : ChainState W)
      → Fresh s
      → (b : Bool) (f : MerkleStatus → MerkleStatus) (g : ResourceStatus → ResourceStatus)
      → Fresh (set_merkle_if b f (set_memo g s))
  unfolding Fresh
  Fresh-memo_started s h true f g = h
  Fresh-memo_started s h false f g = h

  pub cursor-At : (s : ChainState W) → At g.start s → At s.cursor.memo s
  unfolding At
  cursor-At s at = subst (λ o. At o s) (sym (ap (λ (c : SyncCursor). c.memo) at.0)) at

  pub Somewhere-shown :
      (b : Bool) (f : MerkleStatus → MerkleStatus) (s : ChainState W)
      → Somewhere s
      → Somewhere (set_merkle_if b f s)
  unfolding Somewhere
  Somewhere-shown b f s (o, at) = (o, set_merkle_if-At o f s b at)

  pub Somewhere-emitted :
      (event : Event) (f : ResourceStatus → ResourceStatus) (s : ChainState W)
      → Somewhere s
      → Somewhere (emitted event (set_memo f s))
  unfolding Somewhere At
  Somewhere-emitted event f s at = at

  pub Somewhere-set_memo :
      (f : ResourceStatus → ResourceStatus) (s : ChainState W)
      → Somewhere s
      → Somewhere (set_memo f s)
  unfolding Somewhere At
  Somewhere-set_memo f s at = at

  pub Somewhere-emitted_if :
      (b : Bool) (event : Event) (f : MerkleStatus → MerkleStatus) (s : ChainState W)
      → Somewhere s
      → Somewhere (emitted_if b event (set_merkle_if b f s))
  unfolding Somewhere At
  Somewhere-emitted_if true event f s at = at
  Somewhere-emitted_if false event f s at = at
