-- ===== src/Sync/Marked/Steps.antt =====
-- Assertions on what the nullifier part of `syncChain` has told the wallet, and the steps that keep them.
use mathlib.Core.Path.{subst}
use mathlib.Core.List.{append_assoc}
use Prim.Native.String.{String}
use ocash_sdk.Prelude.{
  ℕ, suc, ◌+◌, ◌≡◌, refl, sym, ap, ◌∙◌, Bool, true, false, Bool-cases, inl, inr, List, [], ◌∷◌,
  ◌++◌, map, Option, none, some, length, length-append, if◌then◌else◌, arith,
}
use ocash_sdk.Prelude.Results.{Result-cases}
use ocash_sdk.Prelude.Actions.{Action, Leads, throw_when}
use ocash_sdk.Types.{SyncCursor}
use ocash_sdk.Sync.Retries.{Attempts}
use ocash_sdk.Sync.State.{
  SyncError, ChainState, Resource, set_nullifier, emitted, ResourceStatus, Event,
}
use ocash_sdk.Sync.Pages.{asked, from_next, moved_to}
use ocash_sdk.Sync.Applied.Steps.{Call, marked_spent}

pub length-map : {A B : Type 0} (f : A → B) (xs : List A) → length (map f xs) ≡ length xs
length-map f [] = refl
length-map f (x ∷ xs) = ap suc (length-map f xs)

map-append : {A B : Type 0} (f : A → B) (xs ys : List A) → map f (xs ++ ys) ≡ map f xs ++ map f ys
map-append f [] ys = refl
map-append f (x ∷ xs) ys = ap (◌∷◌ (f x)) (map-append f xs ys)

module _ {W : Type 0} (applied : W → List Call) (first : SyncCursor) (before : List Call) where
  -- The nullifier cursor has moved by the number of the nullifiers that were marked.
  unfoldable pub Marked : ℕ → ChainState W → Type 0
  Marked o s =
      (s.cursor ≡ record first { nullifier = o })
      × (ns : List String) × (o ≡ first.nullifier + length ns)
      × (applied s.world ≡ before ++ map marked_spent ns)

  unfoldable pub SomeMarked : ChainState W → Type 0
  SomeMarked s = (o : ℕ) × Marked o s

  unfoldable pub NextMarked : Option ℕ → ChainState W → Type 0
  NextMarked none s = SomeMarked s
  NextMarked (some o) s = Marked o s

  unfoldable pub Marking : ℕ → List String → ChainState W → Type 0
  Marking o vs s =
      (s.cursor ≡ record first { nullifier = o })
      × (ns : List String) × (o ≡ first.nullifier + length ns)
      × (applied s.world ≡ (before ++ map marked_spent ns) ++ map marked_spent vs)

  pub Marked-some : (o : ℕ) (s : ChainState W) → Marked o s → SomeMarked s
  unfolding SomeMarked
  Marked-some o s at = (o, at)

  pub asked-Marked :
      {A : Type 0} (o : ℕ) (resource : Resource) (attempts : ℕ → Attempts A)
      → Leads (Marked o) (asked resource attempts) (λ a. Marked o) SomeMarked
  unfolding Marked SomeMarked
  asked-Marked o resource attempts s at = elim (Result-cases (attempts s.requests).answer) [
    | inl (a, answers) ↦ rw (answers) at
    | inr (error, fails) ↦ rw (fails) (o, at)
  ]

  pub throws-Marked :
      (o : ℕ) (b : ChainState W → Bool) (error : SyncError)
      → Leads (Marked o) (λ s. throw_when (b s) error s) (λ u. Marked o) SomeMarked
  throws-Marked o b error s at = elim (Bool-cases (b s)) [
    | inl stop ↦ rw (stop) (Marked-some o s at)
    | inr go ↦ rw (go) at
  ]

  pub set_nullifier-Marked :
      (o : ℕ) (f : ResourceStatus → ResourceStatus) (s : ChainState W)
      → Marked o s
      → Marked o (set_nullifier f s)
  unfolding Marked
  set_nullifier-Marked o f s at = at

  pub emitted-Marked :
      (o : ℕ) (event : Event) (s : ChainState W) → Marked o s → Marked o (emitted event s)
  unfolding Marked
  emitted-Marked o event s at = at

  pub moved_to-Marked :
      (o : ℕ) (vs : List String) (n : ℕ)
      → length vs ≡ n
      → (s : ChainState W) → Marking o vs s
      → Marked (o + n) (moved_to (record s.cursor { nullifier = o + n }) s)
  unfolding Marked Marking
  moved_to-Marked o vs n size s (at, ns, here, so_far) = (
    ap (λ (c : SyncCursor). record c { nullifier = o + n }) at,
    ns ++ vs,
    omega (arith, length-append ns vs),
    so_far
        ∙ append_assoc before (map marked_spent ns) (map marked_spent vs)
        ∙ ap (λ rest. before ++ rest) (sym (map-append marked_spent ns vs)),
  )

  pub NextMarked-if :
      (o : ℕ) (b : Bool) (s : ChainState W) → Marked o s → NextMarked (if b then none else some o) s
  unfolding NextMarked
  NextMarked-if o true s at = Marked-some o s at
  NextMarked-if o false s at = at

  pub from_next-Marked :
      (again : ℕ → Action (ChainState W) SyncError (Unit {0}))
      → ((o : ℕ) → Leads (Marked o) (again o) (λ u. SomeMarked) SomeMarked)
      → (next : Option ℕ)
      → Leads (NextMarked next) (from_next again next) (λ u. SomeMarked) SomeMarked
  unfolding NextMarked
  from_next-Marked again h none s at = at
  from_next-Marked again h (some o) s at = h o s at

  pub cursor-Marked : (s : ChainState W) → Marked first.nullifier s → Marked s.cursor.nullifier s
  unfolding Marked
  cursor-Marked s at = subst (λ o. Marked o s) (sym (ap (λ (c : SyncCursor). c.nullifier) at.0)) at

  pub SomeMarked-set :
      (f : ResourceStatus → ResourceStatus) (s : ChainState W)
      → SomeMarked s
      → SomeMarked (set_nullifier f s)
  unfolding SomeMarked
  SomeMarked-set f s (o, at) = (o, set_nullifier-Marked o f s at)

  pub SomeMarked-emitted :
      (event : Event) (s : ChainState W) → SomeMarked s → SomeMarked (emitted event s)
  unfolding SomeMarked
  SomeMarked-emitted event s (o, at) = (o, emitted-Marked o event s at)
