-- ===== src/Store/Memory/Spent.antt =====
-- UTXOs in the in-memory store: a spent one stays spent, and what `markSpent` changes.
use Prim.Native.String.{String}
use ocash_sdk.Prelude.{
  ℕ, ◌≡◌, refl, ◌∙◌, ap, inl, inr, true, false, ◌&&◌, not, List, [], ◌∷◌, Option, none, some,
  if◌then◌else◌, arith, Bool-cases,
}
use ocash_sdk.Prelude.Maps.{Map, lookup, lookup-insert}
use ocash_sdk.Types.{UtxoRecord}
use ocash_sdk.Store.Memory.{
  UtxoId, utxo_id_eq, same_utxo, same_utxo_iff, utxo_id, MemoryStore, kept_spent, upsert_utxo,
  upsert_all, upsert_utxos, is_wanted, mark_entries, mark_spent,
}

-- The store has a spent UTXO under `k`.
abbrev pub HasSpent : UtxoId → Map UtxoId UtxoRecord → Type 0
HasSpent k m = (u : UtxoRecord) × (lookup k m ≡ some u) × (u.is_spent ≡ true)

upsert_utxo-HasSpent :
    (w : UtxoRecord) (m : Map UtxoId UtxoRecord) (k : UtxoId)
    → HasSpent k m
    → HasSpent k (upsert_utxo w m)
upsert_utxo-HasSpent w m k (u, found, spent) =
    let at = lookup-insert (utxo_id w) k (kept_spent (lookup (utxo_id w) m) w) m in
    elim (Bool-cases (same_utxo k (utxo_id w))) [
      | inl same ↦
          let equal = (same_utxo_iff k (utxo_id w)).0 same in
          let here : lookup (utxo_id w) m ≡ some u = rw equal at found in
          let kept : (kept_spent (lookup (utxo_id w) m) w).is_spent ≡ true = rw (here) spent in
          (kept_spent (lookup (utxo_id w) m) w, rw same at at, kept)
      | inr other ↦ (u, rw other at at ∙ found, spent)
    ]

upsert_all-HasSpent :
    (us : List UtxoRecord) (m : Map UtxoId UtxoRecord) (k : UtxoId)
    → HasSpent k m
    → HasSpent k (upsert_all us m)
unfolding upsert_all
upsert_all-HasSpent [] m k h = h
upsert_all-HasSpent (u ∷ us) m k h =
    upsert_all-HasSpent us (upsert_utxo u m) k (upsert_utxo-HasSpent u m k h)

module _ (to_lower : String → String) where
  -- What `markSpent` does to a record.
  abbrev pub marked : ℕ → List String → UtxoRecord → UtxoRecord
  marked chain_id nullifiers u =
      if is_wanted to_lower chain_id nullifiers u && not u.is_spent
      then record u { is_spent = true }
      else u

  abbrev pub marked_option : ℕ → List String → Option UtxoRecord → Option UtxoRecord
  marked_option chain_id nullifiers none = none
  marked_option chain_id nullifiers (some u) = some (marked chain_id nullifiers u)

  -- `markSpent` marks each UTXO of the chain whose nullifier is listed, up to case, and changes nothing
  -- else.
  pub mark_entries-lookup :
      (chain_id : ℕ) (nullifiers : List String) (m : Map UtxoId UtxoRecord) (k : UtxoId)
      → lookup k (mark_entries to_lower chain_id nullifiers m).0
        ≡ marked_option chain_id nullifiers (lookup k m)
  unfolding mark_entries
  mark_entries-lookup chain_id nullifiers [] k = refl
  mark_entries-lookup chain_id nullifiers ((j, u) ∷ m) k =
      let ih = mark_entries-lookup chain_id nullifiers m k in
      elim (Bool-cases (same_utxo k j)) [
        | inl here ↦
            elim (Bool-cases (is_wanted to_lower chain_id nullifiers u && not u.is_spent)) [
              | inl marks ↦ rw (marks, here) (rw (marks))
              | inr leaves ↦ rw (leaves, here) (rw (leaves))
            ]
        | inr later ↦
            elim (Bool-cases (is_wanted to_lower chain_id nullifiers u && not u.is_spent)) [
              | inl marks ↦ rw (marks, later) ih
              | inr leaves ↦ rw (leaves, later) ih
            ]
      ]

  marked-spent :
      (chain_id : ℕ) (nullifiers : List String) (u : UtxoRecord)
      → u.is_spent ≡ true
      → (marked chain_id nullifiers u).is_spent ≡ true
  marked-spent chain_id nullifiers u h = ground arith

  marked-again :
      (chain_id : ℕ) (nullifiers : List String) (u : UtxoRecord)
      → is_wanted to_lower chain_id nullifiers (marked chain_id nullifiers u)
          && not (marked chain_id nullifiers u).is_spent
        ≡ false
  marked-again chain_id nullifiers u =
      elim (Bool-cases (is_wanted to_lower chain_id nullifiers u && not u.is_spent)) [
        | inl marks ↦ rw (marks) (ground arith)
        | inr leaves ↦ rw (leaves) leaves
      ]

  -- Marking again changes nothing and reports 0.
  pub mark_entries-again :
      (chain_id : ℕ) (nullifiers : List String) (m : Map UtxoId UtxoRecord)
      → mark_entries to_lower chain_id nullifiers (mark_entries to_lower chain_id nullifiers m).0
        ≡ ((mark_entries to_lower chain_id nullifiers m).0, 0)
  unfolding mark_entries
  mark_entries-again chain_id nullifiers [] = refl
  mark_entries-again chain_id nullifiers ((j, u) ∷ m) =
      let ih = mark_entries-again chain_id nullifiers m in
      let again = marked-again chain_id nullifiers u in
      elim (Bool-cases (is_wanted to_lower chain_id nullifiers u && not u.is_spent)) [
        | inl marks ↦ rw (marks) (rw (rw marks at again, ih))
        | inr leaves ↦ rw (leaves) (rw (leaves, ih))
      ]

  -- The calls that change UTXOs.
  pub data UtxoStep : Type 0 where
    upsert : List UtxoRecord → UtxoStep
    mark : ℕ → List String → UtxoStep

  abbrev pub utxo_step : UtxoStep → MemoryStore → MemoryStore
  utxo_step (upsert us) s = upsert_utxos us s
  utxo_step (mark chain_id nullifiers) s = (mark_spent to_lower chain_id nullifiers s).0

  abbrev pub utxo_steps : List UtxoStep → MemoryStore → MemoryStore
  utxo_steps [] s = s
  utxo_steps (step ∷ steps) s = utxo_steps steps (utxo_step step s)

  utxo_step-HasSpent :
      (step : UtxoStep) (s : MemoryStore) (k : UtxoId)
      → HasSpent k s.utxos
      → HasSpent k (utxo_step step s).utxos
  utxo_step-HasSpent (upsert us) s k h = upsert_all-HasSpent us s.utxos k h
  utxo_step-HasSpent (mark chain_id nullifiers) s k (u, found, spent) = (
    marked chain_id nullifiers u,
    mark_entries-lookup chain_id nullifiers s.utxos k
        ∙ ap (marked_option chain_id nullifiers) found,
    marked-spent chain_id nullifiers u spent,
  )

  -- A spent UTXO stays spent through every sequence of upserts (which may bring the same UTXO as
  -- unspent) and of markings.
  pub utxo_steps-HasSpent :
      (steps : List UtxoStep) (s : MemoryStore) (k : UtxoId)
      → HasSpent k s.utxos
      → HasSpent k (utxo_steps steps s).utxos
  utxo_steps-HasSpent [] s k h = h
  utxo_steps-HasSpent (step ∷ steps) s k h =
      utxo_steps-HasSpent steps (utxo_step step s) k (utxo_step-HasSpent step s k h)
