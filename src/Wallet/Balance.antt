-- ===== src/Wallet/Balance.antt =====
-- What `getBalance` sums up.
use Prim.Native.String.{String}
use text.Mathlib.Text.{◌==◌ as str_eq}
use ocash_sdk.Prelude.{
  ℕ, ◌≡◌, ◌==◌, refl, Bool, true, false, ◌&&◌, not, filter, Bool-cases, inl, inr, List, ◌∷◌, [],
  if◌then◌else◌,
}
use ocash_sdk.Prelude.Int.{ℤ, pos, ◌+ℤ◌, sum_by, int_laws}
use ocash_sdk.Prelude.Sorting.{sum_by-sort}
use ocash_sdk.Prelude.Maps.{Map}
use ocash_sdk.Types.{UtxoRecord}
use ocash_sdk.Store.Query.{utxo_passes, apply_utxo_query, row_precedes, utxo_key, by_index, asc}
use ocash_sdk.Store.Memory.{
  UtxoId, utxo_id_eq, MemoryStore, values, is_wanted, mark_entries, mark_spent,
}
use ocash_sdk.Wallet.Service.{get_balance, balance_query}

-- The UTXOs that count.
abbrev pub is_spendable : ℕ → String → UtxoRecord → Bool
is_spendable chain_id asset_id u =
    u.chain_id == chain_id && str_eq u.asset_id asset_id && not u.is_spent && not u.is_frozen

-- The balance is the sum of the amounts of all stored UTXOs of the chain and the asset that are neither
-- spent nor frozen, in whatever order they are stored.
pub get_balance_lem :
    (chain_id : ℕ) (asset_id : String) (s : MemoryStore)
    → get_balance chain_id asset_id s
      ≡ sum_by
          (λ (u : UtxoRecord). u.amount)
          (filter (is_spendable chain_id asset_id) (values s.utxos))
unfolding get_balance apply_utxo_query
get_balance_lem chain_id asset_id s =
    sum_by-sort (row_precedes utxo_key by_index asc) (λ (u : UtxoRecord). u.amount)
      (filter (utxo_passes (balance_query chain_id asset_id)) (values s.utxos))

abbrev amount_if : Bool → ℤ → ℤ
amount_if counts amount = if counts then amount else pos 0

sum_by-filter :
    (test : UtxoRecord → Bool) (u : UtxoRecord) (us : List UtxoRecord)
    → sum_by (λ (u : UtxoRecord). u.amount) (filter test (u ∷ us))
      ≡ amount_if (test u) u.amount +ℤ sum_by (λ (u : UtxoRecord). u.amount) (filter test us)
sum_by-filter test u us = elim (Bool-cases (test u)) [
  | inl counts ↦ rw (counts) refl
  | inr skipped ↦ rw (skipped) (omega int_laws)
]

exchange : (a b c d : ℤ) → a +ℤ b +ℤ (c +ℤ d) ≡ a +ℤ c +ℤ (b +ℤ d)
exchange a b c d = omega int_laws

amount_if-split :
    (a b is_spent is_frozen wanted : Bool) (amount : ℤ)
    → amount_if (a && b && not is_spent && not is_frozen) amount
      ≡ amount_if
          (a && b && not (if wanted && not is_spent then true else is_spent) && not is_frozen)
          amount
        +ℤ amount_if ((a && b && not is_spent && not is_frozen) && wanted) amount
amount_if-split false b s f w x = omega int_laws
amount_if-split true false s f w x = omega int_laws
amount_if-split true true true f true x = omega int_laws
amount_if-split true true true f false x = omega int_laws
amount_if-split true true false true true x = omega int_laws
amount_if-split true true false true false x = omega int_laws
amount_if-split true true false false true x = omega int_laws
amount_if-split true true false false false x = omega int_laws

module _ (to_lower : String → String) (chain_id : ℕ) (asset_id : String)
    (nullifiers : List String) where
  -- The UTXOs that count and that a marking of the nullifiers spends.
  abbrev pub is_newly_spent : UtxoRecord → Bool
  is_newly_spent u = is_spendable chain_id asset_id u && is_wanted to_lower chain_id nullifiers u

  abbrev marked : UtxoRecord → UtxoRecord
  marked u = record u {
    is_spent =
        if is_wanted to_lower chain_id nullifiers u && not u.is_spent then true else u.is_spent;
  }

  -- One entry of the loop.
  mark_entries-cons :
      (id : UtxoId) (u : UtxoRecord) (m : Map UtxoId UtxoRecord)
      → values (mark_entries to_lower chain_id nullifiers ((id, u) ∷ m)).0
        ≡ marked u ∷ values (mark_entries to_lower chain_id nullifiers m).0
  unfolding mark_entries
  mark_entries-cons id u m =
      elim (Bool-cases (is_wanted to_lower chain_id nullifiers u && not u.is_spent)) [
        | inl spends ↦ rw (spends) refl
        | inr stays ↦ rw (stays) refl
      ]

  mark_entries-balance :
      (m : Map UtxoId UtxoRecord)
      → sum_by (λ (u : UtxoRecord). u.amount) (filter (is_spendable chain_id asset_id) (values m))
        ≡ sum_by
            (λ (u : UtxoRecord). u.amount)
            (filter
              (is_spendable chain_id asset_id)
              (values (mark_entries to_lower chain_id nullifiers m).0))
          +ℤ sum_by (λ (u : UtxoRecord). u.amount) (filter is_newly_spent (values m))
  unfolding mark_entries
  mark_entries-balance [] = omega int_laws
  mark_entries-balance ((id, u) ∷ m) =
      rw
        (
          mark_entries-cons id u m,
          sum_by-filter (is_spendable chain_id asset_id) u (values m),
          sum_by-filter (is_spendable chain_id asset_id) (marked u)
              (values (mark_entries to_lower chain_id nullifiers m).0),
          sum_by-filter is_newly_spent u (values m),
          mark_entries-balance m,
          amount_if-split (u.chain_id == chain_id) (str_eq u.asset_id asset_id) u.is_spent
              u.is_frozen (is_wanted to_lower chain_id nullifiers u) u.amount,
        )
        (exchange _ _ _ _)

  -- Marking nullifiers as spent lowers the balance by exactly the amounts of the UTXOs of the chain and
  -- the asset that are neither spent nor frozen and whose nullifier is listed, up to case.
  pub mark_spent-get_balance :
      (s : MemoryStore)
      → get_balance chain_id asset_id s
        ≡ get_balance chain_id asset_id (mark_spent to_lower chain_id nullifiers s).0
          +ℤ sum_by (λ (u : UtxoRecord). u.amount) (filter is_newly_spent (values s.utxos))
  mark_spent-get_balance s =
      rw
        (
          get_balance_lem chain_id asset_id s,
          get_balance_lem chain_id asset_id (mark_spent to_lower chain_id nullifiers s).0,
        )
        (mark_entries-balance s.utxos)
