-- ===== src/Store/Persisted.antt =====
-- src/store/internal/persistedWalletState.ts: the wallet's part of a store as plain objects, whose
-- amounts are strings. A plain object lists integer keys in ascending order (the cursors), and other
-- keys in insertion order (the UTXOs).
pub mod RoundTrip
use Prim.Native.String.{String}
use ocash_sdk.Prelude.{
  ℕ, ◌≡◌, refl, sym, ◌∙◌, Bool, true, false, Bool-cases, Option-cases, inl, inr, List, [], ◌∷◌,
  Option, none, some, ltb, All, if◌then◌else◌, ◌==◌, ==_iff, arith,
}
use ocash_sdk.Prelude.Int.{ℤ}
use ocash_sdk.Prelude.Maps.{Eq, Map, lookup, insert, lookup-insert, nat_eq}
use ocash_sdk.Types.{UtxoRecord, SyncCursor}
use ocash_sdk.Store.Memory.{UtxoId, utxo_id_eq, values}

pub record PersistedUtxoRecord : Type 0 where
  pub chain_id : ℕ
  pub asset_id : String
  pub amount : String
  pub commitment : String
  pub nullifier : String
  pub mk_index : ℕ
  pub is_frozen : Bool
  pub is_spent : Bool
  pub memo : Option String
  pub created_at : Option ℕ

-- A field is none where `Number` of it is not finite.
pub record PersistedCursor : Type 0 where
  pub memo : Option ℕ
  pub nullifier : Option ℕ
  pub merkle : Option ℕ

pub record WalletState : Type 0 where
  pub wallet_id : Option String
  pub cursors : Map ℕ SyncCursor
  pub utxos : Map UtxoId UtxoRecord

pub record PersistedWalletState : Type 0 where
  pub wallet_id : Option String
  pub cursors : Map ℕ PersistedCursor
  pub utxos : Map UtxoId PersistedUtxoRecord

-- A new integer key goes in front of the first one that is larger.
abbrev pub place : {V : Type 0} → ℕ → V → Map ℕ V → Map ℕ V
place k v [] = (k, v) ∷ []
place k v ((j, w) ∷ m) = if ltb k j then (k, v) ∷ (j, w) ∷ m else (j, w) ∷ place k v m

abbrev pub put_after : {V : Type 0} → Option V → ℕ → V → Map ℕ V → Map ℕ V
put_after none k v m = place k v m
put_after (some w) k v m = insert k v m

abbrev pub put_integer : {V : Type 0} → ℕ → V → Map ℕ V → Map ℕ V
put_integer k v m = put_after (lookup k m) k v m

-- The loops over the entries: `f` converts a value, and a value that it does not convert is left out.
module _ {K V U : Type 0} (put : K → U → Map K U → Map K U) (f : V → Option U) where
  abbrev pub put_some : K → Option U → Map K U → Map K U
  put_some k none m = m
  put_some k (some u) m = put k u m

  unfoldable pub load : Map K V → Map K U → Map K U
  load [] m = m
  load ((k, v) ∷ entries) m = load entries (put_some k (f v) m)

abbrev pub persist_cursor : SyncCursor → Option PersistedCursor
persist_cursor c =
    some (record { memo = some c.memo; nullifier = some c.nullifier; merkle = some c.merkle })

-- `Number.isFinite(n) ? n : 0`.
abbrev pub finite_or_zero : Option ℕ → ℕ
finite_or_zero none = 0
finite_or_zero (some n) = n

abbrev pub hydrate_cursor : PersistedCursor → Option SyncCursor
hydrate_cursor c = some (record {
  memo = finite_or_zero c.memo;
  nullifier = finite_or_zero c.nullifier;
  merkle = finite_or_zero c.merkle;
})

-- `show` is `toString` of a `bigint` and `parse` is `BigInt` of a string, none where it throws.
module _ (show : ℤ → String) (parse : String → Option ℤ) where
  abbrev pub persist_utxo : UtxoRecord → Option PersistedUtxoRecord
  persist_utxo u = some (record {
    chain_id = u.chain_id;
    asset_id = u.asset_id;
    amount = show u.amount;
    commitment = u.commitment;
    nullifier = u.nullifier;
    mk_index = u.mk_index;
    is_frozen = u.is_frozen;
    is_spent = u.is_spent;
    memo = u.memo;
    created_at = u.created_at;
  })

  abbrev pub with_amount : PersistedUtxoRecord → Option ℤ → Option UtxoRecord
  with_amount u none = none
  with_amount u (some amount) = some (record {
    chain_id = u.chain_id;
    asset_id = u.asset_id;
    amount = amount;
    commitment = u.commitment;
    nullifier = u.nullifier;
    mk_index = u.mk_index;
    is_frozen = u.is_frozen;
    is_spent = u.is_spent;
    memo = u.memo;
    created_at = u.created_at;
  })

  abbrev pub hydrate_utxo : PersistedUtxoRecord → Option UtxoRecord
  hydrate_utxo u = with_amount u (parse u.amount)

  unfoldable pub serialize_wallet_state : WalletState → PersistedWalletState
  serialize_wallet_state s = record {
    wallet_id = s.wallet_id;
    cursors = load put_integer persist_cursor s.cursors [];
    utxos = load insert persist_utxo s.utxos [];
  }

  unfoldable pub hydrate_wallet_state : PersistedWalletState → WalletState
  hydrate_wallet_state s = record {
    wallet_id = s.wallet_id;
    cursors = load insert hydrate_cursor s.cursors [];
    utxos = load insert hydrate_utxo s.utxos [];
  }
