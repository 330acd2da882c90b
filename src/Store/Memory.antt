-- ===== src/Store/Memory.antt =====
-- src/store/memoryStore.ts: `MemoryStore`, method by method. A method that changes the store is a
-- function to the next store; `Promise`s resolve at once. Copies of records are the records.
pub mod Chains
pub mod Log
pub mod Spent
pub mod Contiguous
use Prim.Native.String.{String}
use text.Mathlib.Text.{◌==◌ as str_eq}
use text.Mathlib.TextEquality.{eq_iff}
use ocash_sdk.Prelude.{
  ℕ, suc, ◌+◌, ◌-◌, ◌≡◌, ◌↔◌, ◌==◌, ==_iff, Bool, true, false, ◌&&◌, ◌||◌, not, List, [], ◌∷◌, ◌++◌,
  Option, none, some, map, length, take, filter, get_elem?, find?, ltb, leb, if◌then◌else◌, arith,
}
use ocash_sdk.Prelude.Maps.{Eq, Map, lookup, insert, erase, nat_eq}
use ocash_sdk.Prelude.Sorting.{sort}
use ocash_sdk.Types.{UtxoRecord, SyncCursor}
use ocash_sdk.Merkle.Nodes.{NodeId, node_id_eq, Node, Version}
use ocash_sdk.Merkle.Insert.{NodeStore, put_nodes}
use ocash_sdk.Store.Query.{
  EntryMemoRecord, EntryNullifierRecord, ListUtxosQuery, ListEntriesQuery, Paged, apply_utxo_query,
  apply_entry_memo_query, apply_entry_nullifier_query,
}
use ocash_sdk.Store.Operations.{StoredOperation, ListOperationsQuery, apply_operations_query}

-- The key `${chainId}:${commitment}`.
pub record UtxoId : Type 0 where
  pub chain : ℕ
  pub hash : String

abbrev pub same_utxo : UtxoId → UtxoId → Bool
same_utxo a b = a.chain == b.chain && str_eq a.hash b.hash

pub same_utxo_iff : (a b : UtxoId) → (same_utxo a b ≡ true) ↔ (a ≡ b)
same_utxo_iff a b = ground (arith, ==_iff a.chain b.chain, eq_iff a.hash b.hash)

instance abbrev pub utxo_id_eq : Eq UtxoId
utxo_id_eq = record { beq = same_utxo; beq_iff = same_utxo_iff }

-- The engine's canonical hex string of a commitment stands for its number.
pub record Leaf : Type 0 where
  pub cid : ℕ
  pub commitment : ℕ

-- `max_operations` is none for `Number.POSITIVE_INFINITY`.
pub record MemoryStore : Type 0 where
  pub wallet_id : Option String
  pub cursors : Map ℕ SyncCursor
  pub utxos : Map UtxoId UtxoRecord
  pub operations : List StoredOperation
  pub merkle_leaves : Map ℕ (List Leaf)
  pub versions : Map ℕ (Map ℕ Version)
  pub nodes : Map ℕ NodeStore
  pub entry_memos : Map ℕ (Map ℕ EntryMemoRecord)
  pub entry_nullifiers : Map ℕ (Map ℕ EntryNullifierRecord)
  pub max_operations : Option ℕ

abbrev pub empty_store : Option String → Option ℕ → MemoryStore
empty_store wallet_id max = record {
  wallet_id = wallet_id;
  cursors = [];
  utxos = [];
  operations = [];
  merkle_leaves = [];
  versions = [];
  nodes = [];
  entry_memos = [];
  entry_nullifiers = [];
  max_operations = max;
}

abbrev pub same_wallet : Option String → Option String → Bool
same_wallet none none = true
same_wallet (some a) (some b) = str_eq a b
same_wallet _ _ = false

-- `options?.walletId ?? this.walletId`.
abbrev pub next_wallet : Option String → Option String → Option String
next_wallet none current = current
next_wallet (some id) current = some id

unfoldable pub init : Option String → MemoryStore → MemoryStore
init wallet_id s =
    let next = next_wallet wallet_id s.wallet_id in
    if same_wallet next s.wallet_id
    then record s { wallet_id = next }
    else empty_store next s.max_operations

abbrev pub get_sync_cursor : ℕ → MemoryStore → Option SyncCursor
get_sync_cursor chain_id s = lookup chain_id s.cursors

abbrev pub set_sync_cursor : ℕ → SyncCursor → MemoryStore → MemoryStore
set_sync_cursor chain_id cursor s = record s { cursors = insert chain_id cursor s.cursors }

abbrev pub utxo_id : UtxoRecord → UtxoId
utxo_id u = record { chain = u.chain_id; hash = u.commitment }

-- `prev?.isSpent ?? utxo.isSpent`.
abbrev pub kept_spent : Option UtxoRecord → UtxoRecord → UtxoRecord
kept_spent none u = u
kept_spent (some prev) u = record u { is_spent = prev.is_spent }

abbrev pub upsert_utxo : UtxoRecord → Map UtxoId UtxoRecord → Map UtxoId UtxoRecord
upsert_utxo u m = insert (utxo_id u) (kept_spent (lookup (utxo_id u) m) u) m

unfoldable pub upsert_all : List UtxoRecord → Map UtxoId UtxoRecord → Map UtxoId UtxoRecord
upsert_all [] m = m
upsert_all (u ∷ us) m = upsert_all us (upsert_utxo u m)

abbrev pub upsert_utxos : List UtxoRecord → MemoryStore → MemoryStore
upsert_utxos us s = record s { utxos = upsert_all us s.utxos }

abbrev pub values {ℓ} : {K V : Type ℓ} → List (K × V) → List V
values [] = []
values ((k, v) ∷ m) = v ∷ values m

abbrev pub list_utxos : ListUtxosQuery → MemoryStore → Paged UtxoRecord
list_utxos q s = apply_utxo_query (values s.utxos) q

abbrev pub has_text : String → List String → Bool
has_text x [] = false
has_text x (y ∷ ys) = str_eq x y || has_text x ys

-- `to_lower` is JavaScript's `toLowerCase`.
module _ (to_lower : String → String) where
  abbrev pub is_wanted : ℕ → List String → UtxoRecord → Bool
  is_wanted chain_id nullifiers u =
      u.chain_id == chain_id && has_text (to_lower u.nullifier) (map to_lower nullifiers)

  -- The loop over the entries: the next map, and how many records changed.
  unfoldable pub mark_entries : ℕ → List String → Map UtxoId UtxoRecord → Map UtxoId UtxoRecord × ℕ
  mark_entries chain_id nullifiers [] = ([], 0)
  mark_entries chain_id nullifiers ((k, u) ∷ m) =
      let rest = mark_entries chain_id nullifiers m in
      if is_wanted chain_id nullifiers u && not u.is_spent
      then ((k, record u { is_spent = true }) ∷ rest.0, rest.1 + 1)
      else ((k, u) ∷ rest.0, rest.1)

  abbrev pub mark_spent : ℕ → List String → MemoryStore → MemoryStore × ℕ
  mark_spent chain_id nullifiers s =
      let r = mark_entries chain_id nullifiers s.utxos in (record s { utxos = r.0 }, r.1)

-- `undefined` also for an empty list.
abbrev pub some_rows : Option (List Leaf) → Option (List Leaf)
some_rows none = none
some_rows (some []) = none
some_rows (some (l ∷ ls)) = some (l ∷ ls)

abbrev pub get_merkle_leaves : ℕ → MemoryStore → Option (List Leaf)
get_merkle_leaves chain_id s = some_rows (lookup chain_id s.merkle_leaves)

abbrev pub cid_precedes : Leaf → Leaf → Bool
cid_precedes a b = ltb a.cid b.cid

-- The `for` over the fresh leaves: the list that `existing.push` extends, and whether it threw.
unfoldable pub push_leaves : List Leaf → ℕ → List Leaf → List Leaf × Bool
push_leaves existing next [] = (existing, false)
push_leaves existing next (row ∷ rows) =
    let rest = push_leaves (existing ++ row ∷ []) (next + 1) rows in
    if row.cid == next then rest else (existing, true)

abbrev pub existing_leaves : Option (List Leaf) → List Leaf
existing_leaves none = []
existing_leaves (some rows) = rows

-- What the map holds after the loop. An error leaves the rows that were pushed in the chain's own
-- list; a list that was made for the call is lost.
abbrev pub store_leaves : ℕ → Option (List Leaf) → List Leaf × Bool → MemoryStore → MemoryStore
store_leaves chain_id none (rows, true) s = s
store_leaves chain_id _ (rows, _) s = record s {
  merkle_leaves = insert chain_id rows s.merkle_leaves;
}

-- The next store, and whether "Non-contiguous merkle leaves append" was thrown. The code's test of
-- the first fresh leaf is the loop's first test.
unfoldable pub append_merkle_leaves : ℕ → List Leaf → MemoryStore → MemoryStore × Bool
append_merkle_leaves chain_id [] s = (s, false)
append_merkle_leaves chain_id (l ∷ ls) s =
    let present = lookup chain_id s.merkle_leaves in
    let existing = existing_leaves present in
    let next = length existing in
    let fresh = filter (λ (l : Leaf). leb next l.cid) (sort cid_precedes (l ∷ ls)) in
    let pushed = push_leaves existing next fresh in
    (store_leaves chain_id present pushed s, pushed.1)

abbrev pub clear_merkle_leaves : ℕ → MemoryStore → MemoryStore
clear_merkle_leaves chain_id s = record s { merkle_leaves = erase chain_id s.merkle_leaves }

-- `rows?.[cid]`.
abbrev pub get_merkle_leaf : ℕ → ℕ → MemoryStore → Option Leaf
get_merkle_leaf chain_id cid s = get_elem? (existing_leaves (lookup chain_id s.merkle_leaves)) cid
