-- ===== src/Store/Tests.antt =====
-- The in-memory store on small contents.
use Prim.Native.String.{String}
use ocash_sdk.Prelude.{ℕ, ◌≡◌, refl, Bool, true, false, List, [], ◌∷◌, Option, none, some, arith}
use ocash_sdk.Prelude.Int.{ℤ, pos}
use ocash_sdk.Prelude.Maps.{lookup, nat_eq}
use ocash_sdk.Types.{UtxoRecord}
use ocash_sdk.Merkle.Nodes.{Version, cm}
use ocash_sdk.Store.Query.{ListUtxosQuery, by_index, desc, apply_utxo_query}
use ocash_sdk.Store.Query.Pages.{Lists, unpaged, apply_utxo_query-Lists}
use ocash_sdk.Store.Operations.{StoredOperation}
use ocash_sdk.Store.Memory.{
  UtxoId, utxo_id_eq, MemoryStore, empty_store, Leaf, append_merkle_leaves, push_leaves,
  get_merkle_leaf, values,
}
use ocash_sdk.Store.Persisted.{WalletState, serialize_wallet_state, hydrate_wallet_state}
use ocash_sdk.Store.Persisted.RoundTrip.{hydrate_wallet_state-serialize_wallet_state}
use ocash_sdk.Store.Memory.Chains.{
  put_chairman_merkle_version, get_latest_chairman_merkle_version, chain_map, IsLatest,
  get_latest_chairman_merkle_version-IsLatest,
}
use ocash_sdk.Store.Memory.Log.{LogStep, create, delete, prune, log_steps, Within, log_steps-Within}
use ocash_sdk.Store.Memory.Spent.{HasSpent, upsert, mark, utxo_steps, utxo_steps-HasSpent}
use ocash_sdk.Store.Memory.Contiguous.{
  Contiguous, append_merkle_leaves-Contiguous, get_merkle_leaf-append,
}

abbrev coin : String → ℕ → Bool → UtxoRecord
coin name index spent = record {
  chain_id = 1;
  asset_id = "7";
  amount = pos 5;
  commitment = name;
  nullifier = name;
  mk_index = index;
  is_frozen = false;
  is_spent = spent;
  memo = none;
  created_at = none;
}

abbrev key : String → UtxoId
key name = record { chain = 1; hash = name }

abbrev leaf : ℕ → Leaf
leaf i = record { cid = i; commitment = 1 }

-- Two coins of which "a" is spent, and the leaves 0 and 1 of chain 1.
abbrev store : MemoryStore
store = record (empty_store none (some 2)) {
  utxos = (key "a", coin "a" 4 true) ∷ (key "b", coin "b" 3 false) ∷ [];
  merkle_leaves = (1, leaf 0 ∷ leaf 1 ∷ []) ∷ [];
}

abbrev same : String → String
same name = name

abbrev all_unspent : ListUtxosQuery
all_unspent = record {
  chain_id = some 1;
  asset_id = none;
  include_spent = false;
  include_frozen = false;
  spent = none;
  frozen = none;
  offset = some (pos 0);
  limit = some (pos 1);
  order_by = by_index;
  order = desc;
}

apply_utxo_query-Lists_example :
    Lists all_unspent
      (values store.utxos)
      (apply_utxo_query (values store.utxos) (unpaged all_unspent)).rows
      (apply_utxo_query (values store.utxos) all_unspent)
apply_utxo_query-Lists_example = apply_utxo_query-Lists (values store.utxos) all_unspent

-- "a" comes back as unspent, and "b" is marked.
utxo_steps-HasSpent_example :
    HasSpent
      (key "a")
      (utxo_steps same (upsert (coin "a" 4 false ∷ []) ∷ mark 1 ("b" ∷ []) ∷ []) store).utxos
utxo_steps-HasSpent_example =
    utxo_steps-HasSpent same (upsert (coin "a" 4 false ∷ []) ∷ mark 1 ("b" ∷ []) ∷ []) store
      (key "a") (coin "a" 4 true, refl, refl)

store-Contiguous : Contiguous store
store-Contiguous chain = ground arith

append_merkle_leaves-Contiguous_example :
    Contiguous (append_merkle_leaves 1 (leaf 3 ∷ leaf 2 ∷ leaf 5 ∷ []) store).0
append_merkle_leaves-Contiguous_example =
    append_merkle_leaves-Contiguous 1 (leaf 3 ∷ leaf 2 ∷ leaf 5 ∷ []) store store-Contiguous

-- The leaves 2 and 3 stay, although the append of 5 throws.
append_merkle_leaves-gap :
    append_merkle_leaves 1 (leaf 3 ∷ leaf 2 ∷ leaf 5 ∷ []) store
    ≡ (record store { merkle_leaves = (1, leaf 0 ∷ leaf 1 ∷ leaf 2 ∷ leaf 3 ∷ []) ∷ [] }, true)
unfolding append_merkle_leaves push_leaves
append_merkle_leaves-gap = refl

get_merkle_leaf-append_example :
    ((leaf 1).cid ≡ 1)
    × (get_merkle_leaf 1 1 (append_merkle_leaves 1 (leaf 1 ∷ leaf 2 ∷ []) store).0 ≡ some (leaf 1))
get_merkle_leaf-append_example =
    get_merkle_leaf-append 1 1 1 (leaf 1 ∷ leaf 2 ∷ []) store (leaf 1) store-Contiguous refl

abbrev version : ℕ → Version
version n = record { version = n; root_id = cm n 32; root_hash = n }

abbrev with_versions : MemoryStore
with_versions =
    put_chairman_merkle_version 1 (version 32) (put_chairman_merkle_version 1 (version 64) store)

get_latest_chairman_merkle_version-IsLatest_example :
    IsLatest
      (get_latest_chairman_merkle_version 1 with_versions)
      (values (chain_map 1 with_versions.versions))
get_latest_chairman_merkle_version-IsLatest_example =
    get_latest_chairman_merkle_version-IsLatest 1 with_versions

abbrev operation : String → StoredOperation
operation name = record {
  id = name;
  type = "deposit";
  created_at = 1;
  chain_id = some 1;
  token_id = none;
  status = "created";
  request_url = none;
  relayer_tx_hash = none;
  tx_hash = none;
  detail = none;
  error = none;
}

abbrev log : List LogStep
log =
    create (operation "a")
    ∷ create (operation "b")
    ∷ create (operation "c")
    ∷ delete "b"
    ∷ prune (some 9)
    ∷ []

log_steps-Within_example : Within (some 2) (log_steps log store).operations
log_steps-Within_example = log_steps-Within log store (omega arith)

abbrev five : ℤ → String
five n = "5"

abbrev read_five : String → Option ℤ
read_five s = some (pos 5)

abbrev wallet_state : WalletState
wallet_state = record {
  wallet_id = some "0x0a";
  cursors =
      (7, record { memo = 3; nullifier = 1; merkle = 0 })
      ∷ (1, record { memo = 40; nullifier = 2; merkle = 1 })
      ∷ [];
  utxos = store.utxos;
}

hydrate_wallet_state-serialize_wallet_state_example :
    let t =
      hydrate_wallet_state five read_five (serialize_wallet_state five read_five wallet_state) in
    (t.wallet_id ≡ some "0x0a")
    × ((chain_id : ℕ) → lookup chain_id t.cursors ≡ lookup chain_id wallet_state.cursors)
    × ((id : UtxoId) → lookup id t.utxos ≡ lookup id store.utxos)
hydrate_wallet_state-serialize_wallet_state_example =
    hydrate_wallet_state-serialize_wallet_state five read_five wallet_state (refl, (refl, tt))
      (refl, (refl, tt)) (refl, (refl, tt))
