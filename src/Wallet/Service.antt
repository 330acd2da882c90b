-- ===== src/Wallet/Service.antt =====
-- src/wallet/walletService.ts: `WalletService`, method by method. Keys and memos are opened by the curve
-- and the codec of Crypto.Nullifiers; `derive` is `KeyManager.deriveKeyPair` with the address of its
-- public key, none where it throws. The key `${chainId}:${poolKey}` is a pair.
use Prim.Native.String.{String}
use ocash_sdk.Prelude.{ℕ, Bool, true, false, List, [], ◌∷◌, Option, none, some}
use ocash_sdk.Prelude.Int.{ℤ, sum_by}
use ocash_sdk.Prelude.Maps.{Map, insert}
use ocash_sdk.Types.{UtxoRecord}
use ocash_sdk.Crypto.Records.{Point, pool_id}
use ocash_sdk.Crypto.Nullifiers.{Codec}
use ocash_sdk.Store.Query.{ListUtxosQuery, Paged, by_index, asc}
use ocash_sdk.Store.Memory.{UtxoId, utxo_id_eq, MemoryStore, init, list_utxos, mark_spent}

pub data WalletError : Type 0 where
  not_opened key_failed malformed_asset malformed_memo nullifier_failed : WalletError

-- A token's fields that the wallet reads (types.ts).
pub record Token : Type 0 where
  pub id : String
  pub wrapped_erc20 : String
  pub viewer_pk : String × String
  pub freezer_pk : String × String

pub record Chain : Type 0 where
  pub chain_id : ℕ
  pub tokens : List Token

pub record AssetLookup : Type 0 where
  pub asset_id : String
  pub viewer_pk : Point
  pub freezer_pk : Point

pub record Wallet : Type 0 where
  pub opened : Bool
  pub secret_key : Option ℤ
  pub address : Option String
  pub asset_by_chain_pool_id : Map UtxoId AssetLookup

abbrev pub closed_wallet : Wallet
closed_wallet = record {
  opened = false;
  secret_key = none;
  address = none;
  asset_by_chain_pool_id = [];
}

-- `String(n)` of a `bigint`.
module _ (show : ℤ → String) (k : Codec) where
  abbrev pub lookup_key : ℕ → ℤ → UtxoId
  lookup_key chain_id pool = record { chain = chain_id; hash = show pool }

  abbrev pub both : Option ℤ → Option ℤ → Option Point
  both (some x) (some y) = some (record { x = x; y = y })
  both none y = none
  both (some x) none = none

  abbrev pub to_bigint_point : String × String → Option Point
  to_bigint_point (x, y) = both (k.parse x) (k.parse y)

  abbrev pub pool_of : Option ℤ → Point → Point → Option ℕ
  pool_of none viewer_pk freezer_pk = none
  pool_of (some token) viewer_pk freezer_pk = pool_id token viewer_pk freezer_pk

  abbrev pub add_asset :
      ℕ
      → String
      → Option ℕ
      → Point
      → Point
      → Map UtxoId AssetLookup
      → Option (Map UtxoId AssetLookup)
  add_asset chain_id id none viewer_pk freezer_pk m = none
  add_asset chain_id id (some pool) viewer_pk freezer_pk m = some (
      insert (lookup_key chain_id (ℤ.pos pool))
        (record { asset_id = id; viewer_pk = viewer_pk; freezer_pk = freezer_pk }) m)

  abbrev pub add_token_at :
      ℕ
      → Token
      → Option Point
      → Option Point
      → Map UtxoId AssetLookup
      → Option (Map UtxoId AssetLookup)
  add_token_at chain_id t (some viewer_pk) (some freezer_pk) m =
      add_asset chain_id t.id (pool_of (k.parse t.wrapped_erc20) viewer_pk freezer_pk) viewer_pk
        freezer_pk m
  add_token_at chain_id t _ _ m = none

  abbrev pub add_token :
      ℕ → Token → Option (Map UtxoId AssetLookup) → Option (Map UtxoId AssetLookup)
  add_token chain_id t none = none
  add_token chain_id t (some m) =
      add_token_at chain_id t (to_bigint_point t.viewer_pk) (to_bigint_point t.freezer_pk) m

  unfoldable pub add_tokens :
      ℕ → List Token → Option (Map UtxoId AssetLookup) → Option (Map UtxoId AssetLookup)
  add_tokens chain_id [] m = m
  add_tokens chain_id (t ∷ ts) m = add_tokens chain_id ts (add_token chain_id t m)

  unfoldable pub add_chains :
      List Chain → Option (Map UtxoId AssetLookup) → Option (Map UtxoId AssetLookup)
  add_chains [] m = m
  add_chains (c ∷ cs) m = add_chains cs (add_tokens c.chain_id c.tokens m)

  -- None where a coordinate or an address is no number.
  abbrev pub build_asset_lookup : List Chain → Option (Map UtxoId AssetLookup)
  build_asset_lookup chains = add_chains chains (some [])

-- The session that `open` sets up, before the storage's `init`. A failure leaves the fields that were
-- set before it.
abbrev pub with_assets : Option (Map UtxoId AssetLookup) → Wallet → Wallet × Bool
with_assets none w = (w, false)
with_assets (some m) w = (record w { asset_by_chain_pool_id = m; opened = true }, true)

abbrev pub opened_with :
    Option (Map UtxoId AssetLookup) → Option (ℤ × String) → Wallet → Wallet × Bool
opened_with assets none w = (w, false)
opened_with assets (some (secret_key, address)) w =
    with_assets assets (record w { secret_key = some secret_key; address = some address })

abbrev pub init_if : Wallet × Bool → MemoryStore → Wallet × MemoryStore × Bool
init_if (w, true) s = (w, init w.address s, true)
init_if (w, false) s = (w, s, false)

unfoldable pub open_wallet :
    Option (Map UtxoId AssetLookup)
    → Option (ℤ × String)
    → Wallet
    → MemoryStore
    → Wallet × MemoryStore × Bool
open_wallet assets derived w s = init_if (opened_with assets derived w) s

-- The asset lookup stays.
abbrev pub close : Wallet → Wallet
close w = record w { opened = false; secret_key = none; address = none }

abbrev pub if_opened {ℓ} : {A : Type ℓ} → Bool → Option A → Option A
if_opened true a = a
if_opened false a = none

-- None is the error "Wallet is not opened".
abbrev pub get_viewing_address : Wallet → Option String
get_viewing_address w = if_opened w.opened w.address

abbrev pub get_secret_key : Wallet → Option ℤ
get_secret_key w = if_opened w.opened w.secret_key

abbrev pub checked {ℓ} : {A : Type ℓ} → Option String → A → Option A
checked none a = none
checked (some address) a = some a

abbrev pub get_utxos : ListUtxosQuery → Wallet → MemoryStore → Option (Paged UtxoRecord)
get_utxos q w s = checked (get_viewing_address w) (list_utxos q s)

-- The other fields of the query are left out, which is the order by index.
abbrev pub balance_query : ℕ → String → ListUtxosQuery
balance_query chain_id asset_id = record {
  chain_id = some chain_id;
  asset_id = some asset_id;
  include_spent = false;
  include_frozen = false;
  spent = none;
  frozen = none;
  offset = none;
  limit = none;
  order_by = by_index;
  order = asc;
}

unfoldable pub get_balance : ℕ → String → MemoryStore → ℤ
get_balance chain_id asset_id s =
    sum_by (λ (u : UtxoRecord). u.amount) (list_utxos (balance_query chain_id asset_id) s).rows

-- The store, and how many records were spent by the call (the event's `spent`); none if not opened.
unfoldable pub mark_wallet_spent :
    (String → String) → ℕ → List String → Wallet → MemoryStore → Option (MemoryStore × ℕ)
mark_wallet_spent to_lower chain_id nullifiers w s =
    checked (get_viewing_address w) (mark_spent to_lower chain_id nullifiers s)
