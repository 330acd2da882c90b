-- ===== src/Wallet/Memos.antt =====
-- src/wallet/walletService.ts: `applyMemos`.
pub mod Owned
use Prim.Native.String.{String}
use text.Mathlib.Text.{◌==◌ as str_eq}
use ocash_sdk.Prelude.{
  ℕ, ◌+◌, Bool, true, false, ◌&&◌, ◌||◌, not, List, [], ◌∷◌, Option, none, some, length,
  if◌then◌else◌,
}
use ocash_sdk.Prelude.Results.{Result, ok, err}
use ocash_sdk.Prelude.Actions.{Action, returned, thrown, modify, throw_when, ◌>>=◌, ◌>>◌}
use ocash_sdk.Prelude.Int.{ℤ}
use ocash_sdk.Prelude.Maps.{Map, lookup, insert}
use ocash_sdk.Types.{UtxoRecord}
use ocash_sdk.Crypto.Records.{Point, RecordOpening, commitment}
use ocash_sdk.Crypto.Nullifiers.{Curve, Codec, nullifier, decode_memo_for_owner}
use ocash_sdk.Store.Memory.{UtxoId, utxo_id_eq, MemoryStore, upsert_utxos, values}
use ocash_sdk.Sync.Memos.{EntryMemo}
use ocash_sdk.Wallet.Service.{
  WalletError, not_opened, malformed_asset, malformed_memo, nullifier_failed, Chain, AssetLookup,
  Wallet, lookup_key, build_asset_lookup, get_viewing_address, get_secret_key,
}

-- The variables of the loop: the asset lookup, `refreshedAssets` and `addedByKey`.
pub record Scan : Type 0 where
  pub assets : Map UtxoId AssetLookup
  pub refreshed : Bool
  pub added : Map UtxoId UtxoRecord

abbrev pub is_truthy : Option String → Bool
is_truthy none = false
is_truthy (some s) = not (str_eq s "")

abbrev pub parsed : Codec → Option String → Option ℤ
parsed k none = none
parsed k (some s) = k.parse s

-- `ro.asset_id = BigInt(…)` and then `ro.asset_amount = BigInt(…)`; a malformed id stops both, and a
-- malformed amount keeps the id.
abbrev pub overridden : Option ℤ → Option ℤ → RecordOpening → RecordOpening
overridden none amount ro = ro
overridden (some id) none ro = record ro { asset_id = id }
overridden (some id) (some amount) ro = record ro { asset_id = id; asset_amount = amount }

abbrev pub with_overrides : Codec → EntryMemo → RecordOpening → RecordOpening
with_overrides k entry ro =
    if is_truthy entry.amount && is_truthy entry.asset_id && is_truthy entry.partial_hash
    then overridden (parsed k entry.asset_id) (parsed k entry.amount) ro
    else ro

abbrev pub hex_of : Codec → Option ℕ → String
hex_of k none = ""
hex_of k (some n) = k.to_hex n

-- `CryptoToolkit.commitment(ro, 'hex')`; the hash of its five elements is always there.
abbrev pub local_commitment : Codec → RecordOpening → String
local_commitment k ro = hex_of k (commitment ro)

abbrev pub is_opened_by : Codec → EntryMemo → RecordOpening → Bool
is_opened_by k entry ro = str_eq (k.to_lower (local_commitment k ro)) (k.to_lower entry.commitment)

abbrev pub freezer_of : Option AssetLookup → Option Point
freezer_of none = none
freezer_of (some asset) = some asset.freezer_pk

abbrev pub asset_id_of : String → Option AssetLookup → String
asset_id_of pool_key none = pool_key
asset_id_of pool_key (some asset) = asset.asset_id

abbrev pub is_some : {A : Type 0} → Option A → Bool
is_some none = false
is_some (some a) = true

-- `if (!addedByKey.has(utxoKey)) addedByKey.set(utxoKey, utxo)`.
abbrev pub add_new : UtxoId → UtxoRecord → Scan → Scan
add_new key u s =
    if is_some (lookup key s.added) then s else record s { added = insert key u s.added }

module _ (show : ℤ → String) (c : Curve) (k : Codec) (chains : List Chain) (chain_id : ℕ)
    (secret_key : ℤ) (address : String) where
  abbrev pub refreshed_with :
      UtxoId → Option (Map UtxoId AssetLookup) → Action Scan WalletError (Option AssetLookup)
  refreshed_with key none s = (record s { refreshed = true }, err malformed_asset)
  refreshed_with key (some assets) s =
      (record s { refreshed = true; assets = assets }, ok (lookup key assets))

  -- The lookup is built again at the first asset that it does not have.
  abbrev pub find_asset : UtxoId → Action Scan WalletError (Option AssetLookup)
  find_asset key s =
      let found = lookup key s.assets in
      if is_some found || s.refreshed
      then (s, ok found)
      else refreshed_with key (build_asset_lookup show k chains) s

  abbrev pub utxo_of : EntryMemo → ℕ → RecordOpening → Option AssetLookup → String → UtxoRecord
  utxo_of entry cid ro asset spends = record {
    chain_id = chain_id;
    asset_id = asset_id_of (show ro.asset_id) asset;
    amount = ro.asset_amount;
    commitment = local_commitment k ro;
    nullifier = spends;
    mk_index = cid;
    is_frozen = ro.is_frozen;
    is_spent = false;
    memo = some entry.memo;
    created_at = entry.created_at;
  }

  abbrev pub or_failed : Option String → Action Scan WalletError String
  or_failed none = thrown nullifier_failed
  or_failed (some spends) = returned spends

  -- The rest of a round, for an opening whose commitment is the entry's.
  unfoldable pub add_opening : EntryMemo → ℕ → RecordOpening → Action Scan WalletError (Unit {0})
  add_opening entry cid ro = do
    asset ← find_asset (lookup_key show k chain_id ro.asset_id)
    spends ← or_failed (nullifier c k secret_key (local_commitment k ro) (freezer_of asset))
    modify (
        add_new (record { chain = chain_id; hash = k.to_lower (local_commitment k ro) })
          (utxo_of entry cid ro asset spends))

  abbrev pub add_if_opened : EntryMemo → ℕ → RecordOpening → Action Scan WalletError (Unit {0})
  add_if_opened entry cid ro =
      if is_opened_by k entry ro then add_opening entry cid ro else returned tt

  abbrev pub add_decoded : EntryMemo → ℕ → Option RecordOpening → Action Scan WalletError (Unit {0})
  add_decoded entry cid none = returned tt
  add_decoded entry cid (some ro) = add_if_opened entry cid (with_overrides k entry ro)

  abbrev pub is_marked : Option Bool → Bool
  is_marked none = false
  is_marked (some flag) = flag

  abbrev pub decoded : EntryMemo → Option (Option RecordOpening)
  decoded entry =
      decode_memo_for_owner k secret_key entry.memo address (is_marked entry.is_transparent)

  -- The decoding of a malformed memo throws, which ends the loop.
  abbrev pub add_unless_thrown :
      EntryMemo → ℕ → Option (Option RecordOpening) → Action Scan WalletError (Unit {0})
  add_unless_thrown entry cid none = thrown malformed_memo
  add_unless_thrown entry cid (some ro) = add_decoded entry cid ro

  abbrev pub add_at : EntryMemo → Option ℕ → Action Scan WalletError (Unit {0})
  add_at entry none = returned tt
  add_at entry (some cid) = add_unless_thrown entry cid (decoded entry)

  unfoldable pub add_entries : List EntryMemo → Action Scan WalletError (Unit {0})
  add_entries [] = returned tt
  add_entries (entry ∷ entries) = do add_at entry entry.cid; add_entries entries

abbrev pub first_scan : Wallet → Scan
first_scan w = record { assets = w.asset_by_chain_pool_id; refreshed = false; added = [] }

-- What is left to do after the loop: nothing is stored where it threw, or where nothing was added.
abbrev pub store_added :
    Scan × Result WalletError (Unit {0}) → MemoryStore → MemoryStore × Result WalletError ℕ
store_added (scan, err e) s = (s, err e)
store_added (scan, ok u) s = (upsert_utxos (values scan.added) s, ok (length (values scan.added)))

abbrev pub keep_assets : Scan × Result WalletError (Unit {0}) → Wallet → Wallet
keep_assets (scan, r) w = record w { asset_by_chain_pool_id = scan.assets }

-- The wallet, the store and the number of added UTXOs. An upsert of no UTXOs changes nothing.
module _ (show : ℤ → String) (c : Curve) (k : Codec) (chains : List Chain) (chain_id : ℕ) where
  abbrev pub apply_with :
      Option String
      → Option ℤ
      → List EntryMemo
      → Wallet
      → MemoryStore
      → Wallet × MemoryStore × Result WalletError ℕ
  apply_with (some address) (some secret_key) entries w s =
      let scanned =
        add_entries show c k chains chain_id secret_key address entries (first_scan w) in
      let stored = store_added scanned s in (keep_assets scanned w, stored.0, stored.1)
  apply_with _ _ entries w s = (w, s, err not_opened)

  unfoldable pub apply_memos :
      List EntryMemo → Wallet → MemoryStore → Wallet × MemoryStore × Result WalletError ℕ
  apply_memos entries w s = apply_with (get_viewing_address w) (get_secret_key w) entries w s
