-- ===== src/Wallet/Memos/Owned.antt =====
-- Which UTXOs `applyMemos` adds.
use Prim.Native.String.{String}
use mathlib.Core.List.{Mem, mem-cons_self, mem-cons_of_mem}
use ocash_sdk.Prelude.{
  ℕ, ◌≡◌, refl, true, false, Bool-cases, inl, inr, List, [], ◌∷◌, Option, none, some, All, length,
  ◌||◌,
}
use ocash_sdk.Prelude.Results.{Result, ok, err, Ensures}
use ocash_sdk.Prelude.Actions.{Post-state, Leads, Leads-bind}
use ocash_sdk.Prelude.Int.{ℤ}
use ocash_sdk.Prelude.Maps.{Eq, Map, lookup, insert}
use ocash_sdk.Types.{UtxoRecord}
use ocash_sdk.Crypto.Records.{RecordOpening}
use ocash_sdk.Crypto.Nullifiers.{Curve, Codec}
use ocash_sdk.Store.Memory.{UtxoId, utxo_id_eq, MemoryStore, upsert_utxos, upsert_all, values}
use ocash_sdk.Sync.Memos.{EntryMemo}
use ocash_sdk.Wallet.Service.{
  WalletError, Chain, AssetLookup, Wallet, build_asset_lookup, get_viewing_address, get_secret_key,
}
use ocash_sdk.Wallet.Memos.{
  Scan, with_overrides, local_commitment, is_opened_by, is_some, add_new, find_asset, utxo_of,
  or_failed, add_opening, add_decoded, add_unless_thrown, decoded, add_at, add_entries, apply_memos,
  refreshed_with, store_added, first_scan,
}

values-insert :
    {K V : Type 0} ⦃e : Eq K⦄ (P : V → Type 0) (k : K) (v : V) (m : Map K V)
    → P v
    → All P (values m)
    → All P (values (insert k v m))
values-insert P k v [] pv h = (pv, tt)
values-insert ⦃e⦄ P k v ((j, w) ∷ m) pv h = elim (Bool-cases (e.beq k j)) [
  | inl same ↦ rw (same) (pv, h.1)
  | inr other ↦ rw (other) (h.0, values-insert P k v m pv h.1)
]

module _ (show : ℤ → String) (c : Curve) (k : Codec) (chains : List Chain) (chain_id : ℕ)
    (secret_key : ℤ) (address : String) where
  -- The UTXO is that of one of the entries: the wallet decodes its memo to an opening that has, after the
  -- entry's overrides, the commitment of the entry up to case.
  abbrev pub Owned : List EntryMemo → UtxoRecord → Type 0
  Owned entries u =
      (entry : EntryMemo) × Mem entry entries
      × (ro : RecordOpening) × (decoded show c k chains chain_id secret_key address entry
          ≡ some (some ro))
      × (entry.cid ≡ some u.mk_index)
      × (is_opened_by k entry (with_overrides k entry ro) ≡ true)
      × (u.commitment ≡ local_commitment k (with_overrides k entry ro))
      × (u.amount ≡ (with_overrides k entry ro).asset_amount)
      × (u.is_spent ≡ false)
      × (u.chain_id ≡ chain_id)

  AllOwned : List EntryMemo → Scan → Type 0
  AllOwned entries s = All (Owned entries) (values s.added)

  add_new-AllOwned :
      (entries : List EntryMemo) (key : UtxoId) (u : UtxoRecord) (s : Scan)
      → Owned entries u
      → AllOwned entries s
      → AllOwned entries (add_new key u s)
  unfolding AllOwned
  add_new-AllOwned entries key u s owned h = elim (Bool-cases (is_some (lookup key s.added))) [
    | inl known ↦ rw (known) h
    | inr new ↦ rw (new) (values-insert (Owned entries) key u s.added owned h)
  ]

  refreshed_with-AllOwned :
      (entries : List EntryMemo) (key : UtxoId) (assets : Option (Map UtxoId AssetLookup))
      → Leads
          (AllOwned entries)
          (refreshed_with show c k chains chain_id secret_key address key assets)
          (λ asset. AllOwned entries)
          (AllOwned entries)
  unfolding AllOwned
  refreshed_with-AllOwned entries key none s h = h
  refreshed_with-AllOwned entries key (some assets) s h = h

  or_failed-AllOwned :
      (entries : List EntryMemo) (spends : Option String)
      → Leads
          (AllOwned entries)
          (or_failed show c k chains chain_id secret_key address spends)
          (λ spends. AllOwned entries)
          (AllOwned entries)
  or_failed-AllOwned entries none s h = h
  or_failed-AllOwned entries (some spends) s h = h

  find_asset-AllOwned :
      (entries : List EntryMemo) (key : UtxoId)
      → Leads
          (AllOwned entries)
          (find_asset show c k chains chain_id secret_key address key)
          (λ asset. AllOwned entries)
          (AllOwned entries)
  unfolding AllOwned
  find_asset-AllOwned entries key s h =
      elim (Bool-cases (is_some (lookup key s.assets) || s.refreshed)) [
        | inl done ↦ rw (done) h
        | inr first ↦
            rw (first) (refreshed_with-AllOwned entries key (build_asset_lookup show k chains) s h)
      ]

  add_opening-AllOwned :
      (entries : List EntryMemo) (entry : EntryMemo) (cid : ℕ) (ro : RecordOpening)
      → ((asset : Option AssetLookup) (spends : String)
          → Owned entries
              (utxo_of show c k chains chain_id secret_key address entry cid ro asset spends))
      → Leads
          (AllOwned entries)
          (add_opening show c k chains chain_id secret_key address entry cid ro)
          (λ u. AllOwned entries)
          (AllOwned entries)
  unfolding add_opening
  add_opening-AllOwned entries entry cid ro owned =
      let I = AllOwned entries in
      Leads-bind I (λ asset. I) (λ u. I) I _ _ (find_asset-AllOwned entries _)
        (λ asset.
          Leads-bind I (λ spends. I) (λ u. I) I _ _ (or_failed-AllOwned entries _)
            (λ spends s h. add_new-AllOwned entries _ _ s (owned asset spends) h))

  module _ (entries : List EntryMemo) (entry : EntryMemo) (member : Mem entry entries) where
    add_decoded-AllOwned :
        (cid : ℕ) (ro : Option RecordOpening)
        → entry.cid ≡ some cid
        → decoded show c k chains chain_id secret_key address entry ≡ some ro
        → Leads
            (AllOwned entries)
            (add_decoded show c k chains chain_id secret_key address entry cid ro)
            (λ u. AllOwned entries)
            (AllOwned entries)
    add_decoded-AllOwned cid none at opens s h = h
    add_decoded-AllOwned cid (some ro) at opens s h =
        elim (Bool-cases (is_opened_by k entry (with_overrides k entry ro))) [
          | inl same ↦ rw (same) (
              add_opening-AllOwned entries entry cid (with_overrides k entry ro)
                (λ asset spends. (entry, member, ro, opens, at, same, refl, refl, refl, refl)) s h)
          | inr other ↦ rw (other) h
        ]

    add_unless_thrown-AllOwned :
        (cid : ℕ) (ro : Option (Option RecordOpening))
        → entry.cid ≡ some cid
        → decoded show c k chains chain_id secret_key address entry ≡ ro
        → Leads
            (AllOwned entries)
            (add_unless_thrown show c k chains chain_id secret_key address entry cid ro)
            (λ u. AllOwned entries)
            (AllOwned entries)
    add_unless_thrown-AllOwned cid none at opens s h = h
    add_unless_thrown-AllOwned cid (some ro) at opens s h = add_decoded-AllOwned cid ro at opens s h

    add_at-AllOwned :
        (cid : Option ℕ)
        → entry.cid ≡ cid
        → Leads
            (AllOwned entries)
            (add_at show c k chains chain_id secret_key address entry cid)
            (λ u. AllOwned entries)
            (AllOwned entries)
    add_at-AllOwned none at s h = h
    add_at-AllOwned (some cid) at s h = add_unless_thrown-AllOwned cid _ at refl s h

  add_entries-AllOwned :
      (entries rest : List EntryMemo)
      → ((entry : EntryMemo) → Mem entry rest → Mem entry entries)
      → Leads
          (AllOwned entries)
          (add_entries show c k chains chain_id secret_key address rest)
          (λ u. AllOwned entries)
          (AllOwned entries)
  unfolding add_entries
  add_entries-AllOwned entries [] within = λ s h. h
  add_entries-AllOwned entries (entry ∷ rest) within =
      Leads-bind (AllOwned entries) (λ u. AllOwned entries) (λ u. AllOwned entries)
        (AllOwned entries) _ _
        (add_at-AllOwned entries entry (within entry mem-cons_self) entry.cid refl)
        (λ u. add_entries-AllOwned entries rest (λ e member. within e (mem-cons_of_mem _ member)))

module _ (show : ℤ → String) (c : Curve) (k : Codec) (chains : List Chain) (chain_id : ℕ)
    (entries : List EntryMemo) (w : Wallet) (s : MemoryStore) where
  -- What a scan leaves to store, and how many UTXOs it reports.
  store_added-Owned :
      (secret_key : ℤ) (address : String) (r : Scan × Result WalletError (Unit {0}))
      → All (Owned show c k chains chain_id secret_key address entries) (values r.0.added)
      → (us : List UtxoRecord) × All (Owned show c k chains chain_id secret_key address entries) us
        × ((store_added r s).0 ≡ upsert_utxos us s)
        × Ensures (λ (n : ℕ). n ≡ length us) (store_added r s).1
  unfolding upsert_all
  store_added-Owned secret_key address (scan, ok u) h = (values scan.added, h, refl, refl)
  store_added-Owned secret_key address (scan, err e) h = ([], tt, refl, tt)

  -- With an open wallet, whatever the entries are, and also where a memo makes the decoding throw:
  -- `applyMemos` stores nothing but UTXOs of the entries, which the wallet decodes and whose commitment is the entry's up to case, as unspent ones of the
  -- chain, under the entry's cid; and the number that it returns is theirs.
  pub apply_memos-Owned :
      (secret_key : ℤ) (address : String)
      → get_viewing_address w ≡ some address
      → get_secret_key w ≡ some secret_key
      → let r = apply_memos show c k chains chain_id entries w s in
        (us : List UtxoRecord) × All (Owned show c k chains chain_id secret_key address entries) us
        × (r.1 ≡ upsert_utxos us s)
        × Ensures (λ (n : ℕ). n ≡ length us) r.2
  unfolding apply_memos AllOwned
  apply_memos-Owned secret_key address opened key =
      rw (opened, key)
        (store_added-Owned secret_key address
          (add_entries show c k chains chain_id secret_key address entries (first_scan w))
          (Post-state (AllOwned show c k chains chain_id secret_key address entries)
            (add_entries show c k chains chain_id secret_key address entries (first_scan w))
            (add_entries-AllOwned show c k chains chain_id secret_key address entries entries
              (λ e member. member) (first_scan w) tt)))
