-- ===== src/Wallet/Tests.antt =====
-- The wallet on small stores and one memo.
use Prim.Native.String.{String}
use text.Mathlib.Text.{◌==◌ as str_eq}
use ocash_sdk.Prelude.{
  ℕ, ◌≡◌, refl, Bool, true, false, List, [], ◌∷◌, none, some, length, filter, All, if◌then◌else◌,
}
use ocash_sdk.Prelude.Results.{Ensures, err}
use ocash_sdk.Prelude.Int.{ℤ, pos, ◌+ℤ◌, sum_by}
use ocash_sdk.Types.{UtxoRecord}
use ocash_sdk.Crypto.Records.{RecordOpening}
use ocash_sdk.Crypto.Nullifiers.{Curve, Codec, nullifier, decode_memo_for_owner}
use ocash_sdk.Store.Memory.{UtxoId, MemoryStore, empty_store, mark_spent, upsert_utxos, values}
use ocash_sdk.Sync.Memos.{EntryMemo}
use ocash_sdk.Wallet.Service.{Wallet, get_balance, malformed_memo}
use ocash_sdk.Wallet.Balance.{is_newly_spent, mark_spent-get_balance}
use ocash_sdk.Wallet.Memos.{apply_memos, add_entries, add_opening}
use ocash_sdk.Wallet.Memos.Owned.{Owned, apply_memos-Owned}

abbrev coin : String → ℕ → Bool → UtxoRecord
coin name amount spent = record {
  chain_id = 1;
  asset_id = "7";
  amount = pos amount;
  commitment = name;
  nullifier = name;
  mk_index = 0;
  is_frozen = false;
  is_spent = spent;
  memo = none;
  created_at = none;
}

abbrev key : String → UtxoId
key name = record { chain = 1; hash = name }

-- "a" is spent; "b" and "c" are worth 12.
abbrev store : MemoryStore
store = record (empty_store none none) {
  utxos =
      (key "a", coin "a" 4 true) ∷ (key "b", coin "b" 5 false) ∷ (key "c", coin "c" 7 false) ∷ [];
}

abbrev same : String → String
same s = s

mark_spent-get_balance_example :
    get_balance 1 "7" store
    ≡ get_balance 1 "7" (mark_spent same 1 ("b" ∷ "a" ∷ []) store).0
      +ℤ sum_by
          (λ (u : UtxoRecord). u.amount)
          (filter (is_newly_spent same 1 "7" ("b" ∷ "a" ∷ [])) (values store.utxos))
mark_spent-get_balance_example = mark_spent-get_balance same 1 "7" ("b" ∷ "a" ∷ []) store

abbrev curve : Curve
curve = record { is_on_curve = λ pk. true; mul_point = λ pk n. pk }

abbrev opening : RecordOpening
opening = record {
  asset_id = pos 7;
  asset_amount = pos 5;
  user_pk = record { x = pos 1; y = pos 2 };
  blinding_factor = pos 3;
  is_frozen = false;
}

-- Every memo but "bad", on which the decryption throws, decrypts to the opening, and every hash is shown alike.
abbrev codec : Codec
codec = record {
  to_hex = λ n. "0x05";
  parse = λ s. some (pos 5);
  to_lower = same;
  decrypt_memo = λ secret_key memo. if str_eq memo "bad" then none else some (some opening);
  decode_record = λ memo. none;
  user_pk_to_address = λ pk. none;
}

abbrev show : ℤ → String
show n = "7"

abbrev entry : EntryMemo
entry = record {
  commitment = "0x05";
  memo = "0x02";
  cid = some 4;
  is_transparent = none;
  asset_id = none;
  amount = none;
  partial_hash = none;
  txhash = none;
  created_at = none;
}

abbrev wallet : Wallet
wallet = record {
  opened = true;
  secret_key = some (pos 9);
  address = some "0x0a";
  asset_by_chain_pool_id = [];
}

apply_memos-Owned_example :
    let r = apply_memos show curve codec [] 1 (entry ∷ []) wallet store in
    (us : List UtxoRecord) × All (Owned show curve codec [] 1 (pos 9) "0x0a" (entry ∷ [])) us
    × (r.1 ≡ upsert_utxos us store)
    × Ensures (λ (n : ℕ). n ≡ length us) r.2
apply_memos-Owned_example =
    apply_memos-Owned show curve codec [] 1 (entry ∷ []) wallet store (pos 9) "0x0a" refl refl

-- A memo on which the decryption throws ends the call, and the entry before it is not stored either.
malformed_memo_ends :
    apply_memos show curve codec [] 1 (entry ∷ record entry { memo = "bad" } ∷ []) wallet store
    ≡ (wallet, store, err malformed_memo)
unfolding apply_memos add_entries add_opening decode_memo_for_owner nullifier
    ocash_sdk.Prelude.Actions.◌>>=◌ ocash_sdk.Crypto.Records.commitment
    ocash_sdk.Crypto.Poseidon2.hash_sequence_with_domain ocash_sdk.Wallet.Service.add_chains
malformed_memo_ends = refl
