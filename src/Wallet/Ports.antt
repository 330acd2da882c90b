-- ===== src/Wallet/Ports.antt =====
-- The wallet and the memory store as what the sync engine calls (Sync.State.Ports), without a Merkle
-- engine: `this.merkle?.ingestEntryMemos` does nothing. `told` lists the calls that did not throw.
use Prim.Native.String.{String}
use ocash_sdk.Prelude.{ℕ, ◌≡◌, refl, List, ◌++◌, map, Option, none, some, arith}
use ocash_sdk.Prelude.Results.{Result, ok, err}
use ocash_sdk.Prelude.Int.{ℤ}
use ocash_sdk.Crypto.Nullifiers.{Curve, Codec}
use ocash_sdk.Store.Memory.{MemoryStore, get_sync_cursor, set_sync_cursor}
use ocash_sdk.Store.Memory.Chains.{upsert_entry_memos, upsert_entry_nullifiers}
use ocash_sdk.Sync.Retries.{Thrown, sdk_error, other_error}
use ocash_sdk.Sync.Memos.{EntryMemo, Numbered}
use ocash_sdk.Sync.State.{Ports}
use ocash_sdk.Sync.Applied.{Recorder}
use ocash_sdk.Sync.Applied.Steps.{Call, marked_spent, memo_call}
use ocash_sdk.Wallet.Service.{
  WalletError, not_opened, key_failed, malformed_asset, malformed_memo, nullifier_failed, Chain,
  Wallet, get_viewing_address, mark_wallet_spent,
}
use ocash_sdk.Wallet.Memos.{apply_memos, is_some}

pub record World : Type 0 where
  pub wallet : Wallet
  pub store : MemoryStore
  pub told : List Call

-- Only the closed wallet is an `SdkError`.
abbrev pub thrown_of : WalletError → Thrown
thrown_of not_opened = sdk_error
thrown_of key_failed = other_error
thrown_of malformed_asset = other_error
thrown_of malformed_memo = other_error
thrown_of nullifier_failed = other_error

abbrev pub entry_of : Numbered → EntryMemo
entry_of m = m.entry

abbrev pub after_apply :
    List Numbered → Wallet × MemoryStore × Result WalletError ℕ → World → World × Option Thrown
after_apply ms (wallet, store, ok n) w =
    (record { wallet = wallet; store = store; told = w.told ++ map memo_call ms }, none)
after_apply ms (wallet, store, err e) w =
    (record { wallet = wallet; store = store; told = w.told }, some (thrown_of e))

abbrev pub after_mark : List String → Option (MemoryStore × ℕ) → World → World × Option Thrown
after_mark ns none w = (w, some sdk_error)
after_mark ns (some (store, n)) w =
    (record { wallet = w.wallet; store = store; told = w.told ++ map marked_spent ns }, none)

module _ (show : ℤ → String) (c : Curve) (k : Codec) (chains : List Chain) (chain_id : ℕ) where
  abbrev pub wallet_ports : Ports World
  wallet_ports = record {
    is_open = λ w. is_some (get_viewing_address w.wallet);
    get_sync_cursor = λ w. get_sync_cursor chain_id w.store;
    set_sync_cursor =
        λ cursor w. (record w { store = set_sync_cursor chain_id cursor w.store }, none);
    upsert_entry_memos = λ rows w. record w { store = upsert_entry_memos rows w.store };
    upsert_entry_nullifiers = λ rows w. record w { store = upsert_entry_nullifiers rows w.store };
    ingest_entry_memos = λ ms w. (w, none);
    apply_memos = λ ms w.
        after_apply ms (apply_memos show c k chains chain_id (map entry_of ms) w.wallet w.store) w;
    mark_spent =
        λ ns w. after_mark ns (mark_wallet_spent k.to_lower chain_id ns w.wallet w.store) w;
  }

  after_apply-told :
      (ms : List Numbered) (w : World) (r : Wallet × MemoryStore × Result WalletError ℕ)
      → (after_apply ms r w).1 ≡ none
      → (after_apply ms r w).0.told ≡ w.told ++ map memo_call ms
  after_apply-told ms w (wallet, store, ok n) fine = refl
  after_apply-told ms w (wallet, store, err e) fine = absurd (ground arith)

  after_apply-throws :
      (ms : List Numbered) (w : World) (r : Wallet × MemoryStore × Result WalletError ℕ)
      (e : Thrown)
      → (after_apply ms r w).1 ≡ some e
      → (after_apply ms r w).0.told ≡ w.told
  after_apply-throws ms w (wallet, store, ok n) e throws = absurd (ground arith)
  after_apply-throws ms w (wallet, store, err f) e throws = refl

  after_mark-told :
      (ns : List String) (w : World) (r : Option (MemoryStore × ℕ))
      → (after_mark ns r w).1 ≡ none
      → (after_mark ns r w).0.told ≡ w.told ++ map marked_spent ns
  after_mark-told ns w none fine = absurd (ground arith)
  after_mark-told ns w (some (store, n)) fine = refl

  after_mark-throws :
      (ns : List String) (w : World) (r : Option (MemoryStore × ℕ)) (e : Thrown)
      → (after_mark ns r w).1 ≡ some e
      → (after_mark ns r w).0.told ≡ w.told
  after_mark-throws ns w none e throws = refl
  after_mark-throws ns w (some (store, n)) e throws = absurd (ground arith)

  -- The wallet and the store keep the record of the calls that the sync engine's theorems ask for.
  pub wallet_ports-Recorder : Recorder wallet_ports (λ w. w.told)
  wallet_ports-Recorder = record {
    at_set = λ cursor w. refl;
    at_upsert = λ rows w. refl;
    at_upsert_nullifiers = λ rows w. refl;
    at_ingest = λ ms w. refl;
    at_apply = λ ms w fine. after_apply-told ms w _ fine;
    at_apply_error = λ ms w e throws. after_apply-throws ms w _ e throws;
    at_mark = λ ns w fine. after_mark-told ns w _ fine;
    at_mark_error = λ ns w e throws. after_mark-throws ns w _ e throws;
  }
