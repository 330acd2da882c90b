-- ===== src/Sync/Engine.antt =====
-- src/sync/syncEngine.ts: `syncChain`, from the cursor in storage to the event `sync:done`.
use Prim.Native.String.{String}
use text.Mathlib.Text.{◌==◌ as str_eq}
use ocash_sdk.Prelude.{
  ℕ, Bool, true, false, ◌&&◌, ◌||◌, not, List, Option, none, some, if◌then◌else◌,
}
use ocash_sdk.Types.{SyncCursor}
use ocash_sdk.Sync.Options.{Retry}
use ocash_sdk.Sync.State.{
  SyncError, requires_memo, wallet_not_open, missing_entry_url, missing_contract_address, idle,
  failing, SyncChainStatus, merkles, entry, Event, sync_start, sync_done, sync_error, Ports, Entry,
  ChainState, default_cursor, failed_at, set_memo, set_nullifier, set_merkle, emitted,
}
use ocash_sdk.Sync.Pages.{sync_memos, sync_nullifiers}

-- The chain's fields that the engine reads (types.ts).
pub record ChainConfig : Type 0 where
  pub entry_url : Option String
  pub ocash_contract_address : Option String
  pub contract : Option String

-- `resources`: the set that is enabled.
pub record Resources : Type 0 where
  pub memo : Bool
  pub nullifier : Bool
  pub merkle : Bool

-- No `resources` enables all of them.
abbrev pub enabled : Option Resources → Resources
enabled none = record { memo = true; nullifier = true; merkle = true }
enabled (some r) = r

abbrev pub is_given : Option String → Bool
is_given none = false
is_given (some s) = not (str_eq s "")

-- `chain.ocashContractAddress ?? chain.contract`.
abbrev pub contract_address : ChainConfig → Option String
contract_address c = elim c.ocash_contract_address [ none ↦ c.contract | some a ↦ some a ]

abbrev pub idle_status : SyncChainStatus
idle_status = record {
  memo = record { status = idle; downloaded = 0; total = none; error_message = none };
  nullifier = record { status = idle; downloaded = 0; total = none; error_message = none };
  merkle = record { status = idle; cursor = 0; error_message = none };
}

-- `initChainStatus`.
abbrev pub init_chain_status : Option SyncChainStatus → SyncChainStatus
init_chain_status none = idle_status
init_chain_status (some status) = status

abbrev pub cursor_or_default : Option SyncCursor → SyncCursor
cursor_or_default none = default_cursor
cursor_or_default (some cursor) = cursor

module _ {W : Type 0} (p : Ports W) (e : Entry) (retry : Retry) (to_lower : String → String)
    (chain_id page_size : ℕ) where
  -- The state at `sync:start`.
  abbrev pub chain_started : Option SyncChainStatus → ℕ → List Event → W → ChainState W
  chain_started status requests events w = emitted sync_start (record {
    world = w;
    cursor = cursor_or_default (p.get_sync_cursor w);
    status = init_chain_status status;
    requests = requests;
    events = events;
  })

  -- The merkle resource without the memos is an error, but the others are synced.
  abbrev pub check_merkle : Resources → ChainState W → ChainState W
  check_merkle r s =
      if r.merkle && not r.memo
      then emitted (sync_error merkles requires_memo) (
          set_merkle
            (λ m. record {
              status = failing;
              cursor = s.cursor.merkle;
              error_message = some requires_memo;
            })
            s)
      else s

  -- Why the entry service cannot be asked, in the order of the code's tests.
  abbrev pub entry_refusal : ChainConfig → W → Option SyncError
  entry_refusal c w =
      if not (p.is_open w)
      then some wallet_not_open
      else if not (is_given c.entry_url)
      then some missing_entry_url
      else if not (is_given (contract_address c))
      then some missing_contract_address
      else none

  abbrev pub refuse_memo : Bool → SyncError → ChainState W → ChainState W
  refuse_memo true error s = set_memo (λ m. failed_at s.cursor.memo error) s
  refuse_memo false error s = s

  abbrev pub refuse_nullifier : Bool → SyncError → ChainState W → ChainState W
  refuse_nullifier true error s = set_nullifier (λ n. failed_at s.cursor.nullifier error) s
  refuse_nullifier false error s = s

  abbrev pub refused : Resources → SyncError → ChainState W → ChainState W
  refused r error s =
      emitted (sync_error entry error)
        (refuse_nullifier r.nullifier error (refuse_memo r.memo error s))

  -- The two parts, which catch their errors.
  abbrev pub memo_part : Resources → ℕ → ChainState W → ChainState W
  memo_part r fuel s = elim r.memo [
    | true ↦ (sync_memos p e retry to_lower chain_id page_size r.merkle fuel s).0
    | false ↦ s
  ]

  abbrev pub nullifier_part : Resources → ℕ → ChainState W → ChainState W
  nullifier_part r fuel s = elim r.nullifier [
    | true ↦ (sync_nullifiers p e retry to_lower chain_id page_size r.merkle fuel s).0
    | false ↦ s
  ]

  -- What the `try` does; nothing is asked where neither memos nor nullifiers are enabled.
  abbrev pub parts : Resources → Option SyncError → ℕ → ChainState W → ChainState W
  parts r (some error) fuel s = refused r error s
  parts r none fuel s = nullifier_part r fuel (memo_part r fuel s)

  abbrev pub needed_refusal : Resources → ChainConfig → W → Option SyncError
  needed_refusal r c w = if r.memo || r.nullifier then entry_refusal c w else none

  -- The `finally` emits `sync:done` with the cursor.
  abbrev pub finished : ChainState W → ChainState W
  finished s = emitted (sync_done s.cursor) s

  unfoldable pub sync_chain :
      ChainConfig
      → Option Resources
      → Option SyncChainStatus
      → ℕ
      → ℕ
      → List Event
      → W
      → ChainState W
  sync_chain c resources status fuel requests events w =
      let r = enabled resources in
      finished (
        parts r (needed_refusal r c w) fuel
          (check_merkle r (chain_started status requests events w)))
