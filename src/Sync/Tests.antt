-- ===== src/Sync/Tests.antt =====
-- The sync engine on a service with three memos, and on a service that fails.
use Prim.Native.String.{String}
use ocash_sdk.Prelude.{
  ℕ, zero, suc, ◌+◌, ◌≤◌, ◌≡◌, ◌≢◌, refl, true, false, List, [], ◌∷◌, ◌++◌, map, none, some, length,
  take, drop, All, arith,
}
use ocash_sdk.Prelude.Results.{Result, ok, err}
use ocash_sdk.Prelude.Int.{pos}
use ocash_sdk.Sync.Options.{not_finite, finite, SyncEngineOptions, Retry}
use ocash_sdk.Sync.Retries.{Thrown, http_status, Signals, with_retries, Tried, with_retries-Tried}
use ocash_sdk.Sync.Memos.{
  EntryMemo, Numbered, numbered, sanitize_contiguous_memos, CountsFrom,
  sanitize_contiguous_memos-maximal,
}
use ocash_sdk.Sync.State.{Ports, Entry, ChainState, default_cursor, synced}
use ocash_sdk.Sync.Pages.{sync_memos}
use ocash_sdk.Sync.Applied.{Recorder}
use ocash_sdk.Sync.Applied.Steps.{Call, memo_call, marked_spent}
use ocash_sdk.Sync.Follows.{sync_memos-Synced}
use ocash_sdk.Sync.Follows.Rounds.{Serves, Reliable}
use ocash_sdk.Sync.Engine.{ChainConfig, idle_status, sync_chain}
use ocash_sdk.Sync.Told.{Told, sync_chain-Told}
use ocash_sdk.Sync.Polling.{
  idle_engine, called_once, finished, called_start, run_events, start, stop, set_timer, tick,
}
use ocash_sdk.Sync.Polling.Passes.{count, run_events-once, stop-start}

abbrev memo : ℕ → EntryMemo
memo cid = record {
  commitment = "0x01";
  memo = "0x02";
  cid = some cid;
  is_transparent = none;
  asset_id = none;
  amount = none;
  partial_hash = none;
  txhash = none;
  created_at = none;
}

abbrev log : List EntryMemo
log = memo 0 ∷ memo 1 ∷ memo 2 ∷ []

abbrev same : String → String
same s = s

abbrev retry : Retry
retry = record { attempts = 3; base_delay_ms = 250; max_delay_ms = 5000 }

abbrev signals : Signals
signals = record { is_aborted = λ n. false; abort_waiting = λ n. false }

abbrev service : Entry
service = record {
  list_memos =
      λ n offset limit. ok (record { items = take limit (drop offset log); total = length log });
  list_nullifiers_by_block = λ n offset limit. err (http_status 503);
  is_cancelled = λ n. false;
  signals = signals;
}

-- A world that only keeps what it is told.
abbrev ports : Ports (List Call)
ports = record {
  is_open = λ w. true;
  get_sync_cursor = λ w. some (record { memo = 1; nullifier = 0; merkle = 0 });
  set_sync_cursor = λ c w. (w, none);
  upsert_entry_memos = λ rows w. w;
  upsert_entry_nullifiers = λ rows w. w;
  ingest_entry_memos = λ ms w. (w, none);
  apply_memos = λ ms w. (w ++ map memo_call ms, none);
  mark_spent = λ ns w. (w ++ map marked_spent ns, none);
}

abbrev kept : List Call → List Call
kept w = w

ports-Recorder : Recorder ports kept
ports-Recorder = record {
  at_set = λ c w. refl;
  at_upsert = λ rows w. refl;
  at_upsert_nullifiers = λ rows w. refl;
  at_ingest = λ ms w. refl;
  at_apply = λ ms w fine. refl;
  at_apply_error = λ ms w e throws. absurd (ground arith);
  at_mark = λ ns w fine. refl;
  at_mark_error = λ ns w e throws. absurd (ground arith);
}

ports-Reliable : Reliable ports
ports-Reliable = record { at_set = λ c w. refl; at_ingest = λ ms w. refl; at_apply = λ ms w. refl }

service-Serves : Serves service log
service-Serves = record {
  at_page = λ n offset limit. refl;
  at_round = λ n. refl;
  at_attempt = λ n. refl;
}

abbrev config : ChainConfig
config = record {
  entry_url = some "https://entry";
  ocash_contract_address = some "0x03";
  contract = none;
}

abbrev first_state : ChainState (List Call)
first_state = record {
  world = [];
  cursor = default_cursor;
  status = idle_status;
  requests = 0;
  events = [];
}

sync_chain-Told_example :
    Told ports service retry same 1 2 kept ports-Recorder
      (record { memo = 1; nullifier = 0; merkle = 0 })
      []
      (sync_chain ports service retry same 1 2 config none none 3 0 [] [])
sync_chain-Told_example =
    sync_chain-Told ports service retry same 1 2 kept ports-Recorder config none none 3 0 [] []

sync_memos-Synced_example :
    let t = sync_memos ports service retry same 1 2 true 4 first_state in
    (t.1 ≡ ok tt) × (t.0.cursor.memo ≡ 3) × (t.0.status.memo.status ≡ synced)
sync_memos-Synced_example =
    sync_memos-Synced ports service retry same 1 2 true log (refl, (refl, (refl, tt)))
      service-Serves ports-Reliable (omega arith) (omega arith) 4 first_state (omega arith)
      (omega arith)

-- The first request fails, and the next ones are refused for their rate.
abbrev flaky : ℕ → Result Thrown ℕ
flaky zero = err (http_status 503)
flaky (suc n) = err (http_status 429)

with_retries-Tried_example : Tried retry signals flaky 3 0 (with_retries retry signals flaky 0)
with_retries-Tried_example = with_retries-Tried retry signals flaky 0 (omega arith)

sanitize_contiguous_memos-maximal_example :
    let page = memo 4 ∷ memo 1 ∷ memo 2 ∷ memo 0 ∷ [] in
    let kept = sanitize_contiguous_memos page 1 in
    CountsFrom 1 kept × All (λ (m : Numbered). m.cid ≢ 1 + length kept) (numbered page)
sanitize_contiguous_memos-maximal_example =
    sanitize_contiguous_memos-maximal (memo 4 ∷ memo 1 ∷ memo 2 ∷ memo 0 ∷ []) 1

abbrev odd_options : SyncEngineOptions
odd_options = record {
  page_size = finite (pos 0);
  poll_ms = not_finite;
  request_timeout_ms = finite (pos 5);
  retry = record { attempts = some (finite (pos 0)); base_delay_ms = none; max_delay_ms = none };
}

run_events-once_example :
    count 1
      (run_events
        (called_start (1 ∷ 2 ∷ []) ∷ called_once (1 ∷ []) ∷ finished 2 ∷ [])
        idle_engine).in_flight
    ≤ 1
run_events-once_example =
    run_events-once (called_start (1 ∷ 2 ∷ []) ∷ called_once (1 ∷ []) ∷ finished 2 ∷ []) 1

stop-start_example :
    let t = set_timer 0 (stop (start (1 ∷ []) idle_engine)) in
    (timer : ℕ) × (t.timer ≡ some timer) × (tick timer (1 ∷ []) t ≡ t) × (start (1 ∷ []) t ≡ t)
stop-start_example = stop-start (1 ∷ []) (1 ∷ []) idle_engine refl
