-- ===== src/Sync/Polling.antt =====
-- src/sync/syncEngine.ts: `start`, `stop`, the timer and `syncOnce`, as events on the engine's state. A
-- pass over a chain is one `syncChain` in flight, from its start to its `finally`; the events between
-- may come in any order. Abort controllers and timers are numbered as they are made.
pub mod Passes
use ocash_sdk.Prelude.{
  ℕ, ◌+◌, ◌≤◌, ◌≡◌, refl, sym, ap, ◌∙◌, Bool, true, false, Bool-cases, inl, inr, ◌||◌, not, ◌==◌,
  ==_iff, List, [], ◌∷◌, Option, none, some, if◌then◌else◌, arith,
}
use ocash_sdk.Prelude.Maps.{Map, lookup, insert, erase, nat_eq, lookup-insert_self}

abbrev pub has : ℕ → List ℕ → Bool
has x [] = false
has x (y ∷ ys) = x == y || has x ys

abbrev pub removed : ℕ → List ℕ → List ℕ
removed x [] = []
removed x (y ∷ ys) = if x == y then ys else y ∷ removed x ys

-- `running` is `runningChains`, `in_flight` the chains of the `syncChain` calls that have not ended,
-- `waiting` the controllers of the `start` calls whose first pass has not ended, and `intervals` the
-- timers that fire, with the controller of each.
pub record Polling : Type 0 where
  pub running : List ℕ
  pub in_flight : List ℕ
  pub waiting : List ℕ
  pub intervals : Map ℕ ℕ
  pub timer : Option ℕ
  pub controller : Option ℕ
  pub aborted : List ℕ
  pub made : ℕ

abbrev pub idle_engine : Polling
idle_engine = record {
  running = [];
  in_flight = [];
  waiting = [];
  intervals = [];
  timer = none;
  controller = none;
  aborted = [];
  made = 0;
}

-- One chain of `syncOnce`: skipped where it is running.
abbrev pub begin_chain : ℕ → Polling → Polling
begin_chain chain s =
    if has chain s.running
    then s
    else record s { running = chain ∷ s.running; in_flight = chain ∷ s.in_flight }

unfoldable pub begin_chains : List ℕ → Polling → Polling
begin_chains [] s = s
begin_chains (chain ∷ chains) s = begin_chains chains (begin_chain chain s)

abbrev pub is_aborted : Option ℕ → Polling → Bool
is_aborted none s = false
is_aborted (some controller) s = has controller s.aborted

-- With an aborted signal every task is a rejection.
abbrev pub sync_once : List ℕ → Option ℕ → Polling → Polling
sync_once chains signal s = if is_aborted signal s then s else begin_chains chains s

-- The `finally` of a chain's task.
abbrev pub finish_chain : ℕ → Polling → Polling
finish_chain chain s =
    if has chain s.in_flight
    then record s { running = removed chain s.running; in_flight = removed chain s.in_flight }
    else s

-- `start` up to its `await`: a new controller, and the first pass.
abbrev pub begun : Polling → Polling
begun s = record s { controller = some s.made; waiting = s.made ∷ s.waiting; made = s.made + 1 }

abbrev pub start_new : List ℕ → Polling → Polling
start_new chains s = sync_once chains (some s.made) (begun s)

abbrev pub start_unless : Option ℕ → List ℕ → Polling → Polling
start_unless none chains s = start_new chains s
start_unless (some timer) chains s = s

abbrev pub start : List ℕ → Polling → Polling
start chains s = start_unless s.timer chains s

-- `start` after its `await`: the timer is set.
abbrev pub set_timer : ℕ → Polling → Polling
set_timer controller s =
    if has controller s.waiting
    then record s {
      waiting = removed controller s.waiting;
      intervals = insert s.made controller s.intervals;
      timer = some s.made;
      made = s.made + 1;
    }
    else s

abbrev pub is_idle : List ℕ → Bool
is_idle [] = true
is_idle (chain ∷ chains) = false

abbrev pub tick_with : Option ℕ → List ℕ → Polling → Polling
tick_with none chains s = s
tick_with (some controller) chains s =
    if is_idle s.running then sync_once chains (some controller) s else s

-- The callback of an interval that is set.
abbrev pub tick : ℕ → List ℕ → Polling → Polling
tick timer chains s = tick_with (lookup timer s.intervals) chains s

abbrev pub abort : Option ℕ → Polling → Polling
abort none s = s
abort (some controller) s = record s { aborted = controller ∷ s.aborted; controller = none }

abbrev pub clear_timer : Option ℕ → Polling → Polling
clear_timer none s = s
clear_timer (some timer) s = record s { intervals = erase timer s.intervals; timer = none }

abbrev pub stop : Polling → Polling
stop s = clear_timer s.timer (abort s.controller s)

pub data PollEvent : Type 0 where
  called_once : List ℕ → PollEvent
  finished started : ℕ → PollEvent
  called_start : List ℕ → PollEvent
  fired : ℕ → List ℕ → PollEvent
  called_stop : PollEvent

-- A call of `syncOnce` from outside has a signal of its own, which is not aborted.
unfoldable pub handle : PollEvent → Polling → Polling
handle (called_once chains) s = sync_once chains none s
handle (finished chain) s = finish_chain chain s
handle (started controller) s = set_timer controller s
handle (called_start chains) s = start chains s
handle (fired timer chains) s = tick timer chains s
handle called_stop s = stop s

unfoldable pub run_events : List PollEvent → Polling → Polling
run_events [] s = s
run_events (event ∷ events) s = run_events events (handle event s)
