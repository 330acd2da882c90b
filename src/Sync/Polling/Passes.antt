-- ===== src/Sync/Polling/Passes.antt =====
-- The passes in flight under any order of the engine's events, and a `stop` during the first pass of
-- `start`.
use mathlib.Core.Path.{subst}
use ocash_sdk.Prelude.{
  ℕ, ◌+◌, ◌≤◌, ◌≡◌, refl, sym, ap, true, false, Bool-cases, inl, inr, ◌==◌, ==_iff, List, [], ◌∷◌,
  Option, none, some, if◌then◌else◌, arith,
}
use ocash_sdk.Prelude.Maps.{lookup, nat_eq, lookup-insert_self}
use ocash_sdk.Sync.Polling.{
  has, removed, Polling, idle_engine, begin_chain, begin_chains, is_aborted, sync_once,
  finish_chain, begun, start_new, start_unless, start, set_timer, is_idle, tick_with, tick, abort,
  clear_timer, stop, PollEvent, called_once, finished, started, called_start, fired, called_stop,
  handle, run_events,
}

-- How many passes over a chain are in flight.
abbrev pub count : ℕ → List ℕ → ℕ
count x [] = 0
count x (y ∷ ys) = if x == y then count x ys + 1 else count x ys

abbrev Apart : List ℕ → Type 0
Apart [] = Unit
Apart (x ∷ xs) = (has x xs ≡ false) × Apart xs

-- The set of running chains is that of the passes in flight, each of which is there once.
Tracks : Polling → Type 0
Tracks s = (s.in_flight ≡ s.running) × Apart s.running

has-removed : (x y : ℕ) (ys : List ℕ) → has y ys ≡ false → has y (removed x ys) ≡ false
has-removed x y [] h = refl
has-removed x y (z ∷ zs) h = ground (arith, has-removed x y zs)

Apart-removed : (x : ℕ) (xs : List ℕ) → Apart xs → Apart (removed x xs)
Apart-removed x [] h = tt
Apart-removed x (y ∷ ys) h = elim (Bool-cases (x == y)) [
  | inl here ↦ rw (here) h.1
  | inr later ↦ rw (later) (has-removed x y ys h.0, Apart-removed x ys h.1)
]

begin_chain-Tracks : (chain : ℕ) (s : Polling) → Tracks s → Tracks (begin_chain chain s)
unfolding Tracks
begin_chain-Tracks chain s h = elim (Bool-cases (has chain s.running)) [
  | inl running ↦ rw (running) h
  | inr free ↦ rw (free) (ap (◌∷◌ chain) h.0, (free, h.1))
]

begin_chains-Tracks : (chains : List ℕ) (s : Polling) → Tracks s → Tracks (begin_chains chains s)
unfolding begin_chains
begin_chains-Tracks [] s h = h
begin_chains-Tracks (chain ∷ chains) s h =
    begin_chains-Tracks chains (begin_chain chain s) (begin_chain-Tracks chain s h)

sync_once-Tracks :
    (chains : List ℕ) (signal : Option ℕ) (s : Polling)
    → Tracks s
    → Tracks (sync_once chains signal s)
sync_once-Tracks chains signal s h = elim (Bool-cases (is_aborted signal s)) [
  | inl stopped ↦ rw (stopped) h
  | inr goes ↦ rw (goes) (begin_chains-Tracks chains s h)
]

finish_chain-Tracks : (chain : ℕ) (s : Polling) → Tracks s → Tracks (finish_chain chain s)
unfolding Tracks
finish_chain-Tracks chain s h = elim (Bool-cases (has chain s.in_flight)) [
  | inl there ↦ rw (there) (ap (removed chain) h.0, Apart-removed chain s.running h.1)
  | inr gone ↦ rw (gone) h
]

start_unless-Tracks :
    (timer : Option ℕ) (chains : List ℕ) (s : Polling)
    → Tracks s
    → Tracks (start_unless timer chains s)
unfolding Tracks
start_unless-Tracks none chains s h = sync_once-Tracks chains (some s.made) (begun s) h
start_unless-Tracks (some timer) chains s h = h

set_timer-Tracks : (controller : ℕ) (s : Polling) → Tracks s → Tracks (set_timer controller s)
unfolding Tracks
set_timer-Tracks controller s h = elim (Bool-cases (has controller s.waiting)) [
  | inl there ↦ rw (there) h
  | inr gone ↦ rw (gone) h
]

tick_with-Tracks :
    (controller : Option ℕ) (chains : List ℕ) (s : Polling)
    → Tracks s
    → Tracks (tick_with controller chains s)
tick_with-Tracks none chains s h = h
tick_with-Tracks (some controller) chains s h = elim (Bool-cases (is_idle s.running)) [
  | inl idle ↦ rw (idle) (sync_once-Tracks chains (some controller) s h)
  | inr busy ↦ rw (busy) h
]

abort-Tracks : (controller : Option ℕ) (s : Polling) → Tracks s → Tracks (abort controller s)
unfolding Tracks
abort-Tracks none s h = h
abort-Tracks (some controller) s h = h

clear_timer-Tracks : (timer : Option ℕ) (s : Polling) → Tracks s → Tracks (clear_timer timer s)
unfolding Tracks
clear_timer-Tracks none s h = h
clear_timer-Tracks (some timer) s h = h

handle-Tracks : (event : PollEvent) (s : Polling) → Tracks s → Tracks (handle event s)
unfolding handle
handle-Tracks (called_once chains) s h = sync_once-Tracks chains none s h
handle-Tracks (finished chain) s h = finish_chain-Tracks chain s h
handle-Tracks (started controller) s h = set_timer-Tracks controller s h
handle-Tracks (called_start chains) s h = start_unless-Tracks s.timer chains s h
handle-Tracks (fired timer chains) s h = tick_with-Tracks (lookup timer s.intervals) chains s h
handle-Tracks called_stop s h =
    clear_timer-Tracks s.timer (abort s.controller s) (abort-Tracks s.controller s h)

run_events-Tracks :
    (events : List PollEvent) (s : Polling) → Tracks s → Tracks (run_events events s)
unfolding run_events
run_events-Tracks [] s h = h
run_events-Tracks (event ∷ events) s h =
    run_events-Tracks events (handle event s) (handle-Tracks event s h)

count-none : (x : ℕ) (xs : List ℕ) → has x xs ≡ false → count x xs ≡ 0
count-none x [] h = refl
count-none x (y ∷ ys) h = ground (arith, count-none x ys)

count-Apart : (x : ℕ) (xs : List ℕ) → Apart xs → count x xs ≤ 1
count-Apart x [] h = omega arith
count-Apart x (y ∷ ys) h = elim (Bool-cases (x == y)) [
  | inl here ↦
      let same = (==_iff x y).0 here in
      let others = count-none x ys (rw (same) h.0) in rw (here) (omega arith)
  | inr later ↦ rw (later) (count-Apart x ys h.1)
]

-- From an engine at rest, no order of calls of `syncOnce`, `start` and `stop`, of timers and of ends of
-- passes ever has two passes over the same chain in flight.
pub run_events-once :
    (events : List PollEvent) (chain : ℕ)
    → count chain (run_events events idle_engine).in_flight ≤ 1
unfolding Tracks
run_events-once events chain =
    let (same, apart) = run_events-Tracks events idle_engine (refl, tt) in
    rw (same) (count-Apart chain _ apart)

-- What a first pass leaves alone.
abbrev Begun : ℕ → Polling → Type 0
Begun c s = (s.controller ≡ some c) × (s.timer ≡ none) × (ws : List ℕ) × (s.waiting ≡ c ∷ ws)

begin_chain-Begun : (c chain : ℕ) (s : Polling) → Begun c s → Begun c (begin_chain chain s)
begin_chain-Begun c chain s h = elim (Bool-cases (has chain s.running)) [
  | inl running ↦ rw (running) h
  | inr free ↦ rw (free) h
]

begin_chains-Begun :
    (c : ℕ) (chains : List ℕ) (s : Polling) → Begun c s → Begun c (begin_chains chains s)
unfolding begin_chains
begin_chains-Begun c [] s h = h
begin_chains-Begun c (chain ∷ chains) s h =
    begin_chains-Begun c chains (begin_chain chain s) (begin_chain-Begun c chain s h)

start_new-Begun :
    (chains : List ℕ) (s : Polling) → s.timer ≡ none → Begun s.made (start_new chains s)
start_new-Begun chains s off =
    let fresh : Begun s.made (begun s) = (refl, off, s.waiting, refl) in
    elim (Bool-cases (is_aborted (some s.made) s)) [
      | inl stopped ↦ rw (stopped) fresh
      | inr goes ↦ rw (goes) (begin_chains-Begun s.made chains (begun s) fresh)
    ]

start-Begun : (chains : List ℕ) (s : Polling) → s.timer ≡ none → Begun s.made (start chains s)
start-Begun chains s off =
    subst (λ timer. Begun s.made (start_unless timer chains s)) (sym off)
      (start_new-Begun chains s off)

-- A timer that is set after its controller was aborted.
Stuck : List ℕ → Polling → Type 0
Stuck others t =
    (timer : ℕ) × (t.timer ≡ some timer) × (tick timer others t ≡ t) × (start others t ≡ t)

tick_with_aborted :
    (c : ℕ) (others : List ℕ) (t : Polling)
    → is_aborted (some c) t ≡ true
    → tick_with (some c) others t ≡ t
tick_with_aborted c others t stopped = elim (Bool-cases (is_idle t.running)) [
  | inl idle ↦ rw (idle, stopped) refl
  | inr busy ↦ rw (busy) refl
]

set_timer-Stuck :
    (c : ℕ) (others : List ℕ) (s : Polling) → Begun c s → Stuck others (set_timer c (stop s))
unfolding Stuck
set_timer-Stuck c others s (controller, off, ws, waits) =
    let self = (==_iff c c).1 refl in
    rw (controller, off, waits, self)
      (
        s.made,
        refl,
        rw (lookup-insert_self s.made c s.intervals)
            (tick_with_aborted c others _ (ground (arith, self))),
        refl,
      )

-- A `stop` while the first pass of a `start` runs does not stop the engine: when the pass ends, the
-- timer is set all the same, with the aborted controller. From then on the timer begins no pass over
-- any chain, and a later `start` does nothing.
pub stop-start :
    (chains others : List ℕ) (s : Polling)
    → s.timer ≡ none
    → let t = set_timer s.made (stop (start chains s)) in
      (timer : ℕ) × (t.timer ≡ some timer) × (tick timer others t ≡ t) × (start others t ≡ t)
unfolding Stuck
stop-start chains others s off =
    set_timer-Stuck s.made others (start chains s) (start-Begun chains s off)
