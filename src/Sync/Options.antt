-- ===== src/Sync/Options.antt =====
-- src/sync/syncEngine.ts: `toBoundedInt`, `normalizeSyncEngineOptions` and the delay of `withRetries`.
-- A finite number is given by its floor, which is all that the code reads.
use ocash_sdk.Prelude.{ℕ, ◌-◌, ◌*◌, ◌^◌, ◌≤◌, Option, none, some, min, max, arith}
use ocash_sdk.Prelude.Int.{ℤ, pos_part}

-- What stands where a number is expected: `not_finite` is also `undefined` and what is no number.
pub data Numeric : Type 0 where
  not_finite : Numeric
  finite : ℤ → Numeric

-- `Math.min(bounds.max ?? Infinity, n)`.
abbrev pub at_most : Option ℕ → ℕ → ℕ
at_most none n = n
at_most (some most) n = min most n

-- `pos_part` is `Math.max(0, floored)`, and `bounds.min` is never negative.
unfoldable pub to_bounded_int : Numeric → ℕ → ℕ → Option ℕ → ℕ
to_bounded_int not_finite fallback least most = fallback
to_bounded_int (finite floored) fallback least most = at_most most (max least (pos_part floored))

-- The retry fields are `none` for null and undefined.
pub record RetryOptions : Type 0 where
  pub attempts : Option Numeric
  pub base_delay_ms : Option Numeric
  pub max_delay_ms : Option Numeric

pub record SyncEngineOptions : Type 0 where
  pub page_size : Numeric
  pub poll_ms : Numeric
  pub request_timeout_ms : Numeric
  pub retry : RetryOptions

pub record Retry : Type 0 where
  pub attempts : ℕ
  pub base_delay_ms : ℕ
  pub max_delay_ms : ℕ

pub record NormalizedOptions : Type 0 where
  pub page_size : ℕ
  pub poll_ms : ℕ
  pub request_timeout_ms : ℕ
  pub retry : Retry

abbrev pub default_page_size : ℕ
default_page_size = 512

abbrev pub default_poll_ms : ℕ
default_poll_ms = 15000

abbrev pub default_request_timeout_ms : ℕ
default_request_timeout_ms = 20000

abbrev pub bounded_or : Option Numeric → ℕ → ℕ → ℕ
bounded_or none fallback least = fallback
bounded_or (some value) fallback least = to_bounded_int value fallback least none

unfoldable pub normalize_sync_engine_options : SyncEngineOptions → NormalizedOptions
normalize_sync_engine_options options = record {
  page_size = to_bounded_int options.page_size default_page_size 1 none;
  poll_ms = to_bounded_int options.poll_ms default_poll_ms 250 none;
  request_timeout_ms =
      to_bounded_int options.request_timeout_ms default_request_timeout_ms 1000 none;
  retry = record {
    attempts = bounded_or options.retry.attempts 1 1;
    base_delay_ms = bounded_or options.retry.base_delay_ms 250 0;
    max_delay_ms = bounded_or options.retry.max_delay_ms 5000 0;
  };
}

-- The delay after a failed attempt, which count from 1.
abbrev pub retry_delay : Retry → ℕ → ℕ
retry_delay r attempt = min r.max_delay_ms (r.base_delay_ms * min 32 (2 ^ (attempt - 1)))

to_bounded_int-Bounded :
    (value : Numeric) (fallback least : ℕ)
    → least ≤ fallback
    → least ≤ to_bounded_int value fallback least none
unfolding to_bounded_int
to_bounded_int-Bounded not_finite fallback least h = h
to_bounded_int-Bounded (finite n) fallback least h = omega arith

bounded_or-Bounded :
    (value : Option Numeric) (fallback least : ℕ)
    → least ≤ fallback
    → least ≤ bounded_or value fallback least
bounded_or-Bounded none fallback least h = h
bounded_or-Bounded (some v) fallback least h = to_bounded_int-Bounded v fallback least h

-- Whatever options are given, the engine asks for pages of at least one row, polls at most every
-- quarter of a second, waits at least a second for an answer, and makes at least one attempt.
pub normalize_sync_engine_options-Bounded :
    (options : SyncEngineOptions)
    → let n = normalize_sync_engine_options options in
      (1 ≤ n.page_size) × (250 ≤ n.poll_ms) × (1000 ≤ n.request_timeout_ms) × (1 ≤ n.retry.attempts)
unfolding normalize_sync_engine_options
normalize_sync_engine_options-Bounded o = (
  to_bounded_int-Bounded o.page_size default_page_size 1 (omega arith),
  to_bounded_int-Bounded o.poll_ms default_poll_ms 250 (omega arith),
  to_bounded_int-Bounded o.request_timeout_ms default_request_timeout_ms 1000 (omega arith),
  bounded_or-Bounded o.retry.attempts 1 1 (omega arith),
)
