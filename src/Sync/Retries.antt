-- ===== src/Sync/Retries.antt =====
-- src/sync/syncEngine.ts: `withRetries` and `shouldRetry`. The answers of the entry service are a
-- function of the number of requests that were made before; so are the tests of the abort signals.
use mathlib.Core.Path.{subst}
use ocash_sdk.Prelude.{
  ℕ, zero, suc, ◌+◌, ◌≤◌, ◌<◌, ◌≡◌, ◌⊎◌, sym, refl, Bool, true, false, ◌||◌, not, ◌==◌, ==_iff,
  List, [], ◌∷◌, All, leb, Bool-cases, inl, inr, arith,
}
use ocash_sdk.Prelude.Results.{Result, ok, err, Result-cases}
use ocash_sdk.Sync.Options.{Retry, retry_delay}

-- What a call throws: an `SdkError` whose detail has an HTTP status, one without, or anything else.
pub data Thrown : Type 0 where
  http_status : ℕ → Thrown
  sdk_error other_error : Thrown

unfoldable pub should_retry : Thrown → Bool
should_retry (http_status status) = status == 429 || leb 500 status
should_retry sdk_error = false
should_retry other_error = true

-- What `withRetries` throws.
pub data RetryError : Type 0 where
  aborted nothing_tried : RetryError
  failed : Thrown → RetryError

-- `is_aborted n` is `signal.aborted` at an attempt after `n` requests, and `abort_waiting n` says that the
-- signal aborts the wait after `n` requests.
pub record Signals : Type 0 where
  pub is_aborted : ℕ → Bool
  pub abort_waiting : ℕ → Bool

-- The number of requests made, the delays of the retries, and the answer.
pub record Attempts (A : Type 0) : Type 0 where
  pub requests : ℕ
  pub delays : List ℕ
  pub answer : Result RetryError A

module _ {A : Type 0} (retry : Retry) (signals : Signals) (ask : ℕ → Result Thrown A) where
  abbrev pub settled : ℕ → Result RetryError A → Attempts A
  settled n answer = record { requests = n; delays = []; answer = answer }

  abbrev pub delayed : ℕ → Attempts A → Attempts A
  delayed delay rest = record rest { delays = delay ∷ rest.delays }

  -- The `for` from `attempt`, with `left` attempts to go, after `n` requests.
  unfoldable pub try_from : ℕ → ℕ → ℕ → Attempts A
  try_from zero attempt n = settled n (err nothing_tried)
  try_from (suc left) attempt n = elim (signals.is_aborted n) [
    | true ↦ settled n (err aborted)
    | false ↦ elim (ask n) [
      | ok answer ↦ settled (n + 1) (ok answer)
      | err e ↦ elim (not (should_retry e) || left == 0) [
        | true ↦ settled (n + 1) (err (failed e))
        | false ↦ elim (signals.abort_waiting (n + 1)) [
          | true ↦ delayed (retry_delay retry attempt) (settled (n + 1) (err aborted))
          | false ↦ delayed (retry_delay retry attempt) (try_from left (attempt + 1) (n + 1))
        ]
      ]
    ]
  ]

  abbrev pub with_retries : ℕ → Attempts A
  with_retries n = try_from retry.attempts 1 n

  -- The request after `n` others failed in a way that is worth another attempt.
  abbrev pub FailsTransiently : ℕ → Type 0
  FailsTransiently n = (e : Thrown) × (ask n ≡ err e) × (should_retry e ≡ true)

  -- Where the answer comes from: the last request, or a signal.
  abbrev pub Explained : ℕ → Result RetryError A → Type 0
  Explained n (ok a) = (last : ℕ) × (n ≡ last + 1) × (ask last ≡ ok a)
  Explained n (err (failed e)) = (last : ℕ) × (n ≡ last + 1) × (ask last ≡ err e)
  Explained n (err aborted) = (signals.is_aborted n ≡ true) ⊎ (signals.abort_waiting n ≡ true)
  Explained n (err nothing_tried) = ⊥

  abbrev pub Tried : ℕ → ℕ → Attempts A → Type 0
  Tried left n r =
      (n ≤ r.requests)
      × (r.requests ≤ n + left)
      × Explained r.requests r.answer
      × ((i : ℕ) → n ≤ i → i + 1 < r.requests → FailsTransiently i)
      × All (λ (delay : ℕ). delay ≤ retry.max_delay_ms) r.delays

  Tried-delayed :
      (left attempt n : ℕ) (rest : Attempts A)
      → FailsTransiently n
      → Tried left (n + 1) rest
      → Tried (suc left) n (delayed (retry_delay retry attempt) rest)
  Tried-delayed left attempt n rest here (a, b, c, d, e) = (
    omega arith,
    omega arith,
    c,
    λ i low high. elim (Bool-cases (i == n)) [
      | inl same ↦ subst FailsTransiently (sym ((==_iff i n).0 same)) here
      | inr other ↦ d i (ground arith) high
    ],
    (omega arith, e),
  )

  try_from-Tried : (left attempt n : ℕ) → 1 ≤ left → Tried left n (try_from left attempt n)
  unfolding try_from
  try_from-Tried zero attempt n h = absurd (omega arith)
  try_from-Tried (suc left) attempt n h = elim (Bool-cases (signals.is_aborted n)) [
    | inl stop ↦
        rw (stop, try_from)
          (omega arith, omega arith, inl stop, λ i low high. absurd (omega arith), tt)
    | inr go ↦ elim (Result-cases (ask n)) [
      | inl (answer, found) ↦
          rw (go, found, try_from)
            (omega arith, omega arith, (n, refl, found), λ i low high. absurd (omega arith), tt)
      | inr (e, fails) ↦ elim (Bool-cases (not (should_retry e) || left == 0)) [
        | inl last ↦
            rw (go, fails, last, try_from)
              (omega arith, omega arith, (n, refl, fails), λ i low high. absurd (omega arith), tt)
        | inr again ↦ elim (Bool-cases (signals.abort_waiting (n + 1))) [
          | inl stop ↦
              rw (go, fails, again, stop, try_from)
                (
                  omega arith,
                  omega arith,
                  inr stop,
                  λ i low high. absurd (omega arith),
                  (omega arith, tt),
                )
          | inr wait ↦
              rw (go, fails, again, wait, try_from)
                (Tried-delayed left attempt n (try_from left (attempt + 1) (n + 1))
                  (e, fails, ground arith)
                  (try_from-Tried left (attempt + 1) (n + 1) (ground arith)))
        ]
      ]
    ]
  ]

  -- With at least one attempt, `withRetries` makes at most `attempts` requests. An answer, and an error
  -- that is not an abort, is that of the last request, and every request before it failed with an
  -- error worth a retry. No delay is above `maxDelayMs`. An abort comes from a signal.
  pub with_retries-Tried : (n : ℕ) → 1 ≤ retry.attempts → Tried retry.attempts n (with_retries n)
  with_retries-Tried n h = try_from-Tried retry.attempts 1 n h

  -- A first request that is answered is the only one.
  pub try_from_answers :
      (left attempt n : ℕ) (answer : A)
      → 1 ≤ left
      → signals.is_aborted n ≡ false
      → ask n ≡ ok answer
      → (try_from left attempt n).answer ≡ ok answer
  unfolding try_from
  try_from_answers zero attempt n answer h go found = absurd (omega arith)
  try_from_answers (suc left) attempt n answer h go found = rw (go, found, try_from) refl
