-- ===== src/Breaker/Recovery.antt =====
-- internal/core/circuit_breaker.go: opening after consecutive failures, and the way back to closed
-- by successful probes.
use sampmail.Prelude.{
  ℕ, zero, suc, ◌+◌, ◌-◌, ◌≤◌, ◌<◌, ◌≡◌, true, false, none, arith, leb, le-or-lt, inl, inr,
  if◌then◌else◌,
}
use sampmail.Breaker.{
  circuit_closed, circuit_open, circuit_half_open, Breaker, Err, record_result, execute,
}

-- `n` failed results in a row.
pub fail_times : ℕ → ℕ → Breaker → Breaker
fail_times zero now cb = cb
fail_times (suc n) now cb = fail_times n now (record_result now true cb)

open_stays :
    (n now : ℕ) (cb : Breaker)
    → cb.state ≡ circuit_open
    → (fail_times n now cb).state ≡ circuit_open
unfolding fail_times record_result
open_stays zero now cb h = h
open_stays (suc n) now cb h = open_stays n now (record_result now true cb) (ground arith)

fail_once :
    (now : ℕ) (cb : Breaker)
    → cb.state ≡ circuit_closed
    → ((record_result now true cb).state
        ≡ (if leb cb.max_failures (cb.failures + 1) then circuit_open else circuit_closed))
      × ((record_result now true cb).failures ≡ cb.failures + 1)
      × ((record_result now true cb).config ≡ cb.config)
unfolding record_result
fail_once now cb h = ground arith

-- From a closed breaker with `f` failures counted, `n` failures in a row (one at least) leave it open
-- exactly when `f + n` reaches `MaxFailures`; else it stays closed.
pub fail_times-opens :
    (n now : ℕ) (cb : Breaker)
    → cb.state ≡ circuit_closed
    → (fail_times (suc n) now cb).state
      ≡ (if leb cb.max_failures (cb.failures + suc n) then circuit_open else circuit_closed)
unfolding fail_times
fail_times-opens zero now cb h = ground (arith, fail_once now cb h)
fail_times-opens (suc n) now cb h = ground (
  arith,
  fail_once now cb h,
  fail_times-opens n now (record_result now true cb),
  open_stays (suc n) now (record_result now true cb),
)

-- A successful result of a closed breaker forgets its failures, so only failures in a row open it.
pub success_resets :
    (n now : ℕ) (cb : Breaker)
    → cb.state ≡ circuit_closed
    → n < cb.max_failures
    → (fail_times n now (record_result now false cb)).state ≡ circuit_closed
unfolding record_result fail_times
success_resets zero now cb h m = ground arith
success_resets (suc n) now cb h m =
    ground (arith, fail_times-opens n now (record cb { failures = 0 }))

-- `n` calls of `Execute` in a row whose function succeeds; the world counts the runs of the function.
pub succeed_times : ℕ → ℕ → Breaker → ℕ → Breaker × ℕ
succeed_times zero now cb w = (cb, w)
succeed_times (suc n) now cb w =
    let (cb', w', result) = execute {E = Err} (λ (v : ℕ). (v + 1, none)) now now cb w in
    succeed_times n now cb' w'

abbrev pub after_probe : ℕ → Breaker → ℕ → Breaker × ℕ
after_probe now cb w =
    let (cb', w', result) = execute {E = Err} (λ (v : ℕ). (v + 1, none)) now now cb w in (cb', w')

probe_more :
    (now : ℕ) (cb : Breaker) (w : ℕ)
    → cb.state ≡ circuit_half_open
    → cb.half_open_calls < cb.half_open_max_calls
    → cb.successes + 1 < cb.success_threshold
    → after_probe now cb w ≡ (
      record cb { half_open_calls = cb.half_open_calls + 1; successes = cb.successes + 1 },
      w + 1,
    )
unfolding execute record_result
probe_more now cb w h c t = ground arith

probe_last :
    (now : ℕ) (cb : Breaker) (w : ℕ)
    → cb.state ≡ circuit_half_open
    → cb.half_open_calls < cb.half_open_max_calls
    → cb.success_threshold ≤ cb.successes + 1
    → ((after_probe now cb w).0.state ≡ circuit_closed)
      × ((after_probe now cb w).0.failures ≡ 0)
      × ((after_probe now cb w).1 ≡ w + 1)
unfolding execute record_result
probe_last now cb w h c t = ground arith

abbrev pub HasRecovered : ℕ → Breaker × ℕ → Type 0
HasRecovered runs (cb, w) = (cb.state ≡ circuit_closed) × (cb.failures ≡ 0) × (w ≡ runs)

half_open_recovers :
    (n now : ℕ) (cb : Breaker) (w : ℕ)
    → cb.state ≡ circuit_half_open
    → cb.successes + suc n ≡ cb.success_threshold
    → cb.half_open_calls + suc n ≤ cb.half_open_max_calls
    → HasRecovered (w + suc n) (succeed_times (suc n) now cb w)
unfolding succeed_times
half_open_recovers zero now cb w h t c =
    ground (arith, probe_last now cb w h (omega arith) (omega arith))
half_open_recovers (suc n) now cb w h t c = ground (
  arith,
  probe_more now cb w h (omega arith) (omega arith),
  half_open_recovers n now (after_probe now cb w).0 (w + 1),
)

first_probe :
    (now : ℕ) (cb : Breaker) (w : ℕ)
    → cb.state ≡ circuit_open
    → cb.reset_timeout < now - cb.last_failure
    → ((after_probe now cb w).0.state
        ≡ (if leb cb.success_threshold 1 then circuit_closed else circuit_half_open))
      × ((after_probe now cb w).0.successes ≡ 1)
      × ((after_probe now cb w).0.half_open_calls ≡ 0)
      × ((after_probe now cb w).0.config ≡ cb.config)
      × ((after_probe now cb w).1 ≡ w + 1)
unfolding execute record_result
first_probe now cb w h t = ground arith

first_probe_closes :
    (now : ℕ) (cb : Breaker) (w : ℕ)
    → cb.state ≡ circuit_open
    → cb.reset_timeout < now - cb.last_failure
    → cb.success_threshold ≤ 1
    → HasRecovered (w + 1) (after_probe now cb w)
unfolding execute record_result
first_probe_closes now cb w h t c = ground arith

-- Once an open breaker's reset timeout has passed, as many calls of `Execute` in a row as the success
-- threshold (one at least) whose function succeeds close the breaker, with the failures at 0 and the
-- function run each time, if the threshold is at most `HalfOpenMaxCalls + 1`.
pub open_recovers :
    (n now : ℕ) (cb : Breaker) (w : ℕ)
    → cb.state ≡ circuit_open
    → cb.reset_timeout < now - cb.last_failure
    → cb.success_threshold ≡ suc n
    → n ≤ cb.half_open_max_calls
    → HasRecovered (w + suc n) (succeed_times (suc n) now cb w)
unfolding succeed_times
open_recovers zero now cb w h t c m = ground (arith, first_probe_closes now cb w h t (omega arith))
open_recovers (suc n) now cb w h t c m = ground (
  arith,
  first_probe now cb w h t,
  half_open_recovers n now (after_probe now cb w).0 (after_probe now cb w).1,
)

probe_refused :
    (now : ℕ) (cb : Breaker) (w : ℕ)
    → cb.state ≡ circuit_half_open
    → cb.half_open_max_calls ≤ cb.half_open_calls
    → after_probe now cb w ≡ (cb, w)
unfolding execute
probe_refused now cb w h c = ground arith

half_open_stays :
    (n now : ℕ) (cb : Breaker) (w : ℕ)
    → cb.state ≡ circuit_half_open
    → cb.half_open_calls ≤ cb.half_open_max_calls
    → cb.successes + cb.half_open_max_calls < cb.success_threshold + cb.half_open_calls
    → (succeed_times n now cb w).0.state ≡ circuit_half_open
unfolding succeed_times
half_open_stays zero now cb w h c t = h
half_open_stays (suc n) now cb w h c t = elim (le-or-lt cb.half_open_max_calls cb.half_open_calls) [
  | inl full ↦ ground (arith, probe_refused now cb w h full, half_open_stays n now cb w h c t)
  | inr room ↦ ground (
    arith,
    probe_more now cb w h room (omega arith),
    half_open_stays n now (after_probe now cb w).0 (w + 1),
  )
]

-- With a success threshold above `HalfOpenMaxCalls + 1` an open breaker never closes again, however
-- many calls in a row would succeed.
pub open_never_closes :
    (n now : ℕ) (cb : Breaker) (w : ℕ)
    → cb.state ≡ circuit_open
    → cb.reset_timeout < now - cb.last_failure
    → cb.half_open_max_calls + 1 < cb.success_threshold
    → (succeed_times (suc n) now cb w).0.state ≡ circuit_half_open
unfolding succeed_times
open_never_closes n now cb w h t c = ground (
  arith,
  first_probe now cb w h t,
  half_open_stays n now (after_probe now cb w).0 (after_probe now cb w).1,
)
