-- ===== src/Breaker/Invariant.antt =====
-- internal/core/circuit_breaker.go: what holds of a breaker between two calls.
use sampmail.Prelude.{ℕ, ◌-◌, ◌≤◌, ◌<◌, max, ◌≡◌, ◌⊎◌, Bool, Option, none, some, arith}
use sampmail.Breaker.{
  circuit_closed, circuit_open, circuit_half_open, Config, Breaker, Err, err_circuit_open,
  err_too_many_calls, new_breaker, allow_request, record_result,
}

-- A threshold of 0 acts as 1: the counter is compared after it is raised.
pub record IsBounded (cb : Breaker) : Type 0 where
  pub failures_capped : cb.failures ≤ max 1 cb.max_failures
  pub successes_capped : cb.successes ≤ max 1 cb.success_threshold
  pub calls_capped : cb.half_open_calls ≤ cb.half_open_max_calls
  pub closed_healthy : cb.state ≡ circuit_closed → cb.failures < max 1 cb.max_failures
  pub testing : cb.state ≡ circuit_half_open → cb.successes < max 1 cb.success_threshold

pub new_breaker-IsBounded : (config : Option Config) (now : ℕ) → IsBounded (new_breaker config now)
unfolding new_breaker
new_breaker-IsBounded none now = ground arith
new_breaker-IsBounded (some c) now = ground arith

pub allow_request-IsBounded :
    (now : ℕ) (cb : Breaker) → IsBounded cb → IsBounded (allow_request now cb).0
unfolding allow_request
allow_request-IsBounded now cb h = ground arith

pub record_result-IsBounded :
    (now : ℕ) (failed : Bool) (cb : Breaker)
    → IsBounded cb
    → IsBounded (record_result now failed cb)
unfolding record_result
record_result-IsBounded now failed cb h = ground arith

-- A call is refused for being open exactly when the breaker is open and the reset timeout since the
-- last failure has not passed, and for too many calls exactly when it is half-open with all its
-- counted calls used. A refusal leaves the breaker as it was.
pub allow_request_refusals :
    (now : ℕ) (cb : Breaker) (err : Err)
    → (allow_request now cb).1 ≡ some err
    → ((allow_request now cb).0 ≡ cb)
      × ((err ≡ err_circuit_open)
            × (cb.state ≡ circuit_open)
            × (now - cb.last_failure ≤ cb.reset_timeout)
          ⊎ (err ≡ err_too_many_calls)
            × (cb.state ≡ circuit_half_open)
            × (cb.half_open_max_calls ≤ cb.half_open_calls))
unfolding allow_request
allow_request_refusals now cb err h = ground arith
