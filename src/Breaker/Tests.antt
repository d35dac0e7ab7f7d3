-- ===== src/Breaker/Tests.antt =====
-- Runs of the circuit breaker of internal/core/circuit_breaker.go on concrete calls.
use sampmail.Prelude.{◌≡◌, refl, true, false, none, some, [], ◌∷◌, arith}
use sampmail.Prelude.Map
use sampmail.Breaker.{
  circuit_closed, circuit_open, Config, Breaker, new_breaker, allow_request, record_result,
  same_state, stats,
}
use sampmail.Breaker.Invariant.{IsBounded}
use sampmail.Breaker.Traces.{
  System, boot, grant, report, Reach, here, next, granted, reported, Reach-IsBounded,
}
use sampmail.Breaker.Registry.{Registry, empty, get_circuit_breaker, smtp_config}

abbrev small : Config
small = record {
  name = "small";
  max_failures = 1;
  reset_timeout = 10;
  half_open_max_calls = 1;
  success_threshold = 3;
  notifies = true;
}

-- Open since the time 5.
abbrev tripped : Config → Breaker
tripped c = record {
  config = c;
  state = circuit_open;
  failures = 1;
  successes = 0;
  half_open_calls = 0;
  last_failure = 5;
  last_state_change = 5;
  started = [];
}

trips :
    record_result 5 true (new_breaker (some (record small { notifies = false })) 0)
    ≡ tripped (record small { notifies = false })
unfolding record_result new_breaker
trips = refl

notified :
    (record_result 5 true (new_breaker (some small) 0)).started
    ≡ record { name = "small"; from_state = circuit_closed; to_state = circuit_open } ∷ []
unfolding record_result new_breaker
notified = refl

-- One call fails, the breaker opens, and after the timeout two callers probe it at once.
abbrev s0 : System
s0 = boot (some small) 0

abbrev s1 : System
s1 = grant 1 s0

abbrev s2 : System
s2 = report 5 true s1

abbrev s3 : System
s3 = grant 16 s2

abbrev s4 : System
s4 = grant 17 s3

reach4 : Reach s0 s4
unfolding allow_request record_result new_breaker same_state
reach4 =
    next
      (next (next (next here (granted 1 refl refl)) (reported 5 true (omega arith) refl))
        (granted 16 refl refl))
      (granted 17 refl refl)

abbrev s6 : System
s6 = report 19 false (report 18 false s4)

reach6 : Reach s0 s6
unfolding allow_request record_result new_breaker same_state
reach6 =
    next (next reach4 (reported 18 false (omega arith) refl)) (reported 19 false (omega arith) refl)

Reach-IsBounded_example : IsBounded s4.breaker
Reach-IsBounded_example = Reach-IsBounded (some small) 0 s4 reach4

abbrev fresh : Breaker
fresh = new_breaker none 0

abbrev smtp_down : Breaker
smtp_down = tripped (smtp_config false)

-- Another goroutine registers the name between the two locks.
abbrev racer : Registry → Registry
racer r = (get_circuit_breaker (λ x. x) "imap" 3 r).0

race_makes_one : (get_circuit_breaker racer "imap" 4 empty).0.breakers ≡ ("imap", 0) ∷ []
unfolding get_circuit_breaker Map.lookup Map.insert
race_makes_one = refl

stats_runs : (stats smtp_down).state ≡ "open"
unfolding stats
stats_runs = refl
