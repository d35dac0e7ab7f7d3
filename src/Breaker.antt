-- ===== src/Breaker.antt =====
-- internal/core/circuit_breaker.go: the circuit breaker. Times are nanoseconds since Go's zero time,
-- taken as an argument where the code calls `time.Now`. A method that mutates `*CircuitBreaker`
-- returns the new record. `go cfg.OnStateChange(...)` is an entry of the list `started`, the
-- callbacks that were started, the latest first. The counters are plain numbers: `IsBounded` in
-- Breaker/Invariant.antt keeps each below its threshold, so no `int` of the source wraps.
pub mod Invariant
pub mod Traces
pub mod Recovery
pub mod Registry
mod Tests
use sampmail.Prelude.{
  ℕ, ◌+◌, ◌-◌, ◌*◌, Bool, true, false, Option, none, some, List, [], ◌∷◌, String, ltb, leb,
  if◌then◌else◌,
}

pub data CircuitState : Type 0 where
  circuit_closed circuit_open circuit_half_open : CircuitState

pub same_state : CircuitState → CircuitState → Bool
same_state circuit_closed circuit_closed = true
same_state circuit_open circuit_open = true
same_state circuit_half_open circuit_half_open = true
same_state _ _ = false

-- The `String` method. The type has no fourth value, so its `default` is not reached.
pub state_string : CircuitState → String
state_string circuit_closed = "closed"
state_string circuit_open = "open"
state_string circuit_half_open = "half-open"

-- A duration is a number of nanoseconds. `notifies` says that `OnStateChange` is not nil.
pub record Config : Type 0 where
  pub name : String
  pub max_failures : ℕ
  pub reset_timeout : ℕ
  pub half_open_max_calls : ℕ
  pub success_threshold : ℕ
  pub notifies : Bool

abbrev pub second : ℕ
second = 1000000000

unfoldable pub default_config : String → Config
default_config name = record {
  name = name;
  max_failures = 5;
  reset_timeout = 30 * second;
  half_open_max_calls = 3;
  success_threshold = 2;
  notifies = false;
}

-- The arguments of one call of `OnStateChange`.
pub record Change : Type 0 where
  pub name : String
  pub from_state : CircuitState
  pub to_state : CircuitState

pub record Breaker : Type 0 where
  pub config : Config
  pub open config use *
  pub state : CircuitState
  pub failures : ℕ
  pub successes : ℕ
  pub half_open_calls : ℕ
  pub last_failure : ℕ
  pub last_state_change : ℕ
  pub started : List Change

pub data Err : Type 0 where
  err_circuit_open err_too_many_calls : Err

-- NewCircuitBreaker; `none` is a nil configuration.
unfoldable pub new_breaker : Option Config → ℕ → Breaker
unfolding default_config
new_breaker config now = record {
  config = elim config [ none ↦ default_config "default" | some c ↦ c ];
  state = circuit_closed;
  failures = 0;
  successes = 0;
  half_open_calls = 0;
  last_failure = 0;
  last_state_change = now;
  started = [];
}

unfoldable pub set_state : ℕ → CircuitState → Breaker → Breaker
unfolding same_state
set_state now to cb = if same_state cb.state to then cb else record cb {
  state = to;
  last_state_change = now;
  started =
      if cb.notifies
      then record { name = cb.name; from_state = cb.state; to_state = to } ∷ cb.started
      else cb.started;
}

-- The `switch` of `allowRequest`, on the state.
allow_in : CircuitState → ℕ → Breaker → Breaker × Option Err
unfolding set_state
allow_in circuit_closed now cb = (cb, none)
allow_in circuit_open now cb =
    if ltb cb.reset_timeout (now - cb.last_failure)
    then (record (set_state now circuit_half_open cb) { half_open_calls = 0; successes = 0 }, none)
    else (cb, some err_circuit_open)
allow_in circuit_half_open now cb =
    if leb cb.half_open_max_calls cb.half_open_calls
    then (cb, some err_too_many_calls)
    else (record cb { half_open_calls = cb.half_open_calls + 1 }, none)

unfoldable pub allow_request : ℕ → Breaker → Breaker × Option Err
unfolding allow_in
allow_request now cb = allow_in cb.state now cb

success_in : CircuitState → ℕ → Breaker → Breaker
unfolding set_state
success_in circuit_closed now cb = record cb { failures = 0 }
success_in circuit_half_open now cb =
    let cb' = record cb { successes = cb.successes + 1 } in
    if leb cb.success_threshold cb'.successes
    then record (set_state now circuit_closed cb') { failures = 0 }
    else cb'
success_in circuit_open now cb = cb

unfoldable pub record_success : ℕ → Breaker → Breaker
unfolding success_in
record_success now cb = success_in cb.state now cb

failure_in : CircuitState → ℕ → Breaker → Breaker
unfolding set_state
failure_in circuit_closed now cb =
    let cb' = record cb { failures = cb.failures + 1 } in
    if leb cb.max_failures cb'.failures then set_state now circuit_open cb' else cb'
failure_in circuit_half_open now cb = set_state now circuit_open cb
failure_in circuit_open now cb = cb

unfoldable pub record_failure : ℕ → Breaker → Breaker
unfolding failure_in
record_failure now cb = failure_in cb.state now (record cb { last_failure = now })

-- `failed` is `err != nil`.
unfoldable pub record_result : ℕ → Bool → Breaker → Breaker
unfolding record_failure record_success
record_result now failed cb = if failed then record_failure now cb else record_success now cb

-- What `Execute` returns: its own refusal, or what the function returned.
pub data Outcome (E : Type 0) : Type 0 where
  refused : Err → Outcome E
  returned : Option E → Outcome E

abbrev pub is_error {ℓ} : {E : Type ℓ} → Option E → Bool
is_error none = false
is_error (some _) = true

-- `Execute` by one caller: the call is allowed at the time `asked`, and its result is recorded at
-- the time `done`. `fn` acts on the world `W`.
module _ {W E : Type 0} (fn : W → W × Option E) where
  run_fn : ℕ → W → Breaker × Option Err → Breaker × W × Outcome E
  unfolding record_result
  run_fn done w (cb, some err) = (cb, w, refused err)
  run_fn done w (cb, none) =
      let (w', result) = fn w in (record_result done (is_error result) cb, w', returned result)

  unfoldable pub execute : ℕ → ℕ → Breaker → W → Breaker × W × Outcome E
  unfolding run_fn allow_request
  execute asked done cb w = run_fn done w (allow_request asked cb)

-- Stats
pub record Stats : Type 0 where
  pub name : String
  pub state : String
  pub failures : ℕ
  pub successes : ℕ
  pub last_failure : ℕ
  pub last_state_change : ℕ

unfoldable pub stats : Breaker → Stats
unfolding state_string
stats cb = record {
  name = cb.name;
  state = state_string cb.state;
  failures = cb.failures;
  successes = cb.successes;
  last_failure = cb.last_failure;
  last_state_change = cb.last_state_change;
}
