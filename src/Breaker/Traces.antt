-- ===== src/Breaker/Traces.antt =====
-- internal/core/circuit_breaker.go: many callers at once. Each method holds the mutex, so a run is a
-- sequence of `allowRequest` and `recordResult`, a caller between the two being in flight.
use sampmail.Prelude.{
  ℕ, ◌+◌, ◌-◌, ◌≤◌, ◌<◌, ◌≡◌, refl, Bool, Option, none, some, arith, if◌then◌else◌,
}
use sampmail.Breaker.{
  circuit_half_open, Config, Breaker, Err, same_state, new_breaker, allow_request, record_result,
}
use sampmail.Breaker.Invariant.{
  IsBounded, new_breaker-IsBounded, allow_request-IsBounded, record_result-IsBounded,
}

-- `probes` counts the calls allowed since the breaker last became half-open.
pub record System : Type 0 where
  pub breaker : Breaker
  pub in_flight : ℕ
  pub probes : ℕ

abbrev pub boot : Option Config → ℕ → System
boot config now = record { breaker = new_breaker config now; in_flight = 0; probes = 0 }

abbrev pub grant : ℕ → System → System
grant now s = record {
  breaker = (allow_request now s.breaker).0;
  in_flight = s.in_flight + 1;
  probes = if same_state s.breaker.state circuit_half_open then s.probes + 1 else 1;
}

abbrev pub report : ℕ → Bool → System → System
report now failed s = record s {
  breaker = record_result now failed s.breaker;
  in_flight = s.in_flight - 1;
}

pub data Step (s : System) (t : System) : Type 0 where
  granted : (now : ℕ) → (allow_request now s.breaker).1 ≡ none → t ≡ grant now s → Step s t
  refused : (now : ℕ) (err : Err) → (allow_request now s.breaker).1 ≡ some err → t ≡ s → Step s t
  reported : (now : ℕ) (failed : Bool) → 0 < s.in_flight → t ≡ report now failed s → Step s t

pub data Reach (s : System) : System → Type 0 where
  here : Reach s s
  next : {t u : System} → Reach s t → Step t u → Reach s u

pub record Inv (s : System) : Type 0 where
  pub bounded : IsBounded s.breaker
  pub probes_counted :
      s.breaker.state ≡ circuit_half_open → s.probes ≡ s.breaker.half_open_calls + 1

probes-grant :
    (now : ℕ) (s : System)
    → (s.breaker.state ≡ circuit_half_open → s.probes ≡ s.breaker.half_open_calls + 1)
    → (allow_request now s.breaker).1 ≡ none
    → (grant now s).breaker.state ≡ circuit_half_open
    → (grant now s).probes ≡ (grant now s).breaker.half_open_calls + 1
unfolding allow_request same_state
probes-grant now s h g e = ground arith

probes-report :
    (now : ℕ) (failed : Bool) (s : System)
    → (s.breaker.state ≡ circuit_half_open → s.probes ≡ s.breaker.half_open_calls + 1)
    → (report now failed s).breaker.state ≡ circuit_half_open
    → s.probes ≡ (report now failed s).breaker.half_open_calls + 1
unfolding record_result
probes-report now failed s h e = ground arith

grant-Inv :
    (now : ℕ) (s : System) → Inv s → (allow_request now s.breaker).1 ≡ none → Inv (grant now s)
grant-Inv now s h g = record {
  bounded = allow_request-IsBounded now s.breaker h.bounded;
  probes_counted = probes-grant now s h.probes_counted g;
}

report-Inv : (now : ℕ) (failed : Bool) (s : System) → Inv s → Inv (report now failed s)
report-Inv now failed s h = record {
  bounded = record_result-IsBounded now failed s.breaker h.bounded;
  probes_counted = probes-report now failed s h.probes_counted;
}

Step-Inv : (s t : System) → Step s t → Inv s → Inv t
Step-Inv s t (granted now g e) h = rw e (grant-Inv now s h g)
Step-Inv s t (refused now err r e) h = rw e h
Step-Inv s t (reported now failed b e) h = rw e (report-Inv now failed s h)

boot-Inv : (config : Option Config) (now : ℕ) → Inv (boot config now)
unfolding new_breaker
boot-Inv config now = record {
  bounded = new_breaker-IsBounded config now;
  probes_counted = λ e. cc;
}

pub Reach-Inv : {s t : System} → Inv s → Reach s t → Inv t
Reach-Inv h here = h
Reach-Inv h (next {t = t} {u = u} r st) = Step-Inv t u st (Reach-Inv h r)

-- Whatever callers do at once and in whatever order results come back, from a new breaker every
-- reachable state keeps its failures, successes and counted half-open calls within the thresholds,
-- a closed breaker has had fewer failures than open it, and a half-open one has had fewer successes
-- than close it.
pub Reach-IsBounded :
    (config : Option Config) (now : ℕ) (s : System)
    → Reach (boot config now) s
    → IsBounded s.breaker
Reach-IsBounded config now s r = (Reach-Inv (boot-Inv config now) r).bounded

-- Whatever callers do at once, while a breaker is half-open it has allowed at most
-- `HalfOpenMaxCalls + 1` calls since it became so: the call that made it half-open is not counted.
pub probes_capped :
    (config : Option Config) (now : ℕ) (s : System)
    → Reach (boot config now) s
    → s.breaker.state ≡ circuit_half_open
    → s.probes ≤ s.breaker.half_open_max_calls + 1
probes_capped config now s r e = omega (arith, inv.probes_counted e, inv.bounded.calls_capped)
  where
    inv : Inv s
    inv = Reach-Inv (boot-Inv config now) r

Step-stuck :
    (s t : System)
    → Step s t
    → s.in_flight ≡ 0
    → s.breaker.state ≡ circuit_half_open
    → s.breaker.half_open_max_calls ≤ s.breaker.half_open_calls
    → t ≡ s
unfolding allow_request
Step-stuck s t (granted now g e) f h m = absurd (ground arith)
Step-stuck s t (refused now err r e) f h m = e
Step-stuck s t (reported now failed b e) f h m = absurd (omega arith)

-- A half-open breaker that has used all its counted calls and has no call in flight is never left:
-- whatever is asked of it and however late, it stays as it is, and refuses.
pub half_open_stuck :
    (s t : System)
    → Reach s t
    → s.in_flight ≡ 0
    → s.breaker.state ≡ circuit_half_open
    → s.breaker.half_open_max_calls ≤ s.breaker.half_open_calls
    → t ≡ s
half_open_stuck s t here f h m = refl
half_open_stuck s u (next {t = t} r st) f h m =
    let e : t ≡ s = half_open_stuck s t r f h m in
    rw e at (Step-stuck t u st (rw e f) (rw e h) (rw e m))
