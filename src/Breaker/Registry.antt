-- ===== src/Breaker/Registry.antt =====
-- internal/core/circuit_breaker.go: the registry of breakers by name, and the breakers of the
-- external services.
-- `map[string]*CircuitBreaker` holds pointers: `heap` is the list of the breakers made so far, and a
-- pointer is a position in it.
use text.Mathlib.Text.{◌==◌ as str_eq}
use text.Mathlib.TextEquality.{eq_iff}
use sampmail.Prelude.{
  ℕ, ◌*◌, ◌<◌, ◌≡◌, refl, Bool, false, none, some, List, [], ◌∷◌, ◌++◌, String, arith, Eq, length,
  length-append, get_elem?, get_elem?-append, get_elem?-append_last, inl, inr, Option-cases,
}
use sampmail.Prelude.Map
use sampmail.Prelude.Map.{map_laws, lookup-insert}
use sampmail.Breaker.{Config, Breaker, new_breaker, default_config, second}

instance abbrev pub string_eq : Eq String
string_eq = record { same_iff = eq_iff; same = str_eq }

pub record Registry : Type 0 where
  pub heap : List Breaker
  pub breakers : List (String × ℕ)

abbrev pub empty : Registry
empty = record { heap = []; breakers = [] }

add : String → Config → ℕ → Registry → Registry × ℕ
add key c now r = (
  record {
    heap = r.heap ++ new_breaker (some c) now ∷ [];
    breakers = Map.insert key (length r.heap) r.breakers;
  },
  length r.heap,
)

-- The second half, under the write lock: the lookup is made again.
get_locked : String → ℕ → Registry → Registry × ℕ
unfolding add
get_locked name now r = elim (Map.lookup name r.breakers) [
  | some p ↦ (r, p)
  | none ↦ add name (default_config name) now r
]

-- GetCircuitBreaker. The read lock is given up before the write lock is taken: `others` is what the
-- other goroutines do to the registry in between.
unfoldable pub get_circuit_breaker : (Registry → Registry) → String → ℕ → Registry → Registry × ℕ
unfolding get_locked
get_circuit_breaker others name now r = elim (Map.lookup name r.breakers) [
  | some p ↦ (r, p)
  | none ↦ get_locked name now (others r)
]

-- RegisterCircuitBreaker
unfoldable pub register : Config → ℕ → Registry → Registry × ℕ
unfolding add
register c now r = add c.name c now r

-- InitCircuitBreakers: the three configurations, and the three registrations in order.
abbrev pub smtp_config : Bool → Config
smtp_config notifies = record {
  name = "smtp";
  max_failures = 10;
  reset_timeout = 60 * second;
  half_open_max_calls = 5;
  success_threshold = 3;
  notifies = notifies;
}

abbrev pub reacher_config : Bool → Config
reacher_config notifies = record {
  name = "reacher";
  max_failures = 5;
  reset_timeout = 30 * second;
  half_open_max_calls = 3;
  success_threshold = 2;
  notifies = notifies;
}

abbrev pub webhook_config : Bool → Config
webhook_config notifies = record {
  name = "webhook";
  max_failures = 3;
  reset_timeout = 60 * second;
  half_open_max_calls = 2;
  success_threshold = 2;
  notifies = notifies;
}

pub record Services : Type 0 where
  pub smtp : ℕ
  pub reacher : ℕ
  pub webhook : ℕ

unfoldable pub init_circuit_breakers : Bool → ℕ → Registry → Registry × Services
unfolding register
init_circuit_breakers notifies now r =
    let (r1, smtp) = register (smtp_config notifies) now r in
    let (r2, reacher) = register (reacher_config notifies) now r1 in
    let (r3, webhook) = register (webhook_config notifies) now r2 in
    (r3, record { smtp = smtp; reacher = reacher; webhook = webhook })

-- A registered name leads to a breaker.
pub record IsSound (r : Registry) : Type 0 where
  pub points : (name : String) (p : ℕ) → Map.lookup name r.breakers ≡ some p → p < length r.heap

add-IsSound :
    (key : String) (c : Config) (now : ℕ) (r : Registry) → IsSound r → IsSound (add key c now r).0
unfolding add
add-IsSound key c now r h = record {
  points = λ name p e. ground (
    arith,
    lookup-insert key name (length r.heap) r.breakers,
    h.points name p,
    length-append r.heap (new_breaker (some c) now ∷ []),
  );
}

pub register-IsSound :
    (c : Config) (now : ℕ) (r : Registry) → IsSound r → IsSound (register c now r).0
unfolding register
register-IsSound c now r h = add-IsSound c.name c now r h

get_locked-IsSound :
    (name : String) (now : ℕ) (r : Registry) → IsSound r → IsSound (get_locked name now r).0
unfolding get_locked
get_locked-IsSound name now r h = elim (Option-cases (Map.lookup name r.breakers)) [
  | inl e ↦ rw (e, get_locked) (add-IsSound name (default_config name) now r h)
  | inr (p, e) ↦ rw (e, get_locked) h
]

-- Looking a breaker up keeps every registered name on a breaker that exists, if what the other
-- goroutines do between the two locks does.
pub get_circuit_breaker-IsSound :
    (others : Registry → Registry) (name : String) (now : ℕ) (r : Registry)
    → IsSound r
    → IsSound (others r)
    → IsSound (get_circuit_breaker others name now r).0
unfolding get_circuit_breaker
get_circuit_breaker-IsSound others name now r h k =
    elim (Option-cases (Map.lookup name r.breakers)) [
      | inl e ↦ rw (e, get_circuit_breaker) (get_locked-IsSound name now (others r) k)
      | inr (p, e) ↦ rw (e, get_circuit_breaker) h
    ]

get_locked-lookup :
    (name : String) (now : ℕ) (r : Registry)
    → Map.lookup name (get_locked name now r).0.breakers ≡ some (get_locked name now r).1
unfolding get_locked add
get_locked-lookup name now r =
    ground (arith, lookup-insert name name (length r.heap) r.breakers, eq_iff name name)

get-lookup :
    (others : Registry → Registry) (name : String) (now : ℕ) (r : Registry)
    → Map.lookup name (get_circuit_breaker others name now r).0.breakers
      ≡ some (get_circuit_breaker others name now r).1
unfolding get_circuit_breaker
get-lookup others name now r = ground (arith, get_locked-lookup name now (others r))

get_of_lookup :
    (others : Registry → Registry) (name : String) (now : ℕ) (r : Registry) (p : ℕ)
    → Map.lookup name r.breakers ≡ some p
    → get_circuit_breaker others name now r ≡ (r, p)
unfolding get_circuit_breaker
get_of_lookup others name now r p e = rw (e, get_circuit_breaker)

-- Whatever other goroutines do between the two locks, two lookups of one name in a row give the same
-- breaker, and the second makes none.
pub get_circuit_breaker_again :
    (others others' : Registry → Registry) (name : String) (now later : ℕ) (r : Registry)
    → let (r1, p) = get_circuit_breaker others name now r in
      get_circuit_breaker others' name later r1 ≡ (r1, p)
get_circuit_breaker_again others others' name now later r =
    get_of_lookup others' name later (get_circuit_breaker others name now r).0
      (get_circuit_breaker others name now r).1 (get-lookup others name now r)

-- `name` is registered, for the breaker `cb`.
abbrev pub Holds : Registry → String → Breaker → Type 0
Holds r name cb = (p : ℕ) × (Map.lookup name r.breakers ≡ some p) × (get_elem? r.heap p ≡ some cb)

register-Holds :
    (c : Config) (now : ℕ) (r : Registry)
    → Holds (register c now r).0 c.name (new_breaker (some c) now)
unfolding register
register-Holds c now r = (
  length r.heap,
  ground (arith, lookup-insert c.name c.name (length r.heap) r.breakers, eq_iff c.name c.name),
  get_elem?-append_last r.heap (new_breaker (some c) now),
)

register-Holds_ne :
    (c : Config) (now : ℕ) (r : Registry) (name : String) {cb : Breaker}
    → str_eq c.name name ≡ false
    → Holds r name cb
    → Holds (register c now r).0 name cb
unfolding register
register-Holds_ne c now r name h (p, e, g) = (
  p,
  ground (arith, lookup-insert c.name name (length r.heap) r.breakers),
  get_elem?-append r.heap (new_breaker (some c) now ∷ []) p g,
)

-- After the start the three services' names are registered, each for a new breaker with its own
-- configuration, whatever the registry held before.
pub init_circuit_breakers-Holds :
    (notifies : Bool) (now : ℕ) (r : Registry)
    → let r' = (init_circuit_breakers notifies now r).0 in
      Holds r' "smtp" (new_breaker (some (smtp_config notifies)) now)
      × Holds r' "reacher" (new_breaker (some (reacher_config notifies)) now)
      × Holds r' "webhook" (new_breaker (some (webhook_config notifies)) now)
unfolding init_circuit_breakers
init_circuit_breakers-Holds notifies now r =
    let a = smtp_config notifies in
    let b = reacher_config notifies in
    let c = webhook_config notifies in
    let r1 = (register a now r).0 in
    let r2 = (register b now r1).0 in
    (
      register-Holds_ne c now r2 "smtp" refl
          (register-Holds_ne b now r1 "smtp" refl (register-Holds a now r)),
      register-Holds_ne c now r2 "reacher" refl (register-Holds b now r1),
      register-Holds c now r2,
    )
