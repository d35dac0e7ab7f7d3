-- ===== src/Limiter/Window/Quota.antt =====
-- internal/core/domain_limiter.go: how many sends a window allows.
use sampmail.Prelude.{
  ℕ, ◌+◌, ◌-◌, ◌*◌, ◌/◌, ◌≤◌, ◌<◌, ◌≡◌, refl, ap, true, false, List, [], ◌∷◌, Text, arith, max,
  if◌then◌else◌, Option-cases, Bool-cases, All, ◌⊎◌, inl, inr,
}
use sampmail.Limiter.{Limit}
use sampmail.Limiter.Window.{
  Redis, Instant, Answer, yes_send, minute_key, hour_key, day_key, check_window, allow_all,
  check_limit, nanos,
}

module _ (rd : Redis) where
  open rd use {Db, incr, expire, count, incr-count, incr-grows, expire-count}

  abbrev Grows : (Db → Db × Answer) → Type 0
  Grows f = (j : Text) (db : Db) → count j db ≤ count j (f db).0

  check_window-Grows :
      (key : Text) (life limit wait : ℕ) (next : Db → Db × Answer)
      → Grows next
      → Grows (check_window rd key life limit wait next)
  unfolding check_window
  check_window-Grows key life limit wait next g j db = ground (
    arith,
    incr-grows key j db,
    expire-count key j life (incr key db).0,
    g j (expire key life (incr key db).0),
  )

  -- An allowed send is counted under the key, and the count was below the limit; what follows allowed
  -- it too.
  record Passes (key : Text) (limit : ℕ) (next : Db → Db × Answer) (db db' : Db) : Type 0 where
    below : count key db < limit
    counted : count key db < count key db'
    middle : Db
    passed : next middle ≡ (db', yes_send)
    grown : (j : Text) → count j db ≤ count j middle

  check_window-Passes :
      (key : Text) (life limit wait : ℕ) (next : Db → Db × Answer) (db db' : Db)
      → Grows next
      → check_window rd key life limit wait next db ≡ (db', yes_send)
      → Passes key limit next db db'
  unfolding check_window
  check_window-Passes key life limit wait next db db' g e = elim (Option-cases (incr key db).1) [
    | inl none_ ↦ absurd (ground arith)
    | inr (n, some_) ↦ record {
      below = ground (arith, incr-count key db n some_);
      counted = ground (
        arith,
        incr-count key db n some_,
        expire-count key key life (incr key db).0,
        g key (expire key life (incr key db).0),
      );
      middle = expire key life (incr key db).0;
      passed = ground arith;
      grown = λ j. ground (arith, incr-grows key j db, expire-count key j life (incr key db).0);
    }
  ]

  module _ {F : Type 0} (domain : Text) (limit : Limit F) where
    abbrev day_window : Instant → ℕ → Db → Db × Answer
    day_window now later =
        check_window rd (day_key domain now) (nanos 172800) limit.max_per_day (now.midnight - later)
          (allow_all rd)

    abbrev hour_window : Instant → ℕ → Db → Db × Answer
    hour_window now later =
        check_window rd (hour_key domain now) (nanos 7200) limit.max_per_hour
          (nanos ((now.unix / 3600 + 1) * 3600) - later) (day_window now later)

    day-Grows : (now : Instant) (later : ℕ) → Grows (day_window now later)
    day-Grows now later = check_window-Grows _ _ _ _ (allow_all rd) (λ j db. omega arith)

    hour-Grows : (now : Instant) (later : ℕ) → Grows (hour_window now later)
    hour-Grows now later = check_window-Grows _ _ _ _ (day_window now later) (day-Grows now later)

    check_limit-Grows : (now : Instant) (later : ℕ) → Grows (check_limit rd domain limit now later)
    unfolding check_limit
    check_limit-Grows now later =
        check_window-Grows _ _ _ _ (hour_window now later) (hour-Grows now later)

    -- The counts of the three windows: what an allowed send adds to each, and what bounds it.
    abbrev pub Counted : Text → ℕ → Db → Db → Type 0
    Counted key cap db db' = (count key db < cap) × (count key db < count key db')

    -- A send that `checkLimit` allows without an error has been counted in the minute, the hour and
    -- the day of the clock, and in each the count before it was below the limit.
    pub check_limit-Counted :
        (now : Instant) (later : ℕ) (db db' : Db)
        → check_limit rd domain limit now later db ≡ (db', yes_send)
        → Counted (minute_key domain now) limit.max_per_minute db db'
          × Counted (hour_key domain now) limit.max_per_hour db db'
          × Counted (day_key domain now) limit.max_per_day db db'
    unfolding check_limit
    check_limit-Counted now later db db' e =
        let m =
          check_window-Passes _ _ _ _ (hour_window now later) db db' (hour-Grows now later) e in
        let h =
          check_window-Passes _ _ _ _ (day_window now later) m.middle db' (day-Grows now later)
            m.passed in
        let d =
          check_window-Passes _ _ _ _ (allow_all rd) h.middle db' (λ j x. omega arith) h.passed in
        let hk = hour_key domain now in
        let dk = day_key domain now in
        (
          (m.below, m.counted),
          (omega (arith, h.below, m.grown hk), omega (arith, h.counted, m.grown hk)),
          (
            omega (arith, d.below, m.grown dk, h.grown dk),
            omega (arith, d.counted, m.grown dk, h.grown dk),
          ),
        )

    -- A sequence of calls at the given clock readings, and how many were allowed without an error.
    abbrev is_yes : Answer → ℕ
    is_yes a = if a.allowed then if a.failed then 0 else 1 else 0

    pub count_allowed : List (Instant × ℕ) → Db → Db × ℕ
    count_allowed [] db = (db, 0)
    count_allowed ((now, later) ∷ rest) db =
        let (db1, answer) = check_limit rd domain limit now later db in
        let (db2, n) = count_allowed rest db1 in (db2, is_yes answer + n)

    -- An answer that allows a send without an error has no wait.
    abbrev Honest : (Db → Db × Answer) → Type 0
    Honest f = (db : Db) → (f db).1.allowed ≡ true → (f db).1.failed ≡ false → (f db).1 ≡ yes_send

    check_window-Honest :
        (key : Text) (life cap wait : ℕ) (next : Db → Db × Answer)
        → Honest next
        → Honest (check_window rd key life cap wait next)
    unfolding check_window
    check_window-Honest key life cap wait next g db a f =
        ground (arith, g (expire key life (incr key db).0))

    check_limit-Honest :
        (now : Instant) (later : ℕ) → Honest (check_limit rd domain limit now later)
    unfolding check_limit
    check_limit-Honest now later = check_window-Honest _ _ _ _ (hour_window now later) (
        check_window-Honest _ _ _ _ (day_window now later)
          (check_window-Honest _ _ _ _ (allow_all rd) (λ db a f. refl)))

    abbrev Bounds : Text → ℕ → Instant × ℕ → Type 0
    Bounds key cap (now, later) =
        (db db' : Db)
        → check_limit rd domain limit now later db ≡ (db', yes_send)
        → Counted key cap db db'

    one_call :
        (key : Text) (cap : ℕ) (now : Instant) (later : ℕ) (db : Db)
        → Bounds key cap (now, later)
        → let r = check_limit rd domain limit now later db in
          (is_yes r.1 ≡ 0) × (count key db ≤ count key r.0)
          ⊎ (is_yes r.1 ≡ 1) × Counted key cap db r.0
    one_call key cap now later db b =
        let r = check_limit rd domain limit now later db in
        elim (Bool-cases r.1.allowed) [
          | inl a ↦ elim (Bool-cases r.1.failed) [
            | inl f ↦ inl (rw (a, f) refl, check_limit-Grows now later key db)
            | inr f ↦ inr (
              rw (a, f) refl,
              b db r.0 (ap (λ x. (r.0, x)) (check_limit-Honest now later db a f)),
            )
          ]
          | inr a ↦ inl (rw a refl, check_limit-Grows now later key db)
        ]

    quota :
        (key : Text) (cap : ℕ) (calls : List (Instant × ℕ)) (db : Db)
        → All (Bounds key cap) calls
        → count key db + (count_allowed calls db).1 ≤ max (count key db) cap
    unfolding count_allowed
    quota key cap [] db h = omega arith
    quota key cap ((now, later) ∷ rest) db h = ground (
      arith,
      one_call key cap now later db h.0,
      quota key cap rest (check_limit rd domain limit now later db).0 h.1,
    )

    pub data Window : Type 0 where
      minute hour day : Window

    abbrev pub key_of : Window → Instant → Text
    key_of minute now = minute_key domain now
    key_of hour now = hour_key domain now
    key_of day now = day_key domain now

    abbrev pub cap_of : Window → ℕ
    cap_of minute = limit.max_per_minute
    cap_of hour = limit.max_per_hour
    cap_of day = limit.max_per_day

    call_Bounds :
        (w : Window) (key : Text) (c : Instant × ℕ) → key_of w c.0 ≡ key → Bounds key (cap_of w) c
    call_Bounds minute key (now, later) e db db' r =
        rw (← e) (check_limit-Counted now later db db' r).0
    call_Bounds hour key (now, later) e db db' r =
        rw (← e) (check_limit-Counted now later db db' r).1
    call_Bounds day key (now, later) e db db' r =
        rw (← e) (check_limit-Counted now later db db' r).2

    calls_Bounds :
        (w : Window) (key : Text) (calls : List (Instant × ℕ))
        → All (λ c. key_of w c.0 ≡ key) calls
        → All (Bounds key (cap_of w)) calls
    calls_Bounds w key [] h = tt
    calls_Bounds w key (c ∷ rest) h = (call_Bounds w key c h.0, calls_Bounds w key rest h.1)

    -- Of any sequence of calls of `checkLimit` for a domain whose clock readings fall into one window
    -- (the same minute, hour or day, and so the same key), those allowed without an error, together
    -- with what the window had counted before, come to at most the window's limit, or to that earlier
    -- count where it is above the limit. Redis may fail at any call.
    pub window_quota :
        (w : Window) (key : Text) (calls : List (Instant × ℕ)) (db : Db)
        → All (λ c. key_of w c.0 ≡ key) calls
        → count key db + (count_allowed calls db).1 ≤ max (count key db) (cap_of w)
    window_quota w key calls db h = quota key (cap_of w) calls db (calls_Bounds w key calls h)
