-- ===== src/SmtpPool/Bounds.antt =====
-- internal/core/smtp_pool.go: how many connections the pool holds.
use sampmail.Prelude.{
  ℕ, zero, suc, ◌+◌, ◌≤◌, ◌<◌, ◌≡◌, refl, Bool, true, false, List, [], ◌∷◌, ◌++◌, nat_eq, ltb,
  ltb→lt, length, length-append, get_elem?, arith, if◌then◌else◌, Bool-cases, Option-cases, inl,
  inr,
}
use sampmail.SmtpPool.Slices.{Slice, whole, remove_conn, sweep}
use sampmail.SmtpPool.{
  Pool, remove_first, close_connection, set_conn, is_healthy, pool_closed, receive, get,
  add_connection, put, dial_idle, top_up, keeps, check_connections, close, new_pool, Step, getting,
  adding, putting, marking_bad, checking, closing, step, run,
}

-- The pool holds no more connections than its maximum, which is not below its minimum.
pub record IsBounded (max : ℕ) (p : Pool) : Type 0 where
  pub the_max : p.max_connections ≡ max
  pub ordered : p.min_connections ≤ max
  pub held : length p.connections ≤ max

remove_first-le : (id : ℕ) (cs : List ℕ) → length (remove_first id cs) ≤ length cs
unfolding remove_first
remove_first-le id [] = omega arith
remove_first-le id (c ∷ cs) = ground (arith, remove_first-le id cs)

sweep-le :
    (keep : ℕ → Bool) (rounds i : ℕ) (s : Slice) (healthy : List ℕ)
    → length (sweep keep rounds i s healthy) ≤ length healthy + rounds
unfolding sweep
sweep-le keep zero i s healthy = omega arith
sweep-le keep (suc rounds) i s healthy = elim (Option-cases (get_elem? s.array i)) [
  | inl e ↦ rw (e, sweep) (omega arith)
  | inr (c, e) ↦ elim (Bool-cases (keep c)) [
    | inl k ↦
        let ih = sweep-le keep rounds (suc i) s (healthy ++ c ∷ []) in
        rw (e, sweep) (rw (k, sweep) (omega (arith, ih, length-append healthy (c ∷ []))))
    | inr k ↦
        let ih = sweep-le keep rounds (suc i) (remove_conn c s) healthy in
        rw (e, sweep) (rw (k, sweep) (omega (arith, ih)))
  ]
]

module _ (max : ℕ) where
  close_connection-IsBounded :
      {p : Pool} (id : ℕ) → IsBounded max p → IsBounded max (close_connection id p)
  unfolding close_connection
  close_connection-IsBounded {p} id b = record {
    the_max = b.the_max;
    ordered = b.ordered;
    held = omega (arith, b.held, remove_first-le id p.connections);
  }

  set_conn-IsBounded :
      {p : Pool} (id now : ℕ) (used : Bool)
      → IsBounded max p
      → IsBounded max (set_conn id now used p)
  unfolding set_conn
  set_conn-IsBounded id now used b = record {
    the_max = b.the_max;
    ordered = b.ordered;
    held = b.held;
  }

  dial_idle-IsBounded :
      {p : Pool} (now : ℕ)
      → length p.connections < p.min_connections
      → IsBounded max p
      → IsBounded max (dial_idle now p)
  unfolding dial_idle set_conn
  dial_idle-IsBounded {p} now room b = record {
    the_max = b.the_max;
    ordered = b.ordered;
    held = omega (arith, b.ordered, length-append p.connections (p.next ∷ []));
  }

  top_up-IsBounded :
      (dials now : ℕ) (p : Pool) → IsBounded max p → IsBounded max (top_up dials now p)
  unfolding top_up
  top_up-IsBounded zero now p b = b
  top_up-IsBounded (suc dials) now p b =
      elim (Bool-cases (ltb (length p.connections) p.min_connections)) [
        | inl room ↦
            rw (room, top_up)
              (top_up-IsBounded dials now (dial_idle now p)
                (dial_idle-IsBounded now (ltb→lt _ _ room) b))
        | inr full ↦ rw (full, top_up) b
      ]

  received-IsBounded :
      {p : Pool} (ids : List ℕ) → IsBounded max p → IsBounded max (record p { available = ids })
  received-IsBounded ids b = record { the_max = b.the_max; ordered = b.ordered; held = b.held }

  receive-IsBounded :
      (ids : List ℕ) (now : ℕ) (noop : Bool) (p : Pool)
      → IsBounded max p
      → IsBounded max (receive ids now noop p).0
  unfolding receive
  receive-IsBounded [] now noop p b = b
  receive-IsBounded (id ∷ ids) now noop p b =
      let p' = record p { available = ids } in
      elim (Bool-cases (is_healthy now noop id p')) [
        | inl e ↦ rw (e, receive) (set_conn-IsBounded id now true (received-IsBounded ids b))
        | inr e ↦ rw (e, receive) (close_connection-IsBounded id (received-IsBounded ids b))
      ]

  get-IsBounded :
      (now : ℕ) (noop : Bool) (p : Pool) → IsBounded max p → IsBounded max (get now noop p).0
  unfolding get
  get-IsBounded now noop p b = branch p.closed
    where
      branch :
          (c : Bool)
          → IsBounded max (if c then (p, pool_closed) else receive p.available now noop p).0
      branch true = b
      branch false = receive-IsBounded p.available now noop p b

  add_connection-IsBounded :
      (now : ℕ) (p : Pool) → IsBounded max p → IsBounded max (add_connection now p).0
  unfolding add_connection set_conn
  add_connection-IsBounded now p b =
      ground (arith, b.the_max, b.ordered, b.held, length-append p.connections (p.next ∷ []))

  put-IsBounded : (id now : ℕ) (p : Pool) → IsBounded max p → IsBounded max (put id now p).0
  unfolding put close_connection set_conn
  put-IsBounded id now p b =
      ground (arith, b.the_max, b.ordered, b.held, remove_first-le id p.connections)

  check_connections-IsBounded :
      (now : ℕ) (noop : ℕ → Bool) (dials : ℕ) (p : Pool)
      → IsBounded max p
      → IsBounded max (check_connections now noop dials p)
  unfolding check_connections
  check_connections-IsBounded now noop dials p b =
      let swept = sweep (keeps now noop p) (length p.connections) 0 (whole p.connections) [] in
      top_up-IsBounded dials now (record p { connections = swept })
        (record {
          the_max = b.the_max;
          ordered = b.ordered;
          held = omega (
            arith,
            b.held,
            sweep-le (keeps now noop p) (length p.connections) 0 (whole p.connections) [],
          );
        })

  close-IsBounded : (p : Pool) → IsBounded max p → IsBounded max (close p)
  unfolding close
  close-IsBounded p b = ground (arith, b.the_max, b.ordered, b.held)

  step-IsBounded : (s : Step) (p : Pool) → IsBounded max p → IsBounded max (step s p)
  unfolding step
  step-IsBounded (getting now noop) p b = get-IsBounded now noop p b
  step-IsBounded (adding now) p b = add_connection-IsBounded now p b
  step-IsBounded (putting id now) p b = put-IsBounded id now p b
  step-IsBounded (marking_bad id) p b = close_connection-IsBounded id b
  step-IsBounded (checking now noop dials) p b = check_connections-IsBounded now noop dials p b
  step-IsBounded closing p b = close-IsBounded p b

  run-IsBounded : (ss : List Step) (p : Pool) → IsBounded max p → IsBounded max (run ss p)
  unfolding run
  run-IsBounded [] p b = b
  run-IsBounded (s ∷ ss) p b = run-IsBounded ss (step s p) (step-IsBounded s p b)

-- A pool that is made with a minimum that is not above its maximum lists no more connections than the
-- maximum, however its goroutines' steps follow one another and whatever the network answers.
pub pool-IsBounded :
    (max min idle dials now : ℕ) (steps : List Step)
    → min ≤ max
    → IsBounded max (run steps (new_pool max min idle dials now))
unfolding new_pool
pool-IsBounded max min idle dials now steps h =
    run-IsBounded max steps (new_pool max min idle dials now) (
      top_up-IsBounded max dials now _ (record { the_max = refl; ordered = h; held = omega arith }))
