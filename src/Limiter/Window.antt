-- ===== src/Limiter/Window.antt =====
-- internal/core/domain_limiter.go: the counters of the minute, the hour and the day, in Redis, and
-- `Allow`. Redis is a parameter with the facts of INCR and EXPIRE that the counting rests on: INCR
-- returns one more than before and lowers no count; EXPIRE changes no count while the key lives (the
-- code lets each key live for twice its window).
pub mod Quota
use sampmail.Prelude.{
  ℕ, zero, suc, ◌+◌, ◌-◌, ◌*◌, ◌/◌, ◌≤◌, ◌<◌, ◌≡◌, refl, ◌≢◌, Bool, true, false, Option, none, some,
  List, [], ◌∷◌, ◌++◌, Text, codes, arith, ltb, if◌then◌else◌,
}
use sampmail.Prelude.Strings.{to_lower, trim_space, decimal}
use sampmail.Prelude.Floats.{Floats}
use sampmail.Limiter.{
  Limit, Limiter, Run, done, waits, crashes, M, pure, ◌>>=◌, ◌>>◌, get_limit, apply_warmup_factor,
}

-- `none` is an error of the connection.
pub record Redis : Type 1 where
  pub Db : Type 0
  pub incr : Text → Db → Db × Option ℕ
  pub expire : Text → ℕ → Db → Db
  pub count : Text → Db → ℕ
  pub incr-count :
      (k : Text) (db : Db) (n : ℕ)
      → (incr k db).1 ≡ some n
      → (n ≡ count k db + 1) × (count k (incr k db).0 ≡ n)
  -- Also a failed INCR takes nothing away.
  pub incr-grows : (k j : Text) (db : Db) → count j db ≤ count j (incr k db).0
  pub expire-count : (k j : Text) (t : ℕ) (db : Db) → count j (expire k t db) ≡ count j db

-- One reading of the clock: Unix seconds, the date as YYYY-MM-DD, and the next midnight (both by the
-- time zone, which is not the program's), the last in nanoseconds.
pub record Instant : Type 0 where
  pub unix : ℕ
  pub date : Text
  pub midnight : ℕ

-- What `Allow` returns; `failed` is a non-nil error. A wait is in nanoseconds; where Go's is
-- negative, and so over at once, it is 0 here.
pub record Answer : Type 0 where
  pub allowed : Bool
  pub wait : ℕ
  pub failed : Bool

abbrev pub yes_send : Answer
yes_send = record { allowed = true; wait = 0; failed = false }

abbrev pub send_after_error : Answer
send_after_error = record { allowed = true; wait = 0; failed = true }

abbrev pub hold : ℕ → Answer
hold wait = record { allowed = false; wait = wait; failed = false }

abbrev pub nanos : ℕ → ℕ
nanos seconds = seconds * 1000000000

unfoldable pub minute_key : Text → Instant → Text
minute_key domain now =
    codes "ratelimit:" ++ (domain ++ (codes ":minute:" ++ decimal (now.unix / 60)))

unfoldable pub hour_key : Text → Instant → Text
hour_key domain now =
    codes "ratelimit:" ++ (domain ++ (codes ":hour:" ++ decimal (now.unix / 3600)))

unfoldable pub day_key : Text → Instant → Text
day_key domain now = codes "ratelimit:" ++ (domain ++ (codes ":day:" ++ now.date))

module _ (rd : Redis) where
  open rd use {Db, incr, expire}

  -- One window: count the send under the key, and hold it if the count passes the limit. `next` is
  -- what follows where the window allows it.
  unfoldable pub check_window : Text → ℕ → ℕ → ℕ → (Db → Db × Answer) → Db → Db × Answer
  check_window key life limit wait next db =
      let (db1, reply) = incr key db in
      elim reply [
        | none ↦ (db1, send_after_error)
        | some n ↦
            let db2 = expire key life db1 in
            let rest = next db2 in if ltb limit n then (db2, hold wait) else rest
      ]

  abbrev pub allow_all : Db → Db × Answer
  allow_all db = (db, yes_send)

  module _ {F : Type 0} where
    -- checkLimit with a Redis client; `later` is the clock, in nanoseconds, when a wait is computed.
    unfoldable pub check_limit : Text → Limit F → Instant → ℕ → Db → Db × Answer
    unfolding check_window
    check_limit domain limit now later =
        check_window (minute_key domain now) (nanos 120) limit.max_per_minute
          (nanos ((now.unix / 60 + 1) * 60) - later)
          (check_window (hour_key domain now) (nanos 7200) limit.max_per_hour
            (nanos ((now.unix / 3600 + 1) * 3600) - later)
            (check_window (day_key domain now) (nanos 172800) limit.max_per_day
              (now.midnight - later) allow_all))

    -- checkLimit; the Boolean says that there is a Redis client.
    unfoldable pub check_limit_if : Bool → Text → Limit F → Instant → ℕ → Db → Db × Answer
    unfolding check_limit
    check_limit_if false domain limit now later db = (db, yes_send)
    check_limit_if true domain limit now later db = check_limit domain limit now later db

  module _ (fl : Floats) where
    -- Allow
    unfoldable pub allow : Bool → Text → Instant → ℕ → Db → M fl.Float (Db × Answer)
    unfolding check_limit_if get_limit apply_warmup_factor
    allow connected domain now later db = do
      let name = to_lower (trim_space domain)
      p ← get_limit fl name
      limit ← apply_warmup_factor fl p
      pure (check_limit_if connected name limit now later db)
