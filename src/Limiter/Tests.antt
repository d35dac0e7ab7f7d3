-- ===== src/Limiter/Tests.antt =====
-- Runs of the domain limiter of internal/core/domain_limiter.go, with factors as hundredths and a
-- Redis that keeps its counts in an association list.
use sampmail.Prelude.{
  ℕ, ◌+◌, ◌≤◌, ◌≡◌, refl, false, Option, none, some, List, [], ◌∷◌, ◌++◌, arith, Text, codes,
  text_eq, nat_eq, ==_iff, get_elem?, set, length,
}
use sampmail.Prelude.Map
use sampmail.Prelude.Map.{lookup-insert}
use sampmail.Prelude.Strings.{to_lower, decimal}
use sampmail.Prelude.Floats.{percents}
use sampmail.Limiter.{
  Limit, free, writing, Limiter, done, get_limit, set_custom_limit, apply_warmup_factor, adjust,
  mend_factor, new_limiter,
}
use sampmail.Limiter.Deadlock.{set_warmup_factor_blocks_all, sets_factor, gets, perform_all}
use sampmail.Limiter.Table.{IsSound, new_limiter-IsSound, set_custom_limit-get_limit}
use sampmail.Limiter.Window.{Redis, Instant, hold, check_limit, minute_key, hour_key, day_key}
use sampmail.Limiter.Window.Quota.{count_allowed, window_quota, minute}

-- A connection that counts in an association list and never fails.
abbrev Counts : Type 0
Counts = List (Text × ℕ)

abbrev or_zero : Option ℕ → ℕ
or_zero none = 0
or_zero (some n) = n

abbrev read : Text → Counts → ℕ
read k db = or_zero (Map.lookup k db)

abbrev bump : Text → Counts → Counts × Option ℕ
bump k db = (Map.insert k (read k db + 1) db, some (read k db + 1))

bump_counts :
    (k : Text) (db : Counts) (n : ℕ)
    → (bump k db).1 ≡ some n
    → (n ≡ read k db + 1) × (read k (bump k db).0 ≡ n)
bump_counts k db n h = ground (arith, lookup-insert k k (read k db + 1) db, ==_iff k k)

bump_grows : (k j : Text) (db : Counts) → read j db ≤ read j (bump k db).0
bump_grows k j db = ground (arith, lookup-insert k j (read k db + 1) db, ==_iff k j)

abbrev memory : Redis
memory = record {
  Db = Counts;
  incr = bump;
  expire = λ k t db. db;
  count = read;
  incr-count = bump_counts;
  incr-grows = bump_grows;
  expire-count = λ k j t db. refl;
}

abbrev start : Limiter ℕ
start = new_limiter percents

start_free : start.mutex ≡ free
unfolding new_limiter
start_free = refl

abbrev gmail : Text
gmail = codes "gmail.com"

set_warmup_factor_blocks_all_example :
    perform_all percents (sets_factor gmail 50 7 ∷ gets (codes "yahoo.com") ∷ []) start
    ≡ (false ∷ false ∷ [], record start { mutex = writing })
set_warmup_factor_blocks_all_example =
    set_warmup_factor_blocks_all percents gmail 50 7 (gets (codes "yahoo.com") ∷ []) start
      start_free

abbrev EffectiveLimitAt : Text → Type 0
EffectiveLimitAt d =
    (p : ℕ) × (l : Limit ℕ) × (get_limit percents d start ≡ done p start)
    × (get_elem? start.heap p ≡ some l)
    × (apply_warmup_factor percents p start
        ≡ done (adjust percents (mend_factor percents l))
            (record start { heap = set start.heap p (mend_factor percents l) }))
    × IsSound (record start { heap = set start.heap p (mend_factor percents l) })
    × (start.mutex ≡ free)

abbrev half : Limit ℕ
half = record {
  domain = gmail;
  max_per_minute = 20;
  max_per_hour = 500;
  max_per_day = 5000;
  warmup_factor = 50;
  last_updated = 0;
}

adjust-half : (adjust percents (mend_factor percents half)).max_per_minute ≡ 10
unfolding adjust mend_factor
adjust-half = refl

abbrev own : Limit ℕ
own = record half { domain = codes "Example.org"; last_updated = 9 }

abbrev with_own : Limiter ℕ
with_own = record start {
  limits = Map.insert (codes "example.org") (length start.heap) start.limits;
  heap = start.heap ++ own ∷ [];
}

set_custom_limit-get_limit_example :
    (set_custom_limit percents (codes "Example.org") half 9 start ≡ done tt with_own)
    × IsSound with_own
    × (with_own.mutex ≡ free)
    × (get_limit percents (codes "example.org") with_own ≡ done (length start.heap) with_own)
    × (get_elem? with_own.heap (length start.heap) ≡ some own)
unfolding to_lower
set_custom_limit-get_limit_example =
    set_custom_limit-get_limit percents (codes "Example.org") half 9 start start_free
      (new_limiter-IsSound percents)

noon : Instant
noon = record { unix = 1700000000; date = codes "2023-11-14"; midnight = 1700006400000000000 }

three_calls : List (Instant × ℕ)
unfolding noon
three_calls = (noon, 0) ∷ (record noon { unix = 1700000001 }, 0) ∷ (noon, 0) ∷ []

abbrev one_a_minute : Limit ℕ
one_a_minute = record half { max_per_minute = 1 }

window_quota_example :
    read (minute_key gmail noon) [] + (count_allowed memory gmail one_a_minute three_calls []).1 ≤ 1
unfolding noon three_calls Map.lookup minute_key decimal
window_quota_example =
    window_quota memory gmail one_a_minute minute (minute_key gmail noon) three_calls []
      (refl, (refl, (refl, tt)))

-- The first send of the minute passes, the second is held until the next minute.
second_held :
    (check_limit memory gmail one_a_minute noon 1700000000000000000
      (check_limit memory gmail one_a_minute noon 1700000000000000000 []).0).1
    ≡ hold 40000000000
unfolding noon check_limit minute_key hour_key day_key decimal Map.lookup Map.insert
second_held = refl
