-- ===== src/Warmup/Tests.antt =====
-- Runs of internal/core/warmup.go, in hundredths for float64.
use sampmail.Prelude.{
  ℕ, ◌+◌, ◌*◌, ◌≤◌, ◌≡◌, refl, true, false, some, none, List, [], ◌∷◌, take, codes, text_eq, arith,
}
use sampmail.Prelude.Strings.{to_lower, trim_space, split}
use sampmail.Prelude.Floats.{percents}
use sampmail.Warmup.{Sender, DayStats, WarmupConfig, plan_of, daily, should_advance}
use sampmail.Warmup.Schedules.{parsed, parse_error, divide_by_zero, nonneg, hour, parse_warmup_rate}
use sampmail.Warmup.Daily.{Day, run_days, warmup_completes}

hourly :
    parse_warmup_rate (codes " 100/HR ")
    ≡ parsed (record { count = nonneg 100; period = hour; interval = nonneg 36000000000 })
unfolding parse_warmup_rate to_lower trim_space split
hourly = refl

no_rate : parse_warmup_rate (codes "0/hr") ≡ divide_by_zero
unfolding parse_warmup_rate to_lower trim_space split
no_rate = refl

two_slashes : parse_warmup_rate (codes "1/hr/2") ≡ parse_error
unfolding parse_warmup_rate to_lower trim_space split
two_slashes = refl

abbrev warm : Sender
warm = record {
  warmup_enabled = true;
  warmup_plan = codes "aggressive";
  warmup_day = 7;
  warmup_last_update = some 0;
}

abbrev config : WarmupConfig percents
config = record { max_bounce_rate = 300; max_deferral_rate = 1000; rollback_on_error = false }

abbrev good : DayStats
good = record { sent = 1000; bounced = 10; deferred = 20 }

bounced_day_holds :
    (daily percents true config (some (record good { bounced = 40 })) (24 * hour) warm).warmup_day
    ≡ 7
unfolding daily
bounced_day_holds = refl

-- From day 7 of a plan of nine: days with good rates and one with no mail, which starts two hours late.
abbrev three_days : List (Day percents config)
three_days =
    record { yesterday = some good; now = 24 * hour; saves = true }
    ∷ record { yesterday = none; now = 50 * hour; saves = true }
    ∷ record { yesterday = some good; now = 74 * hour; saves = true }
    ∷ []

warmup_completes_example :
    ((k : ℕ)
      → k ≤ 2
      → ((run_days percents config (take k three_days) warm).warmup_enabled ≡ true)
        × ((run_days percents config (take k three_days) warm).warmup_day ≡ 7 + k))
    × ((run_days percents config three_days warm).warmup_enabled ≡ false)
unfolding should_advance plan_of
warmup_completes_example =
    warmup_completes percents config three_days 0 warm 2
      (refl, omega arith, refl, (refl, omega arith, refl, (refl, omega arith, refl, tt))) refl refl
      refl refl
