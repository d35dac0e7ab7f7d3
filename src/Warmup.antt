-- ===== src/Warmup.antt =====
-- internal/core/warmup.go: the schedules of the warmup of a sender, its rate on a day, and the daily
-- step with its brake. Durations are nanoseconds; the day of a sender is not negative. The statistics
-- of the mail server's logs are arguments; the rates of bounces and deferrals are float64, a parameter.
pub mod Schedules
pub mod Rates
pub mod Daily
mod Tests
use sampmail.Prelude.{
  ℕ, zero, suc, ◌+◌, ◌-◌, ◌*◌, ◌/◌, ◌^◌, ◌≡◌, Bool, true, false, not, ◌&&◌, ◌||◌, Option, none,
  some, List, [], ◌∷◌, Text, codes, text_eq, nat_eq, ◌==◌, ltb, leb, length, get_elem?,
  if◌then◌else◌,
}
use sampmail.Prelude.Strings.{to_lower, trim_space, split, digits_value}
use sampmail.Prelude.Floats.{Floats}
use sampmail.Warmup.Schedules.{
  conservative, standard, aggressive, warmup_schedules, GoInt, WarmupRate, Parsed, hour, atoi,
  period_of, rate_of, parse_period, parse_count, parse_parts, parse_warmup_rate, nonneg, neg,
  parsed, parse_error, divide_by_zero,
}

pub record Sender : Type 0 where
  pub warmup_enabled : Bool
  pub warmup_plan : Text
  pub warmup_day : ℕ
  pub warmup_last_update : Option ℕ

abbrev pub plan_name : Text → Text
plan_name [] = codes "standard"
plan_name (c ∷ s) = c ∷ s

abbrev pub or_standard : Option (List Text) → List Text
or_standard none = standard
or_standard (some plan) = plan

-- The plan of a sender, the standard one if its name is not known.
unfoldable pub plan_of : Sender → List Text
unfolding warmup_schedules
plan_of s = or_standard (warmup_schedules (plan_name s.warmup_plan))

abbrev pub no_warmup : WarmupRate
no_warmup = record { count = nonneg 1000000; period = hour; interval = nonneg 1000000 }

abbrev pub safe_default : WarmupRate
safe_default = record { count = nonneg 100; period = hour; interval = nonneg 36000000000 }

-- The answer of `GetWarmupRateForSender`; `none` is the panic of a division by zero.
abbrev pub or_safe : Parsed → Option WarmupRate
or_safe (parsed r) = some r
or_safe parse_error = some safe_default
or_safe divide_by_zero = none

abbrev pub clamp_day : ℕ → List Text → ℕ
clamp_day day plan = if leb (length plan) day then length plan - 1 else day

-- plan[day]; out of range would be a panic.
abbrev pub rate_at : List Text → ℕ → Option WarmupRate
rate_at plan day = elim (get_elem? plan day) [
  | none ↦ none
  | some rate ↦ or_safe (parse_warmup_rate rate)
]

unfoldable pub get_warmup_rate_for_sender : Option Sender → Option WarmupRate
unfolding plan_of
get_warmup_rate_for_sender none = some no_warmup
get_warmup_rate_for_sender (some s) =
    if s.warmup_enabled
    then rate_at (plan_of s) (clamp_day s.warmup_day (plan_of s))
    else some no_warmup

unfoldable pub calculate_throttle_interval : Option Sender → Option GoInt
unfolding get_warmup_rate_for_sender
calculate_throttle_interval s = elim (get_warmup_rate_for_sender s) [
  | none ↦ none
  | some rate ↦ some rate.interval
]

abbrev pub rate_string : Option (List Text) → ℕ → Text
rate_string none day = []
rate_string (some plan) day = elim (get_elem? plan (day - 1)) [ none ↦ [] | some rate ↦ rate ]

-- GetSenderRate: the day counts from 1 here, and an unknown plan has no limit.
unfoldable pub get_sender_rate : Sender → Text
unfolding warmup_schedules
get_sender_rate s =
    if s.warmup_enabled
    then rate_string (warmup_schedules (plan_name s.warmup_plan)) s.warmup_day
    else []

pub record DayStats : Type 0 where
  pub sent : ℕ
  pub bounced : ℕ
  pub deferred : ℕ

module _ (floats : Floats) where
  open floats use {Float, float, times, less, over}

  -- GetWarmupFactor
  unfoldable pub get_warmup_factor : Option Sender → Float
  unfolding plan_of
  get_warmup_factor none = float 1
  get_warmup_factor (some s) =
      if s.warmup_enabled
      then if leb (length (plan_of s)) s.warmup_day
        then float 1
        else over (float (s.warmup_day + 1)) (float (length (plan_of s)))
      else float 1

  pub record WarmupConfig : Type 0 where
    pub max_bounce_rate : Float
    pub max_deferral_rate : Float
    pub rollback_on_error : Bool

  unfoldable pub percentage : ℕ → ℕ → Float
  percentage part whole = times (over (float part) (float whole)) (float 100)

  unfoldable pub should_advance : WarmupConfig → Option DayStats → Bool
  unfolding percentage
  should_advance cfg none = true
  should_advance cfg (some d) =
      if ltb 0 d.sent
      then not (less cfg.max_bounce_rate (percentage d.bounced d.sent))
        && not (less cfg.max_deferral_rate (percentage d.deferred d.sent))
      else true

  unfoldable pub rolls_back : WarmupConfig → Option DayStats → ℕ → Bool
  unfolding percentage
  rolls_back cfg none day = false
  rolls_back cfg (some d) day =
      cfg.rollback_on_error && ltb 1 day && less (float 10) (percentage d.bounced d.sent)

  abbrev pub day : ℕ
  day = 24 * hour

  -- A sender whose time has come: the plan is done, or the day holds, or it advances.
  unfoldable pub advance : WarmupConfig → Option DayStats → ℕ → Sender → Sender
  unfolding plan_of should_advance rolls_back
  advance cfg stats now s =
      if leb (length (plan_of s)) s.warmup_day
      then record s { warmup_enabled = false }
      else if should_advance cfg stats
      then record s { warmup_day = s.warmup_day + 1; warmup_last_update = some now }
      else record s {
        warmup_day = if rolls_back cfg stats s.warmup_day then s.warmup_day - 1 else s.warmup_day;
        warmup_last_update = some now;
      }

  abbrev pub daily_since : WarmupConfig → Option DayStats → ℕ → Sender → Option ℕ → Sender
  daily_since cfg stats now s none = record s { warmup_last_update = some now }
  daily_since cfg stats now s (some last) =
      if ltb now (last + day) then s else advance cfg stats now s

  -- ProcessDailyWarmup, for one sender; the first argument says whether its save succeeds, whose error is
  -- only logged.
  unfoldable pub daily : Bool → WarmupConfig → Option DayStats → ℕ → Sender → Sender
  unfolding advance
  daily saves cfg stats now s =
      if s.warmup_enabled && saves then daily_since cfg stats now s s.warmup_last_update else s

  each_sender : WarmupConfig → Option DayStats → ℕ → List (Bool × Sender) → List Sender
  unfolding daily
  each_sender cfg stats now [] = []
  each_sender cfg stats now ((saves, s) ∷ ss) =
      daily saves cfg stats now s ∷ each_sender cfg stats now ss

  -- The domains, each with yesterday's statistics and its senders.
  unfoldable pub process_daily_warmup :
      WarmupConfig → ℕ → List (Option DayStats × List (Bool × Sender)) → List (List Sender)
  unfolding each_sender
  process_daily_warmup cfg now [] = []
  process_daily_warmup cfg now ((stats, senders) ∷ domains) =
      each_sender cfg stats now senders ∷ process_daily_warmup cfg now domains
