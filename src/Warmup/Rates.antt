-- ===== src/Warmup/Rates.antt =====
-- internal/core/warmup.go: every rate that the schedules give to a sender.
use sampmail.Prelude.{
  ℕ, zero, suc, ◌-◌, ◌*◌, ◌<◌, ◌≤◌, ◌≡◌, refl, sym, true, Option, none, some, List, [], ◌∷◌, Text,
  codes, arith, text_eq, ◌==◌, length, get_elem?, Bool-cases, inl, inr, All,
}
use mathlib.Core.Path.{subst}
use sampmail.Prelude.Strings.{to_lower, trim_space, split}
use sampmail.Warmup.{
  Sender, plan_name, or_standard, plan_of, or_safe, rate_at, clamp_day, get_warmup_rate_for_sender,
  get_sender_rate, rate_string,
}
use sampmail.Warmup.Schedules.{
  WarmupRate, GoInt, nonneg, neg, conservative, standard, aggressive, warmup_schedules,
  parse_warmup_rate, hour,
}

-- A rate that can be waited for: so many mails, at this interval, fit in its hour.
abbrev pub Fits : GoInt → GoInt → ℕ → Type 0
Fits (nonneg n) (nonneg i) period =
    (10 ≤ n) × (n ≤ 1000000) × (0 < i) × (n * i ≤ period) × (period ≡ hour)
Fits (nonneg n) (neg i) period = ⊥
Fits (neg n) i period = ⊥

abbrev pub Usable : Option WarmupRate → Type 0
Usable none = ⊥
Usable (some r) = Fits r.count r.interval r.period

abbrev pub UsableText : Text → Type 0
UsableText rate = Usable (or_safe (parse_warmup_rate rate))

conservative_usable : All UsableText conservative
unfolding parse_warmup_rate to_lower trim_space split
conservative_usable = omega arith

standard_usable : All UsableText standard
unfolding parse_warmup_rate to_lower trim_space split
standard_usable = omega arith

aggressive_usable : All UsableText aggressive
unfolding parse_warmup_rate to_lower trim_space split
aggressive_usable = omega arith

known_usable : (name : Text) → All UsableText (or_standard (warmup_schedules name))
unfolding warmup_schedules
known_usable name = elim (Bool-cases (name == codes "conservative")) [
  | inl a ↦ rw a conservative_usable
  | inr a ↦ elim (Bool-cases (name == codes "standard")) [
    | inl b ↦ rw (a, b) standard_usable
    | inr b ↦ elim (Bool-cases (name == codes "aggressive")) [
      | inl c ↦ rw (a, b, c) aggressive_usable
      | inr c ↦ rw (a, b, c) standard_usable
    ]
  ]
]

rate_at-Usable :
    (plan : List Text) (day : ℕ)
    → All UsableText plan
    → day < length plan
    → Usable (rate_at plan day)
rate_at-Usable [] day h k = elim k [ ]
rate_at-Usable (rate ∷ plan) zero h k = h.0
rate_at-Usable (rate ∷ plan) (suc day) h k = rate_at-Usable plan day h.1 (omega arith)

clamp_day-lt : (day : ℕ) (plan : List Text) → 0 < length plan → clamp_day day plan < length plan
clamp_day-lt day plan h = ground arith

known_some : (name : Text) → 9 ≤ length (or_standard (warmup_schedules name))
unfolding warmup_schedules
known_some name = elim (Bool-cases (name == codes "conservative")) [
  | inl a ↦ rw a (omega arith)
  | inr a ↦ elim (Bool-cases (name == codes "standard")) [
    | inl b ↦ rw (a, b) (omega arith)
    | inr b ↦ elim (Bool-cases (name == codes "aggressive")) [
      | inl c ↦ rw (a, b, c) (omega arith)
      | inr c ↦ rw (a, b, c) (omega arith)
    ]
  ]
]

plan_of-ge : (s : Sender) → 9 ≤ length (plan_of s)
unfolding plan_of
plan_of-ge s = known_some (plan_name s.warmup_plan)

plan_of_usable : (s : Sender) → All UsableText (plan_of s)
unfolding plan_of
plan_of_usable s = known_usable (plan_name s.warmup_plan)

-- Every sender, whatever its plan's name and its day, gets a rate with no division by zero: at least
-- 10 and at most 1000000 mails in an hour, at a positive interval at which they fit in the hour.
pub get_warmup_rate_for_sender-Usable : (s : Option Sender) → Usable (get_warmup_rate_for_sender s)
unfolding get_warmup_rate_for_sender
get_warmup_rate_for_sender-Usable none = omega arith
get_warmup_rate_for_sender-Usable (some s) = elim (Bool-cases s.warmup_enabled) [
  | inl warm ↦ rw warm (
      rate_at-Usable (plan_of s) (clamp_day s.warmup_day (plan_of s)) (plan_of_usable s)
        (clamp_day-lt s.warmup_day (plan_of s) (omega (arith, plan_of-ge s))))
  | inr full ↦ rw full (omega arith)
]

-- The count of a rate; 0 for none.
abbrev pub nonneg_count : GoInt → ℕ
nonneg_count (nonneg n) = n
nonneg_count (neg n) = 0

abbrev pub count_of : Option WarmupRate → ℕ
count_of none = 0
count_of (some r) = nonneg_count r.count

abbrev pub text_count : Text → ℕ
text_count rate = count_of (or_safe (parse_warmup_rate rate))

abbrev Rising : List Text → Type 0
Rising [] = Unit
Rising (a ∷ []) = Unit
Rising (a ∷ b ∷ r) = (text_count a < text_count b) × Rising (b ∷ r)

schedules-Rising : Rising conservative × Rising standard × Rising aggressive
unfolding parse_warmup_rate to_lower trim_space split
schedules-Rising = omega arith

known-Rising : (name : Text) (plan : List Text) → warmup_schedules name ≡ some plan → Rising plan
unfolding warmup_schedules
known-Rising name plan h = elim (Bool-cases (name == codes "conservative")) [
  | inl a ↦ let e : conservative ≡ plan = ground (arith, a) in subst Rising e schedules-Rising.0
  | inr a ↦ elim (Bool-cases (name == codes "standard")) [
    | inl b ↦ let e : standard ≡ plan = ground (arith, a, b) in subst Rising e schedules-Rising.1
    | inr b ↦ elim (Bool-cases (name == codes "aggressive")) [
      | inl c ↦
          let e : aggressive ≡ plan = ground (arith, a, b, c) in subst Rising e schedules-Rising.2
      | inr c ↦ absurd (ground (arith, a, b, c))
    ]
  ]
]

-- The rate at a place, and the text at the place before.
Rising-next :
    (plan : List Text) (k : ℕ)
    → Rising plan
    → suc k < length plan
    → text_count (elim (get_elem? plan k) [ none ↦ [] | some rate ↦ rate ])
      < count_of (rate_at plan (suc k))
Rising-next [] k h l = elim l [ ]
Rising-next (a ∷ []) k h l = absurd (omega arith)
Rising-next (a ∷ b ∷ r) zero h l = h.0
Rising-next (a ∷ b ∷ r) (suc k) h l = Rising-next (b ∷ r) k h.1 (omega arith)

rate_string-suc :
    (plan : List Text) (day : ℕ)
    → rate_string (some plan) (suc day)
      ≡ (elim (get_elem? plan day) [ none ↦ [] | some rate ↦ rate ])
rate_string-suc plan day =
    let before : suc day - 1 ≡ day = omega arith in rw (before, rate_string) refl

limit_below :
    (plan : List Text) (day : ℕ)
    → Rising plan
    → 1 ≤ day
    → day < length plan
    → text_count (rate_string (some plan) day) < count_of (rate_at plan (clamp_day day plan))
limit_below plan zero h k l = absurd (omega arith)
limit_below plan (suc day) h k l =
    let same : clamp_day (suc day) plan ≡ suc day = ground arith in
    subst (λ t. text_count t < count_of (rate_at plan (clamp_day (suc day) plan)))
      (sym (rate_string-suc plan day)) (rw same (Rising-next plan day h l))

-- On every day from 1 on before its plan is done, a sender on a plan of the table is paced by its
-- campaigns at a higher rate than the limit that the mail server's configuration holds for it: the
-- one counts days from 0, the other from 1.
pub get_sender_rate-lt-rate :
    (s : Sender) (plan : List Text)
    → warmup_schedules (plan_name s.warmup_plan) ≡ some plan
    → s.warmup_enabled ≡ true
    → 1 ≤ s.warmup_day
    → s.warmup_day < length plan
    → text_count (get_sender_rate s) < count_of (get_warmup_rate_for_sender (some s))
unfolding get_sender_rate get_warmup_rate_for_sender
get_sender_rate-lt-rate s plan known warm from below = rw warm (
    rw known (
      limit_below plan s.warmup_day (known-Rising (plan_name s.warmup_plan) plan known) from below))
