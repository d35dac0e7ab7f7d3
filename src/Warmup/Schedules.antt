-- ===== src/Warmup/Schedules.antt =====
-- internal/core/warmup.go: the table of schedules, and the parsing of a rate.
use sampmail.Prelude.{
  ℕ, zero, suc, ◌-◌, ◌*◌, ◌/◌, ◌^◌, ◌||◌, Option, none, some, List, [], ◌∷◌, Text, codes, text_eq,
  nat_eq, ◌==◌, leb, if◌then◌else◌,
}
use sampmail.Prelude.Strings.{to_lower, trim_space, split, digits_value}

abbrev pub conservative : List Text
conservative =
    codes "10/hr"
    ∷ codes "20/hr"
    ∷ codes "40/hr"
    ∷ codes "80/hr"
    ∷ codes "150/hr"
    ∷ codes "300/hr"
    ∷ codes "600/hr"
    ∷ codes "1000/hr"
    ∷ codes "2000/hr"
    ∷ codes "4000/hr"
    ∷ []

abbrev pub standard : List Text
standard =
    codes "25/hr"
    ∷ codes "50/hr"
    ∷ codes "100/hr"
    ∷ codes "200/hr"
    ∷ codes "400/hr"
    ∷ codes "800/hr"
    ∷ codes "1600/hr"
    ∷ codes "3200/hr"
    ∷ codes "6400/hr"
    ∷ codes "12000/hr"
    ∷ []

abbrev pub aggressive : List Text
aggressive =
    codes "50/hr"
    ∷ codes "100/hr"
    ∷ codes "250/hr"
    ∷ codes "500/hr"
    ∷ codes "1000/hr"
    ∷ codes "2500/hr"
    ∷ codes "5000/hr"
    ∷ codes "10000/hr"
    ∷ codes "20000/hr"
    ∷ []

unfoldable pub warmup_schedules : Text → Option (List Text)
warmup_schedules plan =
    if plan == codes "conservative"
    then some conservative
    else if plan == codes "standard"
    then some standard
    else if plan == codes "aggressive"
    then some aggressive
    else none

-- A Go `int`: `neg n` is -n.
pub data GoInt : Type 0 where
  nonneg : ℕ → GoInt
  neg : ℕ → GoInt

pub record WarmupRate : Type 0 where
  pub count : GoInt
  pub period : ℕ
  pub interval : GoInt

pub data Parsed : Type 0 where
  parsed : WarmupRate → Parsed
  parse_error : Parsed
  divide_by_zero : Parsed

abbrev pub hour : ℕ
hour = 3600000000000

-- The digits of `strconv.Atoi` after its sign, within int64.
atoi_digits : (ℕ → GoInt) → ℕ → Text → Option GoInt
atoi_digits sign limit [] = none
atoi_digits sign limit (c ∷ s) = elim (digits_value 0 (c ∷ s)) [
  | none ↦ none
  | some n ↦ if leb n limit then some (sign n) else none
]

unfoldable pub atoi : Text → Option GoInt
unfolding atoi_digits digits_value
atoi [] = none
atoi (c ∷ s) =
    if c == b'-'
    then atoi_digits neg (2 ^ 63) s
    else if c == b'+'
    then atoi_digits nonneg (2 ^ 63 - 1) s
    else atoi_digits nonneg (2 ^ 63 - 1) (c ∷ s)

unfoldable pub period_of : Text → Option ℕ
period_of s =
    if s == codes "hr" || s == codes "hour" || s == codes "h"
    then some hour
    else if s == codes "min" || s == codes "minute" || s == codes "m"
    then some (hour / 60)
    else if s == codes "day" || s == codes "d"
    then some (24 * hour)
    else none

-- period / time.Duration(count), which truncates towards zero, and panics at zero.
unfoldable pub rate_of : GoInt → ℕ → Parsed
rate_of (nonneg zero) period = divide_by_zero
rate_of (neg zero) period = divide_by_zero
rate_of (nonneg (suc n)) period =
    parsed (record { count = nonneg (suc n); period = period; interval = nonneg (period / suc n) })
rate_of (neg (suc n)) period =
    parsed (record { count = neg (suc n); period = period; interval = neg (period / suc n) })

abbrev pub parse_period : Option ℕ → GoInt → Parsed
parse_period none count = parse_error
parse_period (some period) count = rate_of count period

abbrev pub parse_count : Option GoInt → Text → Parsed
parse_count none period = parse_error
parse_count (some count) period = parse_period (period_of period) count

abbrev pub parse_parts : List Text → Parsed
parse_parts [] = parse_error
parse_parts (count ∷ []) = parse_error
parse_parts (count ∷ period ∷ []) = parse_count (atoi count) period
parse_parts (_ ∷ _ ∷ _ ∷ _) = parse_error

unfoldable pub parse_warmup_rate : Text → Parsed
unfolding period_of rate_of atoi
parse_warmup_rate rate_str = parse_parts (split b'/' (trim_space (to_lower rate_str)))
