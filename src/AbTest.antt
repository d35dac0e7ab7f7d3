-- ===== src/AbTest.antt =====
-- internal/core/ab_test.go: A/B tests of a campaign. The table of the database and the map of active
-- tests are maps by the test's id; a database write may fail, by an argument of the call. A variant is
-- known by its place in the test, as the code returns a pointer into the slice. Left out: the level of
-- confidence and the statistics, which are float64, the names and the counters of the variants.
pub mod Shares
pub mod Cache
mod Tests
use sampmail.Prelude.{
  ℕ, suc, ◌+◌, ◌%◌, Bool, true, false, not, Option, none, some, List, [], ◌∷◌, nat_eq, ◌==◌, ltb,
  length, if◌then◌else◌,
}
use sampmail.Prelude.Map
use sampmail.Prelude.Int.{ℤ, pos, negsuc, ◌+ℤ◌, ltb_ℤ, eqb_zero, pos_part, neg_part}

-- `no_status` and `no_metric` are the empty text.
pub data Status : Type 0 where
  no_status draft running paused completed : Status

pub data Metric : Type 0 where
  no_metric opens clicks conversions revenue : Metric

pub record AbTest : Type 0 where
  pub status : Status
  pub variants : List ℕ
  pub traffic_split : List ℤ
  pub winner_metric : Metric
  pub min_sample_size : ℤ
  pub test_duration : ℤ
  pub started_at : Option ℕ
  pub ends_at : Option ℤ
  pub completed_at : Option ℕ
  pub winner_id : Option ℕ
  pub winner_selected : Bool

pub record Manager : Type 0 where
  pub table : List (ℕ × AbTest)
  pub next_id : ℕ
  pub active : List (ℕ × AbTest)

pub data Reply : Type 0 where
  fine too_few_variants split_mismatch split_not_100 not_found not_draft not_running
        database_error :
      Reply

abbrev pub total : List ℤ → ℤ
total [] = pos 0
total (s ∷ ss) = s +ℤ total ss

abbrev pub or_draft : Status → Status
or_draft no_status = draft
or_draft draft = draft
or_draft running = running
or_draft paused = paused
or_draft completed = completed

abbrev pub or_opens : Metric → Metric
or_opens no_metric = opens
or_opens opens = opens
or_opens clicks = clicks
or_opens conversions = conversions
or_opens revenue = revenue

abbrev pub equal_ℤ : ℤ → ℤ → Bool
equal_ℤ a b = pos_part a + neg_part b == pos_part b + neg_part a

-- The checks of CreateTest, in order.
unfoldable pub check_test : AbTest → Reply
check_test t =
    if ltb (length t.variants) 2
    then too_few_variants
    else if not (length t.traffic_split == length t.variants)
    then split_mismatch
    else if not (equal_ℤ (total t.traffic_split) (pos 100))
    then split_not_100
    else fine

unfoldable pub with_defaults : AbTest → AbTest
with_defaults t = record t {
  status = or_draft t.status;
  winner_metric = or_opens t.winner_metric;
  min_sample_size = if eqb_zero t.min_sample_size then pos 1000 else t.min_sample_size;
}

-- What a call writes, once its checks have passed and the write succeeds.
abbrev pub stored : Bool → Manager → Manager → Manager × Reply
stored true m' m = (m', fine)
stored false m' m = (m, database_error)

abbrev pub created : Reply → Bool → AbTest → Manager → Manager × Reply
created fine up t m =
    stored up (record m { table = Map.insert m.next_id t m.table; next_id = suc m.next_id }) m
created too_few_variants up t m = (m, too_few_variants)
created split_mismatch up t m = (m, split_mismatch)
created split_not_100 up t m = (m, split_not_100)
created not_found up t m = (m, not_found)
created not_draft up t m = (m, not_draft)
created not_running up t m = (m, not_running)
created database_error up t m = (m, database_error)

-- CreateTest; the database gives the id.
unfoldable pub create_test : AbTest → Bool → Manager → Manager × Reply
unfolding check_test with_defaults
create_test t up m = created (check_test t) up (with_defaults t) m

abbrev pub is_draft : Status → Bool
is_draft draft = true
is_draft no_status = false
is_draft running = false
is_draft paused = false
is_draft completed = false

abbrev pub is_running : Status → Bool
is_running running = true
is_running draft = false
is_running no_status = false
is_running paused = false
is_running completed = false

unfoldable pub started : AbTest → ℕ → AbTest
started t now = record t {
  status = running;
  started_at = some now;
  ends_at = if ltb_ℤ (pos 0) t.test_duration then some (pos now +ℤ t.test_duration) else t.ends_at;
}

abbrev pub start_found : Option AbTest → ℕ → ℕ → Bool → Manager → Manager × Reply
start_found none id now up m = (m, not_found)
start_found (some t) id now up m =
    if is_draft t.status
    then stored up
        (record m {
          table = Map.insert id (started t now) m.table;
          active = Map.insert id (started t now) m.active;
        })
        m
    else (m, not_draft)

-- StartTest
unfoldable pub start_test : ℕ → ℕ → Bool → Manager → Manager × Reply
unfolding started
start_test id now up m = start_found (Map.lookup id m.table) id now up m

-- The loop over the split: the place of the first share that the hash falls below, if a variant
-- stands there; else the first variant, whose absence is a panic (`none`).
abbrev pub fallback : ℕ → Option ℕ
fallback count = if ltb 0 count then some 0 else none

unfoldable pub pick_from : ℕ → ℤ → List ℤ → ℕ → ℕ → Option ℕ
pick_from i cumulative [] hash count = fallback count
pick_from i cumulative (split ∷ rest) hash count =
    let later = pick_from (suc i) (cumulative +ℤ split) rest hash count in
    if ltb_ℤ (pos hash) (cumulative +ℤ split) then if ltb i count then some i else later else later

unfoldable pub variant_of : AbTest → ℕ → Option ℕ
unfolding pick_from
variant_of t recipient = pick_from 0 (pos 0) t.traffic_split (recipient % 100) (length t.variants)

pub data Assigned : Type 0 where
  assigned : Option ℕ → Assigned
  refused : Reply → Assigned

abbrev pub from_table : Option AbTest → ℕ → Assigned
from_table none recipient = refused not_found
from_table (some t) recipient =
    if is_running t.status then assigned (variant_of t recipient) else refused not_running

abbrev pub from_active : Option AbTest → Option AbTest → ℕ → Assigned
from_active (some t) row recipient = assigned (variant_of t recipient)
from_active none row recipient = from_table row recipient

-- GetVariantForRecipient
unfoldable pub get_variant_for_recipient : ℕ → ℕ → Manager → Assigned
unfolding variant_of
get_variant_for_recipient id recipient m =
    from_active (Map.lookup id m.active) (Map.lookup id m.table) recipient

abbrev pub select_found : Option AbTest → ℕ → ℕ → ℕ → Bool → Manager → Manager × Reply
select_found none id variant now up m = (m, not_found)
select_found (some t) id variant now up m =
    stored up
      (record m {
        table =
            Map.insert id
              (record t {
                winner_id = some variant;
                winner_selected = true;
                status = completed;
                completed_at = some now;
              })
              m.table;
        active = Map.remove id m.active;
      })
      m

-- SelectWinner
unfoldable pub select_winner : ℕ → ℕ → ℕ → Bool → Manager → Manager × Reply
select_winner id variant now up m = select_found (Map.lookup id m.table) id variant now up m

-- DeleteTest: the active test goes before the transaction.
unfoldable pub delete_test : ℕ → Bool → Manager → Manager × Reply
delete_test id up m =
    let m' = record m { active = Map.remove id m.active } in
    stored up (record m' { table = Map.remove id m.table }) m'
