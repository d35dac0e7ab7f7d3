-- ===== src/Warmup/Daily.antt =====
-- internal/core/warmup.go: the daily step of a sender, and its course over many days.
use sampmail.Prelude.{
  ℕ, zero, suc, ◌+◌, ◌≤◌, ◌≡◌, refl, ap, ◌∙◌, Bool, true, false, ◌&&◌, Option, none, some, List, [],
  ◌∷◌, take, arith, if◌then◌else◌, ltb, leb, length, Bool-cases, inl, inr,
}
use sampmail.Prelude.Floats.{Floats}
use sampmail.Warmup.{
  Sender, DayStats, WarmupConfig, daily, daily_since, advance, should_advance, rolls_back, plan_of,
  day,
}

module _ (floats : Floats) (cfg : WarmupConfig floats) where
  -- What a day may do to a sender that is being warmed up.
  pub record IsGradual (stats : Option DayStats) (s t : Sender) : Type 0 where
    pub same_plan : t.warmup_plan ≡ s.warmup_plan
    pub at_most_one : t.warmup_day ≤ s.warmup_day + 1
    pub held : should_advance floats cfg stats ≡ false → t.warmup_day ≤ s.warmup_day
    pub no_rollback : cfg.rollback_on_error ≡ false → s.warmup_day ≤ t.warmup_day
    pub done_only_at_end :
        s.warmup_enabled ≡ true → t.warmup_enabled ≡ false → length (plan_of s) ≤ s.warmup_day
    pub never_enabled : s.warmup_enabled ≡ false → t.warmup_enabled ≡ false

  rolls_back_set :
      (stats : Option DayStats) (day : ℕ)
      → cfg.rollback_on_error ≡ false
      → rolls_back floats cfg stats day ≡ false
  unfolding rolls_back
  rolls_back_set none day h = refl
  rolls_back_set (some d) day h = rw h refl

  advance-IsGradual :
      (stats : Option DayStats) (now : ℕ) (s : Sender)
      → s.warmup_enabled ≡ true
      → IsGradual stats s (advance floats cfg stats now s)
  unfolding advance
  advance-IsGradual stats now s on = elim (Bool-cases (leb (length (plan_of s)) s.warmup_day)) [
    | inl done ↦ rw done record {
      same_plan = refl;
      at_most_one = omega arith;
      held = λ h. omega arith;
      no_rollback = λ h. omega arith;
      done_only_at_end = λ h k. ground (arith, done);
      never_enabled = λ h. refl;
    }
    | inr more ↦ elim (Bool-cases (should_advance floats cfg stats)) [
      | inl good ↦
          rw (more, good)
            record {
              same_plan = refl;
              at_most_one = omega arith;
              held = λ h. cc h;
              no_rollback = λ h. omega arith;
              done_only_at_end = λ h k. absurd (ground (arith, h, k));
              never_enabled = λ h. h;
            }
      | inr poor ↦
          rw (more, poor)
            record {
              same_plan = refl;
              at_most_one = ground arith;
              held = λ h. ground arith;
              no_rollback = λ h. ground (arith, rolls_back_set stats s.warmup_day h);
              done_only_at_end = λ h k. absurd (ground (arith, h, k));
              never_enabled = λ h. h;
            }
    ]
  ]

  same-IsGradual :
      (stats : Option DayStats) (s t : Sender)
      → t.warmup_plan ≡ s.warmup_plan
      → t.warmup_day ≡ s.warmup_day
      → t.warmup_enabled ≡ s.warmup_enabled
      → IsGradual stats s t
  same-IsGradual stats s t p d e = record {
    same_plan = p;
    at_most_one = omega arith;
    held = λ h. omega arith;
    no_rollback = λ h. omega arith;
    done_only_at_end = λ h k. absurd (ground (arith, h, k, e));
    never_enabled = λ h. e ∙ h;
  }

  since-IsGradual :
      (stats : Option DayStats) (now : ℕ) (s : Sender) (last : Option ℕ)
      → s.warmup_enabled ≡ true
      → IsGradual stats s (daily_since floats cfg stats now s last)
  since-IsGradual stats now s none on = same-IsGradual stats s _ refl refl refl
  since-IsGradual stats now s (some last) on = elim (Bool-cases (ltb now (last + day floats))) [
    | inl early ↦ rw early (same-IsGradual stats s s refl refl refl)
    | inr due ↦ rw due (advance-IsGradual stats now s on)
  ]

  -- A day of the warmup, whatever the statistics and the times: the plan stays; the day goes up by one
  -- at most, not at all if yesterday's rates were over the limits, and down only where the rollback is
  -- configured; the warmup ends only once the plan is used up, and never starts by itself.
  pub daily-IsGradual :
      (saves : Bool) (stats : Option DayStats) (now : ℕ) (s : Sender)
      → IsGradual stats s (daily floats saves cfg stats now s)
  unfolding daily
  daily-IsGradual saves stats now s = elim (Bool-cases (s.warmup_enabled && saves)) [
    | inl on ↦
        rw (on, daily) (since-IsGradual stats now s s.warmup_last_update (ground (arith, on)))
    | inr off ↦ rw (off, daily) (same-IsGradual stats s s refl refl refl)
  ]

  -- A day of a run: the statistics of the day before, the time, and whether the save succeeds.
  pub record Day : Type 0 where
    pub yesterday : Option DayStats
    pub now : ℕ
    pub saves : Bool

  abbrev pub run_days : List Day → Sender → Sender
  run_days [] s = s
  run_days (d ∷ ds) s = run_days ds (daily floats d.saves cfg d.yesterday d.now s)

  -- Days with rates inside the limits, each 24 hours or more after the one before, whose saves succeed.
  abbrev pub AreGood : ℕ → List Day → Type 0
  AreGood last [] = Unit {0}
  AreGood last (d ∷ ds) =
      (should_advance floats cfg d.yesterday ≡ true)
      × (last + day floats ≤ d.now)
      × (d.saves ≡ true)
      × AreGood d.now ds

  AreGood-take : (k last : ℕ) (ds : List Day) → AreGood last ds → AreGood last (take k ds)
  AreGood-take zero last ds h = tt
  AreGood-take (suc k) last [] h = tt
  AreGood-take (suc k) last (d ∷ ds) h = (h.0, h.1, h.2, AreGood-take k d.now ds h.3)

  length-take : (k : ℕ) (ds : List Day) → k ≤ length ds → length (take k ds) ≡ k
  length-take zero ds h = refl
  length-take (suc k) [] h = absurd (omega arith)
  length-take (suc k) (d ∷ ds) h = ap suc (length-take k ds (omega arith))

  plan_of-day :
      (s : Sender) (n : ℕ) (now : Option ℕ)
      → plan_of (record s { warmup_day = n; warmup_last_update = now }) ≡ plan_of s
  unfolding plan_of
  plan_of-day s n now = refl

  -- A good day, with the plan used up or not.
  good_day :
      (d : Day) (last : ℕ) (s : Sender)
      → should_advance floats cfg d.yesterday ≡ true
      → last + day floats ≤ d.now
      → d.saves ≡ true
      → s.warmup_enabled ≡ true
      → s.warmup_last_update ≡ some last
      → daily floats d.saves cfg d.yesterday d.now s ≡ (
          if leb (length (plan_of s)) s.warmup_day
          then record s { warmup_enabled = false }
          else record s { warmup_day = s.warmup_day + 1; warmup_last_update = some d.now })
  unfolding daily advance
  good_day d last s good due saved on updated =
      let late : ltb d.now (last + day floats) ≡ false = ground (arith, due) in
      rw (on, saved, daily) (rw (updated, daily) (rw (late, daily) (rw (good, daily) refl)))

  on_course :
      (ds : List Day) (last : ℕ) (s : Sender)
      → AreGood last ds
      → s.warmup_enabled ≡ true
      → s.warmup_last_update ≡ some last
      → s.warmup_day + length ds ≤ length (plan_of s)
      → ((run_days ds s).warmup_enabled ≡ true)
        × ((run_days ds s).warmup_day ≡ s.warmup_day + length ds)
  on_course [] last s good on updated h = (on, omega arith)
  on_course (d ∷ ds) last s good on updated h =
      let more : leb (length (plan_of s)) s.warmup_day ≡ false = ground (arith, h) in
      let next : Sender = record s {
        warmup_day = s.warmup_day + 1;
        warmup_last_update = some d.now;
      } in
      let rest =
        on_course ds d.now next good.3 on refl
          (rw (plan_of-day s (s.warmup_day + 1) (some d.now)) (omega (arith, h))) in
      rw (run_days, good_day d last s good.0 good.1 good.2 on updated, more)
        ((rest.0, omega (arith, rest.1)))

  off_course :
      (ds : List Day) (last : ℕ) (s : Sender)
      → AreGood last ds
      → s.warmup_enabled ≡ true
      → s.warmup_last_update ≡ some last
      → s.warmup_day + length ds ≡ length (plan_of s) + 1
      → s.warmup_day ≤ length (plan_of s)
      → (run_days ds s).warmup_enabled ≡ false
  off_course [] last s good on updated h le = absurd (omega (arith, h, le))
  off_course (d ∷ []) last s good on updated h le =
      let done : leb (length (plan_of s)) s.warmup_day ≡ true = ground (arith, h) in
      rw (run_days, good_day d last s good.0 good.1 good.2 on updated, done) refl
  off_course (d ∷ e ∷ ds) last s good on updated h le =
      let more : leb (length (plan_of s)) s.warmup_day ≡ false = ground (arith, h) in
      let next : Sender = record s {
        warmup_day = s.warmup_day + 1;
        warmup_last_update = some d.now;
      } in
      let same = plan_of-day s (s.warmup_day + 1) (some d.now) in
      rw (run_days, good_day d last s good.0 good.1 good.2 on updated, more)
        ((off_course (e ∷ ds) d.now next good.3 on refl (rw same (omega (arith, h)))
          (rw same (omega (arith, h)))))

  -- A sender in its warmup that has only days with rates inside the limits, each 24 hours or more after
  -- the one before and with a save that succeeds, leaves the warmup after exactly the days that its plan
  -- has left, and one more: until then the day counts up by one each day and the warmup stays on, and
  -- the day after that it is off.
  pub warmup_completes :
      (ds : List Day) (last : ℕ) (s : Sender) (n : ℕ)
      → AreGood last ds
      → length ds ≡ n + 1
      → s.warmup_enabled ≡ true
      → s.warmup_last_update ≡ some last
      → s.warmup_day + n ≡ length (plan_of s)
      → ((k : ℕ)
          → k ≤ n
          → ((run_days (take k ds) s).warmup_enabled ≡ true)
            × ((run_days (take k ds) s).warmup_day ≡ s.warmup_day + k))
        × ((run_days ds s).warmup_enabled ≡ false)
  warmup_completes ds last s n good days on updated e = (
    λ k le.
        let len = length-take k ds (omega (arith, days)) in
        let m =
          on_course (take k ds) last s (AreGood-take k last ds good) on updated
            (omega (arith, len, e)) in
        (m.0, omega (arith, m.1, len)),
    off_course ds last s good on updated (omega (arith, days, e)) (omega (arith, e)),
  )
