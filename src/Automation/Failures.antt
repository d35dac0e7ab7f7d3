-- ===== src/Automation/Failures.antt =====
-- internal/core/automation_engine.go: how a run's errors are counted, and when a run is failed.
use sampmail.Prelude.{
  ℕ, ◌+◌, ◌≤◌, ◌≡◌, refl, ◌≢◌, leb→le, Option, some, List, [], ◌∷◌, Text, All, text_eq, arith,
  Bool-cases, Option-cases, inl, inr, leb, codes,
}
use mathlib.Core.Path.{subst}
use sampmail.Automation.{
  Node, Run, Status, active, waiting, completed, failed, Failure, Effect, save_run, log_completed,
  log_failed, count_completed, create_run, count_entered, send_email, create_tag, delete_tag,
  trigger_tag_added, set_field, set_score, post, schedule, set_conversion_rate, remove_scheduled,
  History, Services, Workflow, Kind, trigger, send, add_tag, remove_tag, update_field, webhook,
  score, delay, condition, ab_split, goal, exit, unknown, kind_of, find_next_nodes,
}
use sampmail.Automation.Values.{Floats, get_int}
use sampmail.Automation.Nodes.{
  Outcome, done, fails, execute_node, execute_kind, execute_send_email, execute_add_tag,
  execute_remove_tag, execute_update_field, execute_webhook, execute_update_score, execute_delay,
  execute_condition, execute_ab_split,
}
use sampmail.Automation.Walk.{after_failure, finish, execute_from}
use sampmail.Automation.Invariant.{IsKept, After, execute_from-Keeps}

module _ {F : Type 0} where
  -- 1 for a log entry of a node that failed.
  abbrev pub failures_of : Effect F → ℕ
  failures_of (log_failed run n node_type failure) = 1
  failures_of (log_completed run n node_type) = 0
  failures_of (create_run r) = 0
  failures_of (save_run r) = 0
  failures_of (count_entered a) = 0
  failures_of (count_completed a) = 0
  failures_of (send_email to subject body) = 0
  failures_of (create_tag c t) = 0
  failures_of (delete_tag c t) = 0
  failures_of (trigger_tag_added c t n) = 0
  failures_of (set_field c f v) = 0
  failures_of (set_score c u) = 0
  failures_of (post m u r) = 0
  failures_of (schedule r t) = 0
  failures_of (set_conversion_rate a) = 0
  failures_of (remove_scheduled rs) = 0

  pub logged_failures : History F → ℕ
  logged_failures [] = 0
  logged_failures (e ∷ h) = failures_of e + logged_failures h

-- A failed run has three errors at least.
abbrev pub FailsAtThree : Status → ℕ → Type 0
FailsAtThree failed errors = 3 ≤ errors
FailsAtThree active errors = Unit {0}
FailsAtThree waiting errors = Unit {0}
FailsAtThree completed errors = Unit {0}

-- The errors of a run that began with the status `begun` and `errors` of them in the history `h0`.
pub record IsCounted {F : Type 0} (begun : Status) (errors : ℕ) (h0 : History F) (run : Run)
    (h : History F) : Type 0 where
  pub counted : logged_failures h + errors ≡ logged_failures h0 + run.error_count
  pub three : begun ≢ failed → FailsAtThree run.status run.error_count

grows : (s : Status) (errors : ℕ) → FailsAtThree s errors → FailsAtThree s (errors + 1)
grows failed errors h = omega arith
grows active errors h = tt
grows waiting errors h = tt
grows completed errors h = tt

unfailed : (s : Status) (errors : ℕ) → s ≢ failed → FailsAtThree s errors
unfailed failed errors h = absurd (h refl)
unfailed active errors h = tt
unfailed waiting errors h = tt
unfailed completed errors h = tt

everywhere : (ts : List Text) → All (λ _. Unit {0}) ts
everywhere [] = tt
everywhere (t ∷ ts) = (tt, everywhere ts)

module _ {F : Type 0} (fl : Floats F) (sv : Services F) (wf : Workflow F) (begun : Status)
    (errors : ℕ) (h0 : History F) where
  quiet :
      {run : Run} {h : History F} (e : Effect F)
      → failures_of e ≡ 0
      → IsCounted begun errors h0 run h
      → IsCounted begun errors h0 run (e ∷ h)
  unfolding logged_failures
  quiet e none_of c = record { counted = omega (arith, c.counted, none_of); three = c.three }

  waits :
      {run : Run} {h : History F} (next : Option ℕ)
      → IsCounted begun errors h0 run h
      → IsCounted begun errors h0 (record run { next_action_at = some next; status = waiting }) h
  waits next c = record { counted = c.counted; three = λ g. tt }

  execute_kind-IsCounted :
      (k : Kind) (run : Run) (node : Node F) (h : History F)
      → IsCounted begun errors h0 run h
      → IsCounted begun errors h0
          (execute_kind fl sv k run node.config h).0
          (execute_kind fl sv k run node.config h).1
  unfolding execute_kind execute_send_email execute_add_tag execute_remove_tag execute_update_field
      execute_webhook execute_update_score execute_delay execute_condition execute_ab_split
      logged_failures
  execute_kind-IsCounted trigger run node h c = c
  execute_kind-IsCounted send run node h c = elim (Option-cases (sv.find_contact run.contact h)) [
    | inl e ↦ rw (e, execute_send_email) c
    | inr (_, e) ↦ rw (e, execute_send_email) (quiet _ refl c)
  ]
  execute_kind-IsCounted add_tag run node h c =
      elim (Bool-cases
        (sv.succeeds (create_tag run.contact (get_int fl node.config (codes "tag_id"))) h)) [
          | inl e ↦ rw (e, execute_add_tag) (quiet _ refl (quiet _ refl c))
          | inr e ↦ rw (e, execute_add_tag) (quiet _ refl c)
        ]
  execute_kind-IsCounted remove_tag run node h c = quiet _ refl c
  execute_kind-IsCounted update_field run node h c = quiet _ refl c
  execute_kind-IsCounted webhook run node h c = quiet _ refl c
  execute_kind-IsCounted score run node h c = quiet _ refl c
  execute_kind-IsCounted delay run node h c = elim (Bool-cases sv.has_redis) [
    | inl e ↦ rw (e, execute_delay) (quiet _ refl (quiet _ refl (waits _ c)))
    | inr e ↦ rw (e, execute_delay) (quiet _ refl (waits _ c))
  ]
  execute_kind-IsCounted condition run node h c =
      elim (Option-cases (sv.find_contact run.contact h)) [
        | inl e ↦ rw (e, execute_condition) c
        | inr (_, e) ↦ rw (e, execute_condition) c
      ]
  execute_kind-IsCounted ab_split run node h c = c
  execute_kind-IsCounted goal run node h c = quiet _ refl c
  execute_kind-IsCounted exit run node h c = c
  execute_kind-IsCounted unknown run node h c = c

  after_failure-IsCounted :
      (run : Run) (n : Text) (node : Node F) (failure : Failure) (h : History F)
      → IsCounted begun errors h0 run h
      → IsCounted begun errors h0
          (after_failure run n node failure h).0
          (after_failure run n node failure h).1
  unfolding after_failure logged_failures
  after_failure-IsCounted run n node failure h c = elim (Bool-cases (leb 3 (run.error_count + 1))) [
    | inl e ↦
        rw (e, after_failure)
          (record { counted = omega (arith, c.counted); three = λ g. leb→le _ _ e })
    | inr e ↦
        rw (e, after_failure)
          (record {
            counted = omega (arith, c.counted);
            three = λ g. grows run.status run.error_count (c.three g);
          })
  ]

  finish-IsCounted :
      (run : Run) (h : History F)
      → IsCounted begun errors h0 run h
      → IsCounted begun errors h0 (finish sv wf run h).0 (finish sv wf run h).1
  unfolding finish
  finish-IsCounted run h c =
      quiet _ refl (quiet _ refl (record { counted = c.counted; three = λ g. tt }))

  After-IsCounted :
      (run : Run) (n : Text) (node : Node F) (h : History F) (out : Outcome)
      → IsCounted begun errors h0 run h
      → After fl sv wf (IsCounted begun errors h0) (λ _. Unit {0}) n node run h out
  After-IsCounted run n node h (fails failure) c = after_failure-IsCounted run n node failure h c
  After-IsCounted run n node h (done branch) c =
      (quiet _ refl c, everywhere (find_next_nodes wf.edges n branch))

  kept : IsKept fl sv wf (IsCounted begun errors h0) (λ _. Unit {0})
  unfolding execute_node
  kept = record {
    moves = λ run n h c. quiet _ refl (record { counted = c.counted; three = c.three });
    finishes = finish-IsCounted;
    executes = λ run n node h q found c.
        After-IsCounted (execute_node fl sv run node h).0 n node (execute_node fl sv run node h).1
          (execute_node fl sv run node h).2
          (execute_kind-IsCounted (kind_of node.node_type) run node h c);
  }

-- Whatever the services answer, a walk that ends has added to the run's errors one for each failure
-- that it logged, and neither lost nor added another; and if the run did not begin as failed, it is
-- failed at the end only with three errors at least.
pub walk_errors :
    {F : Type 0} (fl : Floats F) (sv : Services F) (wf : Workflow F) (fuel : ℕ) (run : Run)
    (n : Text) (h : History F) (r : Run × History F)
    → execute_from fl sv wf fuel run n h ≡ some r
    → (logged_failures r.1 + run.error_count ≡ logged_failures h + r.0.error_count)
      × (run.status ≢ failed → r.0.status ≡ failed → 3 ≤ r.0.error_count)
walk_errors fl sv wf fuel run n h r e =
    let c =
      execute_from-Keeps fl sv wf (IsCounted run.status run.error_count h) (λ _. Unit {0})
        (kept fl sv wf run.status run.error_count h) fuel run n h r tt
        (record { counted = refl; three = unfailed run.status run.error_count }) e in
    (c.counted, λ sound bad. subst (λ s. FailsAtThree s r.0.error_count) bad (c.three sound))
