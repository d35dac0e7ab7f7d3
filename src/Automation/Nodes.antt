-- ===== src/Automation/Nodes.antt =====
-- internal/core/automation_engine.go: executing one node, `executeNode` with the function of each
-- kind. A result is the branch that it names, empty where it names none.
use sampmail.Prelude.{
  ℕ, ◌+◌, ◌-◌, ◌*◌, ◌%◌, Option, none, some, [], ◌∷◌, ◌++◌, Text, codes, ◌==◌, text_eq,
  if◌then◌else◌,
}
use sampmail.Prelude.Int.{ℤ, pos, pos_part, neg_part, ltb_ℤ, eqb_zero}
use sampmail.Automation.{
  JsonMap, Node, Run, waiting, Failure, unknown_node_type, contact_not_found, send_error,
  create_error, delete_error, update_error, request_error, Contact, Effect, save_run, send_email,
  create_tag, delete_tag, trigger_tag_added, set_field, set_score, post, schedule,
  set_conversion_rate, History, Services, Kind, trigger, send, add_tag, remove_tag, update_field,
  webhook, score, delay, condition, ab_split, goal, exit, unknown, kind_of,
}
use sampmail.Automation.Values.{
  Floats, get_string, get_int, get_value, field_of, evaluate_condition, branch_name, print_int,
}

pub data Outcome : Type 0 where
  done : Text → Outcome
  fails : Failure → Outcome

-- now.Add, in seconds; a time before 1970 is taken as 1970.
abbrev pub later_by : ℕ → ℤ → ℕ → ℕ
later_by now z unit = now + pos_part z * unit - neg_part z * unit

abbrev pub or_post : Text → Text
or_post method = if method == [] then codes "POST" else method

-- The SQL expression of the new score.
unfoldable pub score_update : Text → ℤ → Text
score_update action points =
    if action == codes "subtract"
    then codes "lead_score - " ++ print_int points
    else if action == codes "set"
    then print_int points
    else codes "lead_score + " ++ print_int points

abbrev pub or_half : ℤ → ℤ
or_half split = if eqb_zero split then pos 50 else split

unfoldable pub split_branch : ℕ → ℤ → Text
split_branch run split = if ltb_ℤ (pos (run % 100)) (or_half split) then codes "A" else codes "B"

module _ {F : Type 0} (fl : Floats F) (sv : Services F) where
  -- A call whose error is the node's error.
  abbrev pub attempt : Effect F → Failure → Run → History F → Run × History F × Outcome
  attempt e failure run h = (run, e ∷ h, if sv.succeeds e h then done [] else fails failure)

  abbrev pub rendered : Text → Contact F → History F → Text
  rendered s c h = elim (sv.render s c h) [ none ↦ s | some s' ↦ s' ]

  -- The subject and the body, from the template where there is one.
  abbrev pub content : JsonMap F → Contact F → History F → Text × Text
  content config c h =
      let own : Text × Text =
        (get_string fl config (codes "subject"), get_string fl config (codes "body")) in
      let template = get_int fl config (codes "template_id") in
      if eqb_zero template
      then own
      else elim (sv.find_template template c.organization h) [ none ↦ own | some t ↦ t ]

  unfoldable pub execute_send_email : Run → JsonMap F → History F → Run × History F × Outcome
  execute_send_email run config h = elim (sv.find_contact run.contact h) [
    | none ↦ (run, h, fails contact_not_found)
    | some c ↦
        let (subject, body) = content config c h in
        attempt (send_email c.email (rendered subject c h) (rendered body c h)) send_error run h
  ]

  unfoldable pub execute_add_tag : Run → JsonMap F → History F → Run × History F × Outcome
  execute_add_tag run config h =
      let tag = get_int fl config (codes "tag_id") in
      let name = get_string fl config (codes "tag_name") in
      let e = create_tag run.contact tag in
      if sv.succeeds e h
      then (run, trigger_tag_added run.contact tag name ∷ e ∷ h, done [])
      else (run, e ∷ h, fails create_error)

  unfoldable pub execute_remove_tag : Run → JsonMap F → History F → Run × History F × Outcome
  execute_remove_tag run config h =
      attempt (delete_tag run.contact (get_int fl config (codes "tag_id"))) delete_error run h

  unfoldable pub execute_update_field : Run → JsonMap F → History F → Run × History F × Outcome
  execute_update_field run config h =
      attempt
        (set_field run.contact (get_string fl config (codes "field"))
          (get_value fl config (codes "value")))
        update_error run h

  unfoldable pub execute_webhook : Run → JsonMap F → History F → Run × History F × Outcome
  execute_webhook run config h =
      attempt
        (post (or_post (get_string fl config (codes "method"))) (get_string fl config (codes "url"))
          run)
        request_error run h

  unfoldable pub execute_update_score : Run → JsonMap F → History F → Run × History F × Outcome
  execute_update_score run config h =
      attempt
        (set_score run.contact (
          score_update (get_string fl config (codes "action"))
            (get_int fl config (codes "points"))))
        update_error run h

  -- When a delay is over; `none` is the zero time, of a date that cannot be read.
  unfoldable pub delay_until : JsonMap F → ℕ → Option ℕ
  delay_until config now =
      let kind = get_string fl config (codes "delay_type") in
      let value = get_int fl config (codes "delay_value") in
      if kind == codes "hours"
      then some (later_by now value 3600)
      else if kind == codes "days"
      then some (later_by now value 86400)
      else if kind == codes "until_date"
      then sv.parse_date (get_string fl config (codes "date"))
      else some (later_by now value 60)

  unfoldable pub execute_delay : Run → JsonMap F → History F → Run × History F × Outcome
  unfolding delay_until
  execute_delay run config h =
      let next = delay_until config (sv.now h) in
      let h' = if sv.has_redis then schedule run.id next ∷ h else h in
      let run' = record run { next_action_at = some next; status = waiting } in
      (run', save_run run' ∷ h', done [])

  unfoldable pub execute_condition : Run → JsonMap F → History F → Run × History F × Outcome
  execute_condition run config h = elim (sv.find_contact run.contact h) [
    | none ↦ (run, h, fails contact_not_found)
    | some c ↦
        let holds =
          evaluate_condition fl (field_of fl c (get_string fl config (codes "field")))
            (get_string fl config (codes "operator")) (get_value fl config (codes "value")) in
        (run, h, done (branch_name holds))
  ]

  unfoldable pub execute_ab_split : Run → JsonMap F → History F → Run × History F × Outcome
  unfolding split_branch
  execute_ab_split run config h =
      (run, h, done (split_branch run.id (get_int fl config (codes "split_a"))))

  unfoldable pub execute_kind : Kind → Run → JsonMap F → History F → Run × History F × Outcome
  unfolding execute_send_email execute_add_tag execute_remove_tag execute_update_field
      execute_webhook execute_update_score execute_delay execute_condition execute_ab_split
  execute_kind trigger run config h = (run, h, done [])
  execute_kind send run config h = execute_send_email run config h
  execute_kind add_tag run config h = execute_add_tag run config h
  execute_kind remove_tag run config h = execute_remove_tag run config h
  execute_kind update_field run config h = execute_update_field run config h
  execute_kind webhook run config h = execute_webhook run config h
  execute_kind score run config h = execute_update_score run config h
  execute_kind delay run config h = execute_delay run config h
  execute_kind condition run config h = execute_condition run config h
  execute_kind ab_split run config h = execute_ab_split run config h
  execute_kind goal run config h = (run, set_conversion_rate run.automation ∷ h, done [])
  execute_kind exit run config h = (run, h, done [])
  execute_kind unknown run config h = (run, h, fails unknown_node_type)

  -- executeNode
  unfoldable pub execute_node : Run → Node F → History F → Run × History F × Outcome
  unfolding execute_kind kind_of
  execute_node run node h = execute_kind (kind_of node.node_type) run node.config h
