-- ===== src/Automation/Engine.antt =====
-- internal/core/automation_engine.go: the registry of workflows, the contacts that enter one, and the
-- delays that are over. What the code starts with `go` is run here to its end, in the order it is
-- started. A map's order is the order of the list, so what is proved for every list is proved for
-- every order in which Go may iterate.
use sampmail.Prelude.{
  ℕ, Bool, true, false, not, Option, none, some, List, [], ◌∷◌, ◌++◌, Text, codes, ltb, ◌==◌,
  text_eq, nat_eq, if◌then◌else◌,
}
use sampmail.Prelude.Map
use sampmail.Prelude.Strings.{has_prefix}
use sampmail.Automation.{
  Node, Run, active, completed, create_run, count_entered, remove_scheduled, History, Services,
  Workflow,
}
use sampmail.Automation.Values.{Floats}
use sampmail.Automation.Walk.{execute_from, continue_run}

-- NewWorkflowRunner: the map of the parsed nodes, by their ids.
unfoldable pub nodes_of : {F : Type 0} → List (Node F) → List (Text × Node F) → List (Text × Node F)
nodes_of [] m = m
nodes_of (n ∷ ns) m = nodes_of ns (Map.insert n.id n m)

unfoldable pub first_trigger : {F : Type 0} → List (Text × Node F) → Option Text
first_trigger [] = none
first_trigger ((id, node) ∷ rest) =
    let later = first_trigger rest in
    if has_prefix node.node_type (codes "trigger_") then some id else later

abbrev pub not_empty : Option Text → Option Text
not_empty none = none
not_empty (some []) = none
not_empty (some (c ∷ cs)) = some (c ∷ cs)

-- The empty text stands for no trigger.
unfoldable pub find_trigger : {F : Type 0} → List (Text × Node F) → Option Text
unfolding first_trigger
find_trigger nodes = not_empty (first_trigger nodes)

-- A run as EnterContact makes it; the database gives the id.
abbrev pub new_run : ℕ → ℕ → ℕ → Text → Run
new_run id automation contact node = record {
  id = id;
  automation = automation;
  contact = contact;
  current_node = node;
  status = active;
  nodes_visited = node ∷ [];
  completed_at = none;
  next_action_at = none;
  error_count = 0;
  last_error = none;
}

abbrev pub Registry : Type 0 → Type 0
Registry F = List (ℕ × Workflow F)

module _ {F : Type 0} where
  unfoldable pub register_workflow : Workflow F → Registry F → Registry F
  register_workflow wf rs = Map.insert wf.id wf rs

  unfoldable pub unregister_workflow : ℕ → Registry F → Registry F
  unregister_workflow id rs = Map.remove id rs

  unfoldable pub matches_trigger : Workflow F → Text → Bool
  matches_trigger wf event = wf.trigger_type == event

-- The history that a call leaves.
abbrev pub left : {F A : Type 0} → Option (A × History F) → Option (History F)
left none = none
left (some (a, h)) = some h

module _ {F : Type 0} (fl : Floats F) (sv : Services F) where
  -- The checks of EnterContact before it looks for a trigger.
  unfoldable pub admits : Workflow F → ℕ → History F → Bool
  admits wf contact h = elim (sv.find_contact contact h) [
    | none ↦ false
    | some c ↦
        if not (c.organization == wf.organization)
        then false
        else if wf.allow_reentry
        then true
        else not (ltb 0 (sv.count_runs wf.id contact (active ∷ completed ∷ []) h))
  ]

  -- From the creation of the run on.
  unfoldable pub begin_run : ℕ → Workflow F → ℕ → Text → History F → Option (History F)
  begin_run fuel wf contact node h =
      let run = new_run (sv.new_id h) wf.id contact node in
      let e = create_run run in
      let rest = left (execute_from fl sv wf fuel run node (count_entered wf.id ∷ e ∷ h)) in
      if sv.succeeds e h then rest else some (e ∷ h)

  unfoldable pub enter_contact : ℕ → Workflow F → ℕ → History F → Option (History F)
  unfolding begin_run admits
  enter_contact fuel wf contact h =
      if admits wf contact h
      then elim (find_trigger wf.nodes) [
        | none ↦ some h
        | some node ↦ begin_run fuel wf contact node h
      ]
      else some h

  unfoldable pub trigger_event : ℕ → Registry F → Text → ℕ → History F → Option (History F)
  unfolding enter_contact matches_trigger
  trigger_event fuel [] event contact h = some h
  trigger_event fuel ((id, wf) ∷ rs) event contact h =
      elim (if matches_trigger wf event then enter_contact fuel wf contact h else some h) [
        | none ↦ none
        | some h' ↦ trigger_event fuel rs event contact h'
      ]

  -- The run ids that the delayed queue gives, none where it fails or is not there.
  abbrev pub due_ids : History F → List ℕ
  due_ids h =
      if sv.has_redis then elim (sv.due_in_redis 500 h) [ none ↦ [] | some ids ↦ ids ] else []

  unfoldable pub due_from : List ℕ → History F → Option (List Run)
  due_from [] h = sv.waiting_runs 100 h
  due_from (id ∷ ids) h = sv.runs_by_id (id ∷ ids) h

  -- The runs to go on with: those of the queue by their ids, or those that wait in the database.
  unfoldable pub due_runs : History F → Option (List Run)
  unfolding due_from
  due_runs h = due_from (due_ids h) h

  -- The loop over the due runs, with the ids of those whose workflow is registered.
  unfoldable pub continue_all :
      ℕ → Registry F → List Run → List ℕ → History F → Option (List ℕ × History F)
  continue_all fuel rs [] ids h = some (ids, h)
  continue_all fuel rs (run ∷ runs) ids h = elim (Map.lookup run.automation rs) [
    | none ↦ continue_all fuel rs runs ids h
    | some wf ↦ elim (continue_run fl sv wf fuel run h) [
      | none ↦ none
      | some r ↦ continue_all fuel rs runs (ids ++ run.id ∷ []) r.1
    ]
  ]

  abbrev pub forget : List ℕ → History F → History F
  forget [] h = h
  forget (id ∷ ids) h = if sv.has_redis then remove_scheduled (id ∷ ids) ∷ h else h

  unfoldable pub process_delayed_actions : ℕ → Registry F → History F → Option (History F)
  unfolding due_runs continue_all
  process_delayed_actions fuel rs h = elim (due_runs h) [
    | none ↦ some h
    | some runs ↦ elim (continue_all fuel rs runs [] h) [
      | none ↦ none
      | some (ids, h') ↦ some (forget ids h')
    ]
  ]
