-- ===== src/Automation/Walk.antt =====
-- internal/core/automation_engine.go: `executeFromNode`, which goes from a node to those that follow.
-- It calls itself, with nothing that bounds the depth: the fuel is the depth of calls, and `none`
-- says that a deeper call was made. The run is mutated in place, so each call hands it on.
use sampmail.Prelude.{
  ℕ, zero, suc, ◌+◌, Option, none, some, List, [], ◌∷◌, ◌++◌, Text, leb, text_eq, if◌then◌else◌,
}
use sampmail.Prelude.Map
use sampmail.Automation.{
  Node, Run, completed, failed, Failure, save_run, log_completed, log_failed, count_completed,
  History, Services, Workflow, find_next_nodes,
}
use sampmail.Automation.Values.{Floats}
use sampmail.Automation.Nodes.{Outcome, done, fails, execute_node}

-- One step of the code that the walk is built from: a run at a node, in a history.
abbrev pub Visit : Type 0 → Type 0
Visit F = Run → Text → History F → Option (Run × History F)

module _ {F : Type 0} where
  -- The loop over the next nodes.
  unfoldable pub visit_all : Visit F → List Text → Run → History F → Option (Run × History F)
  visit_all visit [] run h = some (run, h)
  visit_all visit (n ∷ ns) run h =
      let run' = record run { nodes_visited = run.nodes_visited ++ n ∷ []; current_node = n } in
      elim (visit run' n (save_run run' ∷ h)) [ none ↦ none | some r ↦ visit_all visit ns r.0 r.1 ]

  -- A node that failed: the third error ends the run, an earlier one leaves it as it is.
  unfoldable pub after_failure : Run → Text → Node F → Failure → History F → Run × History F
  after_failure run n node failure h =
      let run' = record run { error_count = run.error_count + 1; last_error = some failure } in
      let h' = log_failed run.id n node.node_type failure ∷ h in
      let run'' = record run' { status = failed } in
      if leb 3 run'.error_count then (run'', save_run run'' ∷ h') else (run', h')

  -- Nothing follows the node.
  unfoldable pub finish : Services F → Workflow F → Run → History F → Run × History F
  finish sv wf run h =
      let run' = record run { status = completed; completed_at = some (sv.now h) } in
      (run', count_completed wf.id ∷ save_run run' ∷ h)

module _ {F : Type 0} (fl : Floats F) (sv : Services F) (wf : Workflow F) where
  unfoldable pub continue_at : Visit F → List Text → Run → History F → Option (Run × History F)
  unfolding visit_all finish
  continue_at visit [] run h = some (finish sv wf run h)
  continue_at visit (n ∷ ns) run h = visit_all visit (n ∷ ns) run h

  -- What follows the execution of a node.
  unfoldable pub settle :
      Visit F → Text → Node F → Run → History F → Outcome → Option (Run × History F)
  unfolding continue_at after_failure
  settle visit n node run h (fails failure) = some (after_failure run n node failure h)
  settle visit n node run h (done branch) =
      continue_at visit (find_next_nodes wf.edges n branch) run
        (log_completed run.id n node.node_type ∷ h)

  abbrev pub settle_result :
      Visit F → Text → Node F → Run × History F × Outcome → Option (Run × History F)
  settle_result visit n node r = settle visit n node r.0 r.1 r.2

  -- The body of executeFromNode; a node that the workflow does not have ends the call.
  unfoldable pub visit_node : Visit F → Visit F
  unfolding settle
  visit_node visit run n h = elim (Map.lookup n wf.nodes) [
    | none ↦ some (run, h)
    | some node ↦ settle_result visit n node (execute_node fl sv run node h)
  ]

  unfoldable pub execute_from : ℕ → Visit F
  unfolding visit_node
  execute_from zero run n h = none
  execute_from (suc fuel) run n h = visit_node (execute_from fuel) run n h

  -- ContinueRun
  unfoldable pub continue_run : ℕ → Run → History F → Option (Run × History F)
  continue_run fuel run h = execute_from fuel run run.current_node h
