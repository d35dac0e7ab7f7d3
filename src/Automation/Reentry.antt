-- ===== src/Automation/Reentry.antt =====
-- internal/core/automation_engine.go: who enters a workflow, and which runs the scheduler goes on
-- with.
use sampmail.Prelude.{
  ℕ, suc, ◌≡◌, refl, ◌⊎◌, true, false, ◌≢◌, List, codes, some, [], ◌∷◌, Text, text_eq, nat_eq,
}
use sampmail.Prelude.Map
use sampmail.Prelude.Strings.{has_prefix}
use sampmail.Automation.{
  Node, Run, active, completed, Contact, Effect, create_run, count_entered, save_run, log_completed,
  count_completed, send_email, remove_scheduled, History, Services, Workflow, send, kind_of,
  find_next_nodes,
}
use sampmail.Automation.Values.{Floats}
use sampmail.Automation.Nodes.{execute_node, execute_kind, execute_send_email, content, rendered}
use sampmail.Automation.Walk.{
  Visit, finish, continue_at, settle, visit_node, execute_from, continue_run,
}
use sampmail.Automation.Engine.{
  Registry, new_run, due_ids, due_from, due_runs, continue_all, process_delayed_actions,
}
use sampmail.Automation.Reachable.{Since, Explains}

-- A node of the map with a trigger's type.
abbrev pub HasTriggerType : {F : Type 0} → List (Text × Node F) → Text → Type 0
HasTriggerType [] node = ⊥
HasTriggerType ((id, n) ∷ rest) node =
    ((id ≡ node) × (has_prefix n.node_type (codes "trigger_") ≡ true)) ⊎ HasTriggerType rest node

abbrev pub IsTrigger : {F : Type 0} → List (Text × Node F) → Text → Type 0
IsTrigger nodes node = HasTriggerType nodes node × (node ≢ [])

module _ {F : Type 0} (fl : Floats F) (sv : Services F) where
  -- What `admits` lets in.
  abbrev pub MayEnter : Workflow F → ℕ → History F → Type 0
  MayEnter wf contact h =
      (c : Contact F) × (sv.find_contact contact h ≡ some c)
      × (c.organization ≡ wf.organization)
      × ((wf.allow_reentry ≡ true) ⊎ (sv.count_runs wf.id contact (active ∷ completed ∷ []) h ≡ 0))

  -- The effects of a run: its creation alone, if it fails, or its creation, the count of those who
  -- entered, and a walk from the trigger.
  abbrev pub Entered : Workflow F → ℕ → Text → History F → History F → Type 0
  Entered wf contact node h h' =
      let e = create_run (new_run (sv.new_id h) wf.id contact node) in
      ((sv.succeeds e h ≡ false) × (h' ≡ e ∷ h))
      ⊎ ((sv.succeeds e h ≡ true) × Since (Explains wf node) (count_entered wf.id ∷ e ∷ h) h')

  -- What a last node that sends a mail does.
  mails_and_ends :
      (visit : Visit F) (wf : Workflow F) (run : Run) (n : Text) (node : Node F) (c : Contact F)
      (h : History F)
      → Map.lookup n wf.nodes ≡ some node
      → kind_of node.node_type ≡ send
      → find_next_nodes wf.edges n [] ≡ []
      → sv.find_contact run.contact h ≡ some c
      → ((e : Effect F) → sv.succeeds e h ≡ true)
      → visit_node fl sv wf visit run n h
        ≡ some (
            finish sv wf run (
              log_completed run.id n node.node_type
              ∷ send_email c.email
                  (rendered fl sv (content fl sv node.config c h).0 c h)
                  (rendered fl sv (content fl sv node.config c h).1 c h)
              ∷ h))
  unfolding visit_node settle continue_at execute_node execute_kind execute_send_email
  mails_and_ends visit wf run n node c h there kind last found calls =
      rw (there, visit_node)
        (rw kind (rw (found, execute_send_email) (rw (calls _) (rw last refl))))

  -- The run that the delayed queue gives is gone on with from its current node whatever its status is:
  -- where that is the last node and sends a mail, which a run that did not pause at its delay has
  -- already sent, the mail is sent again and the completion is counted again.
  pub due_run_mails_again :
      (fuel : ℕ) (rs : Registry F) (wf : Workflow F) (run : Run) (node : Node F) (c : Contact F)
      (h : History F)
      → sv.has_redis ≡ true
      → sv.due_in_redis 500 h ≡ some (run.id ∷ [])
      → sv.runs_by_id (run.id ∷ []) h ≡ some (run ∷ [])
      → Map.lookup run.automation rs ≡ some wf
      → Map.lookup run.current_node wf.nodes ≡ some node
      → kind_of node.node_type ≡ send
      → find_next_nodes wf.edges run.current_node [] ≡ []
      → sv.find_contact run.contact h ≡ some c
      → ((e : Effect F) → sv.succeeds e h ≡ true)
      → (ended : Run) × (process_delayed_actions fl sv (suc fuel) rs h
          ≡ some (
              remove_scheduled (run.id ∷ [])
              ∷ count_completed wf.id
              ∷ save_run ended
              ∷ log_completed run.id run.current_node node.node_type
              ∷ send_email c.email
                  (rendered fl sv (content fl sv node.config c h).0 c h)
                  (rendered fl sv (content fl sv node.config c h).1 c h)
              ∷ h))
        × (ended.status ≡ completed)
  unfolding process_delayed_actions continue_all continue_run execute_from finish due_runs due_from
  due_run_mails_again fuel rs wf run node c h redis due fetched registered there kind last found
        calls =
      let walked =
        mails_and_ends (execute_from fl sv wf fuel) wf run run.current_node node c h there kind last
          found calls in
      let ids : due_ids fl sv h ≡ run.id ∷ [] = rw redis (rw due refl) in
      let runs : due_runs fl sv h ≡ some (run ∷ []) = rw ids fetched in
      (
        record run {
          status = completed;
          completed_at = some (
              sv.now (
                log_completed run.id run.current_node node.node_type
                ∷ send_email c.email (rendered fl sv (content fl sv node.config c h).0 c h)
                    (rendered fl sv (content fl sv node.config c h).1 c h)
                ∷ h));
        },
        rw (runs, process_delayed_actions)
            (rw (registered, continue_all) (rw (walked, continue_all) (rw redis refl))),
        refl,
      )
