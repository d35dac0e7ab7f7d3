-- ===== src/Automation/Delays.antt =====
-- internal/core/automation_engine.go: what a delay does to the walk that meets it. `executeDelay`
-- marks the run as waiting, and the walk goes on at once.
use sampmail.Prelude.{
  ℕ, zero, suc, ◌<◌, ◌≡◌, refl, ◌≢◌, true, Option, none, some, List, [], ◌∷◌, Text, codes, All,
  text_eq, arith, Option-cases, inl, inr,
}
use sampmail.Prelude.Map
use sampmail.Prelude.{if◌then◌else◌}
use sampmail.Automation.{
  Node, Edge, Run, completed, Failure, Contact, Effect, save_run, log_completed, create_tag,
  History, Services, Workflow, Kind, trigger, send, add_tag, remove_tag, update_field, webhook,
  score, delay, condition, ab_split, goal, exit, unknown, kind_of, find_next_nodes,
}
use sampmail.Automation.Values.{Floats, get_int}
use sampmail.Automation.Nodes.{
  Outcome, done, fails, execute_node, execute_kind, execute_send_email, execute_add_tag,
  execute_remove_tag, execute_update_field, execute_webhook, execute_update_score, execute_delay,
  execute_condition, execute_ab_split,
}
use sampmail.Automation.Walk.{
  Visit, visit_all, finish, continue_at, settle, visit_node, execute_from,
}
use sampmail.Automation.Invariant.{moved}
use sampmail.Automation.Termination.{find_next_nodes-All}

-- Every call succeeds and every contact is there.
pub record NeverFail {F : Type 0} (sv : Services F) : Type 0 where
  pub calls : (e : Effect F) (h : History F) → sv.succeeds e h ≡ true
  pub contacts : (c : ℕ) (h : History F) → (found : Contact F) × (sv.find_contact c h ≡ some found)

-- The workflow has the node, of a kind that the engine knows.
abbrev pub IsKnown : {F : Type 0} → Workflow F → Text → Type 0
IsKnown {F} wf n =
    (node : Node F) × (Map.lookup n wf.nodes ≡ some node) × (kind_of node.node_type ≢ unknown)

-- Along every edge the rank falls, to a node that is known.
abbrev pub IsSound : {F : Type 0} → Workflow F → (Text → ℕ) → Type 0
IsSound wf rank = All (λ (e : Edge). (rank e.target < rank e.source) × IsKnown wf e.target) wf.edges

-- The walk has ended and the run is completed.
abbrev pub Completes : {F : Type 0} → Option (Run × History F) → Type 0
Completes none = ⊥
Completes (some r) = r.0.status ≡ completed

abbrev pub IsDone : Outcome → Type 0
IsDone (done branch) = Unit {0}
IsDone (fails failure) = ⊥

below : {a b c : ℕ} → a < b → b < suc c → a < c
below p q = omega arith

module _ {F : Type 0} where
  visit_all-Completes :
      (visit : Visit F) (P : Text → Type 0)
      → ((run : Run) (n : Text) (h : History F) → P n → Completes (visit run n h))
      → (n : Text) (ns : List Text) (run : Run) (h : History F) → All P (n ∷ ns)
      → Completes (visit_all visit (n ∷ ns) run h)
  unfolding visit_all
  visit_all-Completes visit P ends n [] run h ps =
      let end = ends (moved run n) n (save_run (moved run n) ∷ h) ps.0 in
      elim (Option-cases (visit (moved run n) n (save_run (moved run n) ∷ h))) [
        | inl stuck ↦ absurd (rw stuck at end)
        | inr (r, got) ↦ rw (got, visit_all) (rw got at end)
      ]
  visit_all-Completes visit P ends n (m ∷ ns) run h ps =
      let end = ends (moved run n) n (save_run (moved run n) ∷ h) ps.0 in
      elim (Option-cases (visit (moved run n) n (save_run (moved run n) ∷ h))) [
        | inl stuck ↦ absurd (rw stuck at end)
        | inr (r, got) ↦ rw (got, visit_all) (visit_all-Completes visit P ends m ns r.0 r.1 ps.1)
      ]

module _ {F : Type 0} (fl : Floats F) (sv : Services F) (fine : NeverFail sv) where
  answered :
      (e : Effect F) (failure : Failure) (h : History F)
      → IsDone (if sv.succeeds e h then done [] else fails failure)
  answered e failure h = rw (fine.calls e h) tt

  execute_kind-IsDone :
      (k : Kind) (run : Run) (node : Node F) (h : History F)
      → k ≢ unknown
      → IsDone (execute_kind fl sv k run node.config h).2
  unfolding execute_kind execute_send_email execute_add_tag execute_remove_tag execute_update_field
      execute_webhook execute_update_score execute_delay execute_condition execute_ab_split
  execute_kind-IsDone trigger run node h k = tt
  execute_kind-IsDone send run node h k =
      let (c, e) = fine.contacts run.contact h in rw (e, execute_send_email) (answered _ _ h)
  execute_kind-IsDone add_tag run node h k =
      let e = fine.calls (create_tag run.contact (get_int fl node.config (codes "tag_id"))) h in
      rw (e, execute_add_tag) tt
  execute_kind-IsDone remove_tag run node h k = answered _ _ h
  execute_kind-IsDone update_field run node h k = answered _ _ h
  execute_kind-IsDone webhook run node h k = answered _ _ h
  execute_kind-IsDone score run node h k = answered _ _ h
  execute_kind-IsDone delay run node h k = tt
  execute_kind-IsDone condition run node h k =
      let (c, e) = fine.contacts run.contact h in rw (e, execute_condition) tt
  execute_kind-IsDone ab_split run node h k = tt
  execute_kind-IsDone goal run node h k = tt
  execute_kind-IsDone exit run node h k = tt
  execute_kind-IsDone unknown run node h k = absurd (k refl)

  module _ (wf : Workflow F) where
    continue_at-Completes :
        (visit : Visit F) (P : Text → Type 0)
        → ((run : Run) (n : Text) (h : History F) → P n → Completes (visit run n h))
        → (ns : List Text) (run : Run) (h : History F) → All P ns
        → Completes (continue_at fl sv wf visit ns run h)
    unfolding continue_at finish
    continue_at-Completes visit P ends [] run h ps = refl
    continue_at-Completes visit P ends (n ∷ ns) run h ps =
        visit_all-Completes visit P ends n ns run h ps

    settle-Completes :
        (visit : Visit F) (P : Text → Text → Type 0) (n : Text) (node : Node F) (run : Run)
        (h : History F) (out : Outcome)
        → All (λ (e : Edge). P e.source e.target) wf.edges
        → ((run : Run) (m : Text) (h : History F) → P n m → Completes (visit run m h))
        → IsDone out
        → Completes (settle fl sv wf visit n node run h out)
    unfolding settle
    settle-Completes visit P n node run h (fails failure) along ends d = absurd d
    settle-Completes visit P n node run h (done branch) along ends d =
        continue_at-Completes visit (P n) ends (find_next_nodes wf.edges n branch) run
          (log_completed run.id n node.node_type ∷ h)
          (find_next_nodes-All P wf.edges n branch along)

    -- In a workflow without cycles, whose edges lead to nodes that are there and of a kind that the
    -- engine knows, a walk from such a node ends with the run completed if every call succeeds, in a
    -- depth of calls above the node's rank. So no delay on the way holds the run back: it is not left
    -- waiting.
    pub walk-Completes :
        (rank : Text → ℕ) (fuel : ℕ) (run : Run) (n : Text) (h : History F)
        → IsSound wf rank
        → IsKnown wf n
        → rank n < fuel
        → Completes (execute_from fl sv wf fuel run n h)
    unfolding execute_from visit_node execute_node
    walk-Completes rank zero run n h sound known enough = absurd (omega arith)
    walk-Completes rank (suc fuel) run n h sound known enough =
        let (node, found, kind) = known in
        let r = execute_node fl sv run node h in
        let ends =
          λ (run' : Run) (m : Text) (h' : History F) (p : (rank m < rank n) × IsKnown wf m).
            walk-Completes rank fuel run' m h' sound p.1 (below p.0 enough) in
        rw (found, visit_node)
          (settle-Completes (execute_from fl sv wf fuel) (λ a b. (rank b < rank a) × IsKnown wf b) n
            node r.0 r.1 r.2 sound ends
            (execute_kind-IsDone (kind_of node.node_type) run node h kind))
