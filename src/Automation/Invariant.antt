-- ===== src/Automation/Invariant.antt =====
-- internal/core/automation_engine.go: the rule by which a property is carried through
-- `executeFromNode`, its loop and its recursion included.
use sampmail.Prelude.{
  ℕ, zero, suc, ◌≡◌, some, List, [], ◌∷◌, ◌++◌, Text, All, text_eq, Option-cases, inl, inr,
}
use sampmail.Prelude.Map
use mathlib.Core.Path.{subst}
use sampmail.Automation.{
  Node, Run, save_run, log_completed, History, Services, Workflow, find_next_nodes,
}
use sampmail.Automation.Values.{Floats}
use sampmail.Automation.Nodes.{Outcome, done, fails, execute_node}
use sampmail.Automation.Walk.{
  Visit, visit_all, after_failure, finish, continue_at, settle, visit_node, execute_from,
}

-- A run as the loop hands it to the next node.
abbrev pub moved : Run → Text → Run
moved run n = record run { nodes_visited = run.nodes_visited ++ n ∷ []; current_node = n }

module _ {F : Type 0} (I : Run → History F → Type 0) (Q : Text → Type 0) where
  -- What a call at a node that satisfies `Q` does to the property `I`.
  abbrev pub Keeps : Visit F → Type 0
  Keeps visit =
      (run : Run) (n : Text) (h : History F) (r : Run × History F)
      → Q n
      → I run h
      → visit run n h ≡ some r
      → I r.0 r.1

  abbrev pub Moves : Type 0
  Moves =
      (run : Run) (n : Text) (h : History F)
      → I run h
      → I (moved run n) (save_run (moved run n) ∷ h)

  pub visit_all-Keeps :
      (visit : Visit F)
      → Keeps visit
      → Moves
      → (ns : List Text) (run : Run) (h : History F) (r : Run × History F) → All Q ns
      → I run h
      → visit_all visit ns run h ≡ some r
      → I r.0 r.1
  unfolding visit_all
  visit_all-Keeps visit keeps moves [] run h r q i e =
      subst (λ (o : Run × History F). I o.0 o.1) (cc) i
  visit_all-Keeps visit keeps moves (n ∷ ns) run h r q i e =
      elim (Option-cases (visit (moved run n) n (save_run (moved run n) ∷ h))) [
        | inl stuck ↦ absurd (let f = rw (stuck, visit_all) at e in cc)
        | inr (r', got) ↦
            let i' =
              keeps (moved run n) n (save_run (moved run n) ∷ h) r' q.0 (moves run n h i) got in
            let e' = rw (got, visit_all) at e in
            visit_all-Keeps visit keeps moves ns r'.0 r'.1 r q.1 i' e'
      ]

-- What is left to show of one node for the property to hold of a whole walk.
module _ {F : Type 0} (fl : Floats F) (sv : Services F) (wf : Workflow F)
    (I : Run → History F → Type 0) (Q : Text → Type 0) where
  -- The property after a node, by its outcome.
  abbrev pub After : Text → Node F → Run → History F → Outcome → Type 0
  After n node run h (fails failure) = let r = after_failure run n node failure h in I r.0 r.1
  After n node run h (done branch) =
      I run (log_completed run.id n node.node_type ∷ h) × All Q (find_next_nodes wf.edges n branch)

  pub record IsKept : Type 0 where
    pub moves : Moves I Q
    pub finishes :
        (run : Run) (h : History F) → I run h → I (finish sv wf run h).0 (finish sv wf run h).1
    pub executes :
        (run : Run) (n : Text) (node : Node F) (h : History F)
        → Q n
        → Map.lookup n wf.nodes ≡ some node
        → I run h
        → After n node
            (execute_node fl sv run node h).0
            (execute_node fl sv run node h).1
            (execute_node fl sv run node h).2

  module _ (kept : IsKept) where
    continue_at-Keeps :
        (visit : Visit F)
        → Keeps I Q visit
        → (ns : List Text) (run : Run) (h : History F) (r : Run × History F) → All Q ns
        → I run h
        → continue_at fl sv wf visit ns run h ≡ some r
        → I r.0 r.1
    unfolding continue_at
    continue_at-Keeps visit keeps [] run h r q i e =
        subst (λ (o : Run × History F). I o.0 o.1) (cc) (kept.finishes run h i)
    continue_at-Keeps visit keeps (n ∷ ns) run h r q i e =
        visit_all-Keeps I Q visit keeps kept.moves (n ∷ ns) run h r q i e

    settle-Keeps :
        (visit : Visit F)
        → Keeps I Q visit
        → (n : Text) (node : Node F) (run : Run) (h : History F) (out : Outcome)
          (r : Run × History F)
        → After n node run h out
        → settle fl sv wf visit n node run h out ≡ some r
        → I r.0 r.1
    unfolding settle
    settle-Keeps visit keeps n node run h (fails failure) r a e =
        subst (λ (o : Run × History F). I o.0 o.1) (cc) a
    settle-Keeps visit keeps n node run h (done branch) r a e =
        continue_at-Keeps visit keeps (find_next_nodes wf.edges n branch) run
          (log_completed run.id n node.node_type ∷ h) r a.1 a.0 e

    visit_node-Keeps : (visit : Visit F) → Keeps I Q visit → Keeps I Q (visit_node fl sv wf visit)
    unfolding visit_node
    visit_node-Keeps visit keeps run n h r q i e = elim (Option-cases (Map.lookup n wf.nodes)) [
      | inl missing ↦
          let e' = rw (missing, visit_node) at e in
          subst (λ (o : Run × History F). I o.0 o.1) (cc) i
      | inr (node, found) ↦
          let e' = rw (found, visit_node) at e in
          settle-Keeps visit keeps n node (execute_node fl sv run node h).0
            (execute_node fl sv run node h).1 (execute_node fl sv run node h).2 r
            (kept.executes run n node h q found i) e'
    ]

    pub execute_from-Keeps : (fuel : ℕ) → Keeps I Q (execute_from fl sv wf fuel)
    unfolding execute_from
    execute_from-Keeps zero run n h r q i e = absurd (cc)
    execute_from-Keeps (suc fuel) run n h r q i e =
        visit_node-Keeps (execute_from fl sv wf fuel) (execute_from-Keeps fuel) run n h r q i e
