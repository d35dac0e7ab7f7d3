-- ===== src/Automation/Cycles.antt =====
-- internal/core/automation_engine.go: workflows that `executeFromNode` never leaves.
use sampmail.Prelude.{
  ℕ, zero, suc, ◌≡◌, refl, ◌⊎◌, inl, inr, true, none, some, List, [], ◌∷◌, Text, text_eq, ◌==◌,
  ==_iff, ◌&&◌, arith, Bool-cases, Option-cases,
}
use sampmail.Prelude.Map
use mathlib.Core.Path.{subst, sym}
use sampmail.Automation.{
  Node, Edge, Run, save_run, log_completed, History, Services, Workflow, kind_of, find_next_nodes,
  follows,
}
use sampmail.Automation.Values.{Floats}
use sampmail.Automation.Nodes.{done, execute_node}
use sampmail.Automation.Walk.{Visit, visit_all, continue_at, settle, visit_node, execute_from}
use sampmail.Automation.Invariant.{moved}
use sampmail.Automation.Termination.{PassesOn, execute_kind-PassesOn}

-- An edge without a label leads from one node to the other.
abbrev pub JoinsUnlabelled : List Edge → Text → Text → Type 0
JoinsUnlabelled [] a b = ⊥
JoinsUnlabelled (e ∷ es) a b =
    ((e.source ≡ a) × (e.target ≡ b) × (e.source_handle ≡ [])) ⊎ JoinsUnlabelled es a b

abbrev Holds : Text → List Text → Type 0
Holds m [] = ⊥
Holds m (t ∷ ts) = (t ≡ m) ⊎ Holds m ts

find_next_nodes-Holds :
    (es : List Edge) (n m : Text) → JoinsUnlabelled es n m → Holds m (find_next_nodes es n [])
unfolding find_next_nodes
find_next_nodes-Holds [] n m j = absurd j
find_next_nodes-Holds (e ∷ es) n m (inl j) =
    let from : (e.source == n) ≡ true = (==_iff e.source n).1 j.0 in
    let plain : (e.source_handle == []) ≡ true = (==_iff e.source_handle []).1 j.2 in
    let taken : (e.source == n && follows [] e.source_handle) ≡ true =
      ground (arith, from, plain) in
    rw taken (inl j.1)
find_next_nodes-Holds (e ∷ es) n m (inr j) =
    let rest = find_next_nodes-Holds es n m j in
    elim (Bool-cases (e.source == n && follows [] e.source_handle)) [
      | inl taken ↦ rw taken (inr rest)
      | inr left ↦ rw left rest
    ]

module _ {F : Type 0} where
  visit_all-eq-none :
      (visit : Visit F) (m : Text)
      → ((run : Run) (h : History F) → visit run m h ≡ none)
      → (ns : List Text) (run : Run) (h : History F) → Holds m ns
      → visit_all visit ns run h ≡ none
  unfolding visit_all
  visit_all-eq-none visit m stuck [] run h held = absurd held
  visit_all-eq-none visit m stuck (n ∷ ns) run h (inl e) =
      let k : visit (moved run n) n (save_run (moved run n) ∷ h) ≡ none =
        subst (λ t. visit (moved run n) t (save_run (moved run n) ∷ h) ≡ none) (sym e)
          (stuck (moved run n) (save_run (moved run n) ∷ h)) in
      rw (k, visit_all)
  visit_all-eq-none visit m stuck (n ∷ ns) run h (inr held) =
      elim (Option-cases (visit (moved run n) n (save_run (moved run n) ∷ h))) [
        | inl e ↦ rw (e, visit_all)
        | inr (r, e) ↦ rw (e, visit_all) (visit_all-eq-none visit m stuck ns r.0 r.1 held)
      ]

module _ {F : Type 0} (fl : Floats F) (sv : Services F) (wf : Workflow F) where
  continue_at-eq-none :
      (visit : Visit F) (m : Text)
      → ((run : Run) (h : History F) → visit run m h ≡ none)
      → (ns : List Text) (run : Run) (h : History F) → Holds m ns
      → continue_at fl sv wf visit ns run h ≡ none
  unfolding continue_at
  continue_at-eq-none visit m stuck [] run h held = absurd held
  continue_at-eq-none visit m stuck (n ∷ ns) run h held =
      visit_all-eq-none visit m stuck (n ∷ ns) run h held

  -- From each node of `C`, which passes on, an unlabelled edge leads to a node of `C`.
  abbrev pub GoesRound : (Text → Type 0) → Type 0
  GoesRound C =
      (n : Text)
      → C n
      → (node : Node F) × (Map.lookup n wf.nodes ≡ some node)
        × PassesOn (kind_of node.node_type)
        × ((m : Text) × C m × JoinsUnlabelled wf.edges n m)

  -- A workflow whose delays, triggers, goals and exits lead from one to another in a circle is never
  -- left: whatever depth of calls is allowed, and whatever the services answer, a walk that starts in
  -- the circle goes deeper, its delays notwithstanding.
  pub circle_never_ends :
      (C : Text → Type 0) (fuel : ℕ) (run : Run) (n : Text) (h : History F)
      → GoesRound C
      → C n
      → execute_from fl sv wf fuel run n h ≡ none
  unfolding execute_from visit_node execute_node settle
  circle_never_ends C zero run n h round c = refl
  circle_never_ends C (suc fuel) run n h round c =
      let (node, found, passes, (m, c', joins)) = round n c in
      let r = execute_node fl sv run node h in
      let out : r.2 ≡ done [] =
        execute_kind-PassesOn fl sv (kind_of node.node_type) run node h passes in
      let deeper =
        continue_at-eq-none (execute_from fl sv wf fuel) m
          (λ (run' : Run) (h' : History F). circle_never_ends C fuel run' m h' round c')
          (find_next_nodes wf.edges n []) r.0 (log_completed r.0.id n node.node_type ∷ r.1)
          (find_next_nodes-Holds wf.edges n m joins) in
      rw (found, visit_node) (rw out deeper)
