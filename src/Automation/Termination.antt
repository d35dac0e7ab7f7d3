-- ===== src/Automation/Termination.antt =====
-- internal/core/automation_engine.go: when `executeFromNode` ends. Nothing bounds its recursion but
-- the graph: a workflow without cycles ends, and one that can go round for ever does.
use sampmail.Prelude.{
  ℕ, zero, suc, ◌<◌, ◌≡◌, refl, inl, inr, Option, none, some, List, [], ◌∷◌, Text, All, text_eq,
  arith, Option-cases,
}
use sampmail.Prelude.Map
use mathlib.Core.Path.{subst}
use sampmail.Automation.{
  Node, Edge, Run, save_run, log_completed, History, Services, Workflow, Kind, trigger, send,
  add_tag, remove_tag, update_field, webhook, score, delay, condition, ab_split, goal, exit,
  unknown, find_next_nodes,
}
use sampmail.Automation.Values.{Floats}
use sampmail.Automation.Nodes.{Outcome, done, fails, execute_node, execute_kind, execute_delay}
use sampmail.Automation.Walk.{Visit, visit_all, continue_at, settle, visit_node, execute_from}
use sampmail.Automation.Invariant.{moved}
use sampmail.Automation.Reachable.{Joins, find_next_nodes-Joins}

-- A call with this result has ended.
abbrev pub Ends : {A : Type 0} → Option A → Type 0
Ends none = ⊥
Ends (some a) = Unit {0}

-- Along every edge the rank falls; a graph has such a rank exactly if it has no cycle.
abbrev pub IsAcyclic : (Text → ℕ) → List Edge → Type 0
IsAcyclic rank es = All (λ (e : Edge). rank e.target < rank e.source) es

along_edge :
    (P : Text → Text → Type 0) (es : List Edge) (a b : Text)
    → All (λ (e : Edge). P e.source e.target) es
    → Joins es a b
    → P a b
along_edge P [] a b h j = absurd j
along_edge P (e ∷ es) a b h (inl j) = subst (λ t. P t b) j.0 (subst (λ t. P e.source t) j.1 h.0)
along_edge P (e ∷ es) a b h (inr j) = along_edge P es a b h.1 j

along_edges :
    (P : Text → Text → Type 0) (es : List Edge) (a : Text) (ts : List Text)
    → All (λ (e : Edge). P e.source e.target) es
    → All (Joins es a) ts
    → All (P a) ts
along_edges P es a [] h js = tt
along_edges P es a (t ∷ ts) h js = (along_edge P es a t h js.0, along_edges P es a ts h js.1)

-- What holds along every edge holds of each node that follows.
pub find_next_nodes-All :
    (P : Text → Text → Type 0) (es : List Edge) (n branch : Text)
    → All (λ (e : Edge). P e.source e.target) es
    → All (P n) (find_next_nodes es n branch)
find_next_nodes-All P es n branch h =
    along_edges P es n (find_next_nodes es n branch) h (find_next_nodes-Joins es n branch)

-- The kinds of node that never fail and name no branch.
abbrev pub PassesOn : Kind → Type 0
PassesOn trigger = Unit {0}
PassesOn delay = Unit {0}
PassesOn goal = Unit {0}
PassesOn exit = Unit {0}
PassesOn send = ⊥
PassesOn add_tag = ⊥
PassesOn remove_tag = ⊥
PassesOn update_field = ⊥
PassesOn webhook = ⊥
PassesOn score = ⊥
PassesOn condition = ⊥
PassesOn ab_split = ⊥
PassesOn unknown = ⊥

module _ {F : Type 0} where
  visit_all-Ends :
      (visit : Visit F) (P : Text → Type 0)
      → ((run : Run) (n : Text) (h : History F) → P n → Ends (visit run n h))
      → (ns : List Text) (run : Run) (h : History F) → All P ns
      → Ends (visit_all visit ns run h)
  unfolding visit_all
  visit_all-Ends visit P ends [] run h ps = tt
  visit_all-Ends visit P ends (n ∷ ns) run h ps =
      elim (Option-cases (visit (moved run n) n (save_run (moved run n) ∷ h))) [
        | inl stuck ↦ absurd (rw stuck at (ends (moved run n) n (save_run (moved run n) ∷ h) ps.0))
        | inr (r, got) ↦ rw (got, visit_all) (visit_all-Ends visit P ends ns r.0 r.1 ps.1)
      ]

module _ {F : Type 0} (fl : Floats F) (sv : Services F) where
  pub execute_kind-PassesOn :
      (k : Kind) (run : Run) (node : Node F) (h : History F)
      → PassesOn k
      → (execute_kind fl sv k run node.config h).2 ≡ done []
  unfolding execute_kind execute_delay
  execute_kind-PassesOn trigger run node h p = refl
  execute_kind-PassesOn delay run node h p = refl
  execute_kind-PassesOn goal run node h p = refl
  execute_kind-PassesOn exit run node h p = refl
  execute_kind-PassesOn send run node h p = absurd p
  execute_kind-PassesOn add_tag run node h p = absurd p
  execute_kind-PassesOn remove_tag run node h p = absurd p
  execute_kind-PassesOn update_field run node h p = absurd p
  execute_kind-PassesOn webhook run node h p = absurd p
  execute_kind-PassesOn score run node h p = absurd p
  execute_kind-PassesOn condition run node h p = absurd p
  execute_kind-PassesOn ab_split run node h p = absurd p
  execute_kind-PassesOn unknown run node h p = absurd p

module _ {F : Type 0} (fl : Floats F) (sv : Services F) (wf : Workflow F) where
  continue_at-Ends :
      (visit : Visit F) (P : Text → Type 0)
      → ((run : Run) (n : Text) (h : History F) → P n → Ends (visit run n h))
      → (ns : List Text) (run : Run) (h : History F) → All P ns
      → Ends (continue_at fl sv wf visit ns run h)
  unfolding continue_at
  continue_at-Ends visit P ends [] run h ps = tt
  continue_at-Ends visit P ends (n ∷ ns) run h ps = visit_all-Ends visit P ends (n ∷ ns) run h ps

  settle-Ends :
      (visit : Visit F) (rank : Text → ℕ) (n : Text) (node : Node F) (run : Run) (h : History F)
      (out : Outcome)
      → IsAcyclic rank wf.edges
      → ((run : Run) (m : Text) (h : History F) → rank m < rank n → Ends (visit run m h))
      → Ends (settle fl sv wf visit n node run h out)
  unfolding settle
  settle-Ends visit rank n node run h (fails failure) acyclic ends = tt
  settle-Ends visit rank n node run h (done branch) acyclic ends =
      continue_at-Ends visit (λ m. rank m < rank n) ends (find_next_nodes wf.edges n branch) run
        (log_completed run.id n node.node_type ∷ h)
        (find_next_nodes-All (λ a b. rank b < rank a) wf.edges n branch acyclic)

  -- In a workflow without cycles, whatever the services answer, a walk ends: a depth of calls above
  -- the rank of the node where it starts is enough.
  pub acyclic_walk-Ends :
      (rank : Text → ℕ) (fuel : ℕ) (run : Run) (n : Text) (h : History F)
      → IsAcyclic rank wf.edges
      → rank n < fuel
      → Ends (execute_from fl sv wf fuel run n h)
  unfolding execute_from visit_node
  acyclic_walk-Ends rank zero run n h acyclic enough = absurd (omega arith)
  acyclic_walk-Ends rank (suc fuel) run n h acyclic enough =
      elim (Option-cases (Map.lookup n wf.nodes)) [
        | inl missing ↦ rw (missing, visit_node) tt
        | inr (node, found) ↦
            let r = execute_node fl sv run node h in
            let ends = λ (run' : Run) (m : Text) (h' : History F) (less : rank m < rank n).
              acyclic_walk-Ends rank fuel run' m h' acyclic (omega arith) in
            rw (found, visit_node)
              (settle-Ends (execute_from fl sv wf fuel) rank n node r.0 r.1 r.2 acyclic ends)
      ]
