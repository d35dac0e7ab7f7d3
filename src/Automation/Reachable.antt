-- ===== src/Automation/Reachable.antt =====
-- internal/core/automation_engine.go: the nodes that a walk executes, as its log tells them.
use sampmail.Prelude.{
  ℕ, ◌+◌, ◌≡◌, refl, ◌⊎◌, inl, inr, some, List, [], ◌∷◌, Text, All, codes, text_eq, ◌==◌, ==_iff,
  ◌&&◌, arith, Bool-cases, Option-cases, leb,
}
use sampmail.Prelude.Map
use sampmail.Automation.{
  Node, Edge, Run, Failure, Effect, save_run, log_completed, log_failed, count_completed,
  create_run, count_entered, send_email, create_tag, delete_tag, trigger_tag_added, set_field,
  set_score, post, schedule, set_conversion_rate, remove_scheduled, History, Services, Workflow,
  Kind, trigger, send, add_tag, remove_tag, update_field, webhook, score, delay, condition,
  ab_split, goal, exit, unknown, kind_of, find_next_nodes, follows,
}
use sampmail.Automation.Values.{Floats, get_int}
use sampmail.Automation.Nodes.{
  Outcome, done, fails, execute_node, execute_kind, execute_send_email, execute_add_tag,
  execute_remove_tag, execute_update_field, execute_webhook, execute_update_score, execute_delay,
  execute_condition, execute_ab_split,
}
use sampmail.Automation.Walk.{after_failure, finish, execute_from}
use sampmail.Automation.Invariant.{IsKept, After, execute_from-Keeps}

-- An edge of the list leads from one node to the other.
abbrev pub Joins : List Edge → Text → Text → Type 0
Joins [] a b = ⊥
Joins (e ∷ es) a b = ((e.source ≡ a) × (e.target ≡ b)) ⊎ Joins es a b

pub data Trail (es : List Edge) (a : Text) : Text → Type 0 where
  start : {b : Text} → b ≡ a → Trail es a b
  edge : {b c : Text} → Trail es a b → Joins es b c → Trail es a c

weaken :
    (e : Edge) (es : List Edge) (a : Text) (ts : List Text)
    → All (Joins es a) ts
    → All (Joins (e ∷ es) a) ts
weaken e es a [] h = tt
weaken e es a (t ∷ ts) h = (inr h.0, weaken e es a ts h.1)

-- `findNextNodes` goes along edges only.
pub find_next_nodes-Joins :
    (es : List Edge) (n branch : Text) → All (Joins es n) (find_next_nodes es n branch)
unfolding find_next_nodes
find_next_nodes-Joins [] n branch = tt
find_next_nodes-Joins (e ∷ es) n branch =
    let rest = weaken e es n (find_next_nodes es n branch) (find_next_nodes-Joins es n branch) in
    elim (Bool-cases (e.source == n && follows branch e.source_handle)) [
      | inl taken ↦
          let from : e.source ≡ n = ground (arith, taken, ==_iff e.source n) in
          rw taken (inl (from, refl), rest)
      | inr left ↦ rw left rest
    ]

onwards :
    {es : List Edge} {a n : Text} (ts : List Text)
    → Trail es a n
    → All (Joins es n) ts
    → All (Trail es a) ts
onwards [] path js = tt
onwards (t ∷ ts) path js = (edge path js.0, onwards ts path js.1)

-- `P` holds of every effect since the history `h0`.
pub data Since {F : Type 0} (P : Effect F → Type 0) (h0 : History F) : History F → Type 0 where
  same : {h : History F} → h ≡ h0 → Since P h0 h
  more : {h : History F} (e : Effect F) → P e → Since P h0 h → Since P h0 (e ∷ h)

module _ {F : Type 0} (wf : Workflow F) (from : Text) where
  -- The workflow has the node, with its type, and a path leads to it.
  abbrev pub IsReached : Text → Text → Type 0
  IsReached n node_type =
      Trail wf.edges from n
      × ((node : Node F) × (Map.lookup n wf.nodes ≡ some node) × (node.node_type ≡ node_type))

  -- What is claimed of an effect: of the log's entries alone.
  abbrev pub Explains : Effect F → Type 0
  Explains (log_completed run n node_type) = IsReached n node_type
  Explains (log_failed run n node_type failure) = IsReached n node_type
  Explains (create_run r) = Unit {0}
  Explains (save_run r) = Unit {0}
  Explains (count_entered a) = Unit {0}
  Explains (count_completed a) = Unit {0}
  Explains (send_email to subject body) = Unit {0}
  Explains (create_tag c t) = Unit {0}
  Explains (delete_tag c t) = Unit {0}
  Explains (trigger_tag_added c t n) = Unit {0}
  Explains (set_field c f v) = Unit {0}
  Explains (set_score c u) = Unit {0}
  Explains (post m u r) = Unit {0}
  Explains (schedule r t) = Unit {0}
  Explains (set_conversion_rate a) = Unit {0}
  Explains (remove_scheduled rs) = Unit {0}

  module _ (fl : Floats F) (sv : Services F) (h0 : History F) where
    abbrev Told : History F → Type 0
    Told h = Since Explains h0 h

    execute_kind-Told :
        (k : Kind) (run : Run) (node : Node F) (h : History F)
        → Told h
        → Told (execute_kind fl sv k run node.config h).1
    unfolding execute_kind execute_send_email execute_add_tag execute_remove_tag
        execute_update_field execute_webhook execute_update_score execute_delay execute_condition
        execute_ab_split
    execute_kind-Told trigger run node h t = t
    execute_kind-Told send run node h t = elim (Option-cases (sv.find_contact run.contact h)) [
      | inl e ↦ rw (e, execute_send_email) t
      | inr (c, e) ↦ rw (e, execute_send_email) (more _ tt t)
    ]
    execute_kind-Told add_tag run node h t =
        elim (Bool-cases
          (sv.succeeds (create_tag run.contact (get_int fl node.config (codes "tag_id"))) h)) [
            | inl e ↦ rw (e, execute_add_tag) (more _ tt (more _ tt t))
            | inr e ↦ rw (e, execute_add_tag) (more _ tt t)
          ]
    execute_kind-Told remove_tag run node h t = more _ tt t
    execute_kind-Told update_field run node h t = more _ tt t
    execute_kind-Told webhook run node h t = more _ tt t
    execute_kind-Told score run node h t = more _ tt t
    execute_kind-Told delay run node h t = elim (Bool-cases sv.has_redis) [
      | inl e ↦ rw (e, execute_delay) (more _ tt (more _ tt t))
      | inr e ↦ rw (e, execute_delay) (more _ tt t)
    ]
    execute_kind-Told condition run node h t = elim (Option-cases (sv.find_contact run.contact h)) [
      | inl e ↦ rw (e, execute_condition) t
      | inr (c, e) ↦ rw (e, execute_condition) t
    ]
    execute_kind-Told ab_split run node h t = t
    execute_kind-Told goal run node h t = more _ tt t
    execute_kind-Told exit run node h t = t
    execute_kind-Told unknown run node h t = t

    execute_node-Told :
        (run : Run) (node : Node F) (h : History F)
        → Told h
        → Told (execute_node fl sv run node h).1
    unfolding execute_node
    execute_node-Told run node h t = execute_kind-Told (kind_of node.node_type) run node h t

    after_failure-Told :
        (run : Run) (n : Text) (node : Node F) (failure : Failure) (h : History F)
        → IsReached n node.node_type
        → Told h
        → Told (after_failure run n node failure h).1
    unfolding after_failure
    after_failure-Told run n node failure h reached t =
        elim (Bool-cases (leb 3 (run.error_count + 1))) [
          | inl e ↦ rw (e, after_failure) (more _ tt (more _ reached t))
          | inr e ↦ rw (e, after_failure) (more _ reached t)
        ]

    finish-Told : (run : Run) (h : History F) → Told h → Told (finish sv wf run h).1
    unfolding finish
    finish-Told run h t = more _ tt (more _ tt t)

    After-Told :
        (run : Run) (n : Text) (node : Node F) (h : History F) (out : Outcome)
        → Trail wf.edges from n
        → Map.lookup n wf.nodes ≡ some node
        → Told h
        → After fl sv wf (λ _ h'. Told h') (Trail wf.edges from) n node run h out
    After-Told run n node h (fails failure) path found t =
        after_failure-Told run n node failure h (path, (node, found, refl)) t
    After-Told run n node h (done branch) path found t = (
      more _ (path, (node, found, refl)) t,
      onwards (find_next_nodes wf.edges n branch) path (find_next_nodes-Joins wf.edges n branch),
    )

    kept : IsKept fl sv wf (λ _ h. Told h) (Trail wf.edges from)
    kept = record {
      moves = λ run n h t. more _ tt t;
      finishes = λ run h t. finish-Told run h t;
      executes = λ run n node h path found t.
          After-Told (execute_node fl sv run node h).0 n node (execute_node fl sv run node h).1
            (execute_node fl sv run node h).2 path found (execute_node-Told run node h t);
    }

-- Whatever the services answer, a walk that ends has logged only nodes that a path of edges leads to
-- from the node where it started, each under the type that the workflow gives the node.
pub walk_reaches :
    {F : Type 0} (fl : Floats F) (sv : Services F) (wf : Workflow F) (fuel : ℕ) (run : Run)
    (n : Text) (h : History F) (r : Run × History F)
    → execute_from fl sv wf fuel run n h ≡ some r
    → Since (Explains wf n) h r.1
walk_reaches fl sv wf fuel run n h r e =
    execute_from-Keeps fl sv wf (λ _ h'. Since (Explains wf n) h h') (Trail wf.edges n)
      (kept wf n fl sv h) fuel run n h r (start refl) (same refl) e
