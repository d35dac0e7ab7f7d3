-- ===== src/AbTest/Cache.antt =====
-- internal/core/ab_test.go: the map of active tests against the table, over every sequence of calls.
use sampmail.Prelude.{
  ℕ, suc, ◌<◌, ◌≡◌, refl, Bool, true, false, Option, none, some, List, [], ◌∷◌, nat_eq, ◌==◌,
  ==_iff, ==_refl, arith, Bool-cases, inl, inr,
}
use sampmail.Prelude.Map
use sampmail.Prelude.Map.{lookup-insert, lookup-remove}
use sampmail.AbTest.{
  AbTest, Manager, Reply, fine, too_few_variants, split_mismatch, split_not_100, not_found,
  not_draft, not_running, database_error, create_test, created, check_test, with_defaults,
  start_test, start_found, started, select_winner, select_found, delete_test, stored, is_running,
  is_draft, refused, from_table, from_active, get_variant_for_recipient, completed,
}

pub data Call : Type 0 where
  creates : AbTest → Bool → Call
  starts : ℕ → ℕ → Bool → Call
  selects : ℕ → ℕ → ℕ → Bool → Call
  deletes : ℕ → Bool → Call
  -- The process starts anew, with no active tests.
  restarts : Call

unfoldable pub perform : Call → Manager → Manager
unfolding create_test start_test select_winner delete_test
perform (creates t up) m = (create_test t up m).0
perform (starts id now up) m = (start_test id now up m).0
perform (selects id variant now up) m = (select_winner id variant now up m).0
perform (deletes id up) m = (delete_test id up m).0
perform restarts m = record m { active = [] }

abbrev pub run : List Call → Manager → Manager
run [] m = m
run (c ∷ cs) m = run cs (perform c m)

abbrev pub new_manager : Manager
new_manager = record { table = []; next_id = 1; active = [] }

-- An active test is the row of the table, and runs; and the next id is new.
pub record IsCoherent (m : Manager) : Type 0 where
  pub cached :
      (id : ℕ) (t : AbTest)
      → Map.lookup id m.active ≡ some t
      → (Map.lookup id m.table ≡ some t) × (is_running t.status ≡ true)
  pub fresh : (id : ℕ) (t : AbTest) → Map.lookup id m.table ≡ some t → id < m.next_id

insert-IsCoherent :
    (t : AbTest) (m : Manager)
    → IsCoherent m
    → IsCoherent (record m { table = Map.insert m.next_id t m.table; next_id = suc m.next_id })
insert-IsCoherent t m h = record {
  cached = λ id u e.
      let (row, runs) = h.cached id u e in
      let old = h.fresh id u row in
      (ground (arith, lookup-insert m.next_id id t m.table, ==_iff m.next_id id), runs);
  fresh = λ id u e.
      ground (arith, lookup-insert m.next_id id t m.table, ==_iff m.next_id id, h.fresh id u);
}

created-IsCoherent :
    (r : Reply) (up : Bool) (t : AbTest) (m : Manager)
    → IsCoherent m
    → IsCoherent (created r up t m).0
created-IsCoherent fine true t m h = insert-IsCoherent t m h
created-IsCoherent fine false t m h = h
created-IsCoherent too_few_variants up t m h = h
created-IsCoherent split_mismatch up t m h = h
created-IsCoherent split_not_100 up t m h = h
created-IsCoherent not_found up t m h = h
created-IsCoherent not_draft up t m h = h
created-IsCoherent not_running up t m h = h
created-IsCoherent database_error up t m h = h

started-runs : (t : AbTest) (now : ℕ) → is_running (started t now).status ≡ true
unfolding started
started-runs t now = refl

set-IsCoherent :
    (id now : ℕ) (t u : AbTest) (m : Manager)
    → Map.lookup id m.table ≡ some t
    → is_running u.status ≡ true
    → IsCoherent m
    → IsCoherent (record m { table = Map.insert id u m.table; active = Map.insert id u m.active })
set-IsCoherent id now t u m row runs h = record {
  cached = λ other v e. elim (Bool-cases (id == other)) [
    | inl same ↦
        ground (arith, same, lookup-insert id other u m.table, lookup-insert id other u m.active)
    | inr differs ↦
        let k = h.cached other v (ground (arith, differs, lookup-insert id other u m.active)) in
        (ground (arith, differs, lookup-insert id other u m.table, k.0), k.1)
  ];
  fresh = λ other v e.
      ground
        (arith, ==_iff id other, lookup-insert id other u m.table, h.fresh other v, h.fresh id t);
}

stored-IsCoherent :
    (up : Bool) (m' m : Manager) → IsCoherent m' → IsCoherent m → IsCoherent (stored up m' m).0
stored-IsCoherent true m' m h k = h
stored-IsCoherent false m' m h k = k

start-IsCoherent :
    (o : Option AbTest) (id now : ℕ) (up : Bool) (m : Manager)
    → Map.lookup id m.table ≡ o
    → IsCoherent m
    → IsCoherent (start_found o id now up m).0
start-IsCoherent none id now up m e h = h
start-IsCoherent (some t) id now up m e h = elim (Bool-cases (is_draft t.status)) [
  | inl yet ↦ rw yet (
      stored-IsCoherent up _ m (set-IsCoherent id now t (started t now) m e (started-runs t now) h)
        h)
  | inr past ↦ rw past h
]

select-IsCoherent :
    (o : Option AbTest) (id variant now : ℕ) (up : Bool) (m : Manager)
    → Map.lookup id m.table ≡ o
    → IsCoherent m
    → IsCoherent (select_found o id variant now up m).0
select-IsCoherent none id variant now up m e h = h
select-IsCoherent (some t) id variant now false m e h = h
select-IsCoherent (some t) id variant now true m e h =
    let u = record t {
      winner_id = some variant;
      winner_selected = true;
      status = completed;
      completed_at = some now;
    } in
    record {
      cached = λ other v c. elim (Bool-cases (id == other)) [
        | inl same ↦ absurd (ground (arith, same, lookup-remove id other m.active))
        | inr differs ↦
            let k = h.cached other v (ground (arith, differs, lookup-remove id other m.active)) in
            (ground (arith, differs, lookup-insert id other u m.table, k.0), k.1)
      ];
      fresh = λ other v c.
          ground (
            arith,
            ==_iff id other,
            lookup-insert id other u m.table,
            h.fresh other v,
            h.fresh id t,
          );
    }

uncache-IsCoherent :
    (id : ℕ) (m : Manager)
    → IsCoherent m
    → IsCoherent (record m { active = Map.remove id m.active })
uncache-IsCoherent id m h = record {
  cached = λ other v c. elim (Bool-cases (id == other)) [
    | inl same ↦ absurd (ground (arith, same, lookup-remove id other m.active))
    | inr differs ↦ h.cached other v (ground (arith, differs, lookup-remove id other m.active))
  ];
  fresh = h.fresh;
}

delete-IsCoherent :
    (id : ℕ) (up : Bool) (m : Manager) → IsCoherent m → IsCoherent (delete_test id up m).0
unfolding delete_test
delete-IsCoherent id false m h = uncache-IsCoherent id m h
delete-IsCoherent id true m h = record {
  cached = λ other v c. elim (Bool-cases (id == other)) [
    | inl same ↦ absurd (ground (arith, same, lookup-remove id other m.active))
    | inr differs ↦
        let k = h.cached other v (ground (arith, differs, lookup-remove id other m.active)) in
        (ground (arith, differs, lookup-remove id other m.table, k.0), k.1)
  ];
  fresh = λ other v c. ground (arith, lookup-remove id other m.table, h.fresh other v);
}

perform-IsCoherent : (c : Call) (m : Manager) → IsCoherent m → IsCoherent (perform c m)
unfolding perform Map.lookup
perform-IsCoherent (creates t up) m h = created-IsCoherent (check_test t) up (with_defaults t) m h
perform-IsCoherent (starts id now up) m h =
    start-IsCoherent (Map.lookup id m.table) id now up m refl h
perform-IsCoherent (selects id variant now up) m h =
    select-IsCoherent (Map.lookup id m.table) id variant now up m refl h
perform-IsCoherent (deletes id up) m h = delete-IsCoherent id up m h
perform-IsCoherent restarts m h = record { cached = λ id t c. cc c; fresh = h.fresh }

run-IsCoherent : (cs : List Call) (m : Manager) → IsCoherent m → IsCoherent (run cs m)
run-IsCoherent [] m h = h
run-IsCoherent (c ∷ cs) m h = run-IsCoherent cs (perform c m) (perform-IsCoherent c m h)

new-IsCoherent : IsCoherent new_manager
unfolding Map.lookup
new-IsCoherent = record { cached = λ id t c. cc c; fresh = λ id t c. cc c }

coherent_answer :
    (o row : Option AbTest) (recipient : ℕ)
    → ((t : AbTest) → o ≡ some t → (row ≡ some t) × (is_running t.status ≡ true))
    → from_active o row recipient ≡ from_table row recipient
coherent_answer none row recipient h = refl
coherent_answer (some t) row recipient h = let (same, runs) = h t refl in rw same (rw runs refl)

-- After any sequence of calls, failed database writes and restarts of the process among them, the
-- variant that a recipient gets, or the refusal, is the one that the row of the table alone gives: the
-- map of active tests, from which the code answers first, is never stale.
pub get_variant_for_recipient-run :
    (cs : List Call) (id recipient : ℕ)
    → get_variant_for_recipient id recipient (run cs new_manager)
      ≡ from_table (Map.lookup id (run cs new_manager).table) recipient
unfolding get_variant_for_recipient
get_variant_for_recipient-run cs id recipient =
    let m = run cs new_manager in
    coherent_answer (Map.lookup id m.active) (Map.lookup id m.table) recipient
      ((run-IsCoherent cs new_manager new-IsCoherent).cached id)

selected_ends :
    (o : Option AbTest) (id variant now recipient : ℕ) (up : Bool) (m : Manager)
    → (select_found o id variant now up m).1 ≡ fine
    → get_variant_for_recipient id recipient (select_found o id variant now up m).0
      ≡ refused not_running
unfolding get_variant_for_recipient
selected_ends none id variant now recipient up m h = cc h
selected_ends (some t) id variant now recipient false m h = cc h
selected_ends (some t) id variant now recipient true m h =
    let u = record t {
      winner_id = some variant;
      winner_selected = true;
      status = completed;
      completed_at = some now;
    } in
    let self : (id == id) ≡ true = ==_refl id in
    rw (lookup-remove id id m.active, lookup-insert id id u m.table, self) refl

-- Once a winner was selected with success, in whatever state of the manager, no recipient gets a
-- variant of that test any more: the answer is that the test is not running.
pub get_variant_for_recipient-select :
    (id variant now recipient : ℕ) (up : Bool) (m : Manager)
    → (select_winner id variant now up m).1 ≡ fine
    → get_variant_for_recipient id recipient (select_winner id variant now up m).0
      ≡ refused not_running
unfolding select_winner
get_variant_for_recipient-select id variant now recipient up m h =
    selected_ends (Map.lookup id m.table) id variant now recipient up m h
