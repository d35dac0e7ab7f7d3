-- ===== src/AbTest/Tests.antt =====
-- Runs of internal/core/ab_test.go on a test of three variants.
use sampmail.Prelude.{◌≡◌, refl, true, false, none, some, List, [], ◌∷◌, nat_eq}
use sampmail.Prelude.Map
use sampmail.Prelude.Int.{pos, negsuc, ◌+ℤ◌}
use sampmail.AbTest.{
  AbTest, Manager, fine, check_test, with_defaults, no_status, no_metric, get_variant_for_recipient,
  assigned, from_table,
}
use sampmail.AbTest.Cache.{
  Call, creates, starts, restarts, perform, run, new_manager, get_variant_for_recipient-run,
}

abbrev thirds : AbTest
thirds = record {
  status = no_status;
  variants = 7 ∷ 8 ∷ 9 ∷ [];
  traffic_split = pos 33 ∷ pos 33 ∷ pos 34 ∷ [];
  winner_metric = no_metric;
  min_sample_size = pos 0;
  test_duration = pos 0;
  started_at = none;
  ends_at = none;
  completed_at = none;
  winner_id = none;
  winner_selected = false;
}

accepted : check_test thirds ≡ fine
unfolding check_test ◌+ℤ◌
accepted = refl

-- A negative share passes the checks.
negative_share :
    check_test (record thirds { traffic_split = pos 150 ∷ negsuc 49 ∷ pos 0 ∷ [] }) ≡ fine
unfolding check_test ◌+ℤ◌
negative_share = refl

abbrev calls : List Call
calls = creates thirds true ∷ starts 1 50 true ∷ restarts ∷ starts 1 60 true ∷ []

last_recipient : get_variant_for_recipient 1 199 (run calls new_manager) ≡ assigned (some 2)
unfolding perform with_defaults check_test ◌+ℤ◌ Map.lookup Map.insert get_variant_for_recipient
last_recipient = refl

get_variant_for_recipient-run_example :
    get_variant_for_recipient 1 199 (run calls new_manager)
    ≡ from_table (Map.lookup 1 (run calls new_manager).table) 199
get_variant_for_recipient-run_example = get_variant_for_recipient-run calls 1 199

abbrev running_manager : Manager
running_manager = run calls new_manager
