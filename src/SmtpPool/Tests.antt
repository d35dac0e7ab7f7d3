-- ===== src/SmtpPool/Tests.antt =====
-- The claims on the pool at concrete connections.
use sampmail.Prelude.{ℕ, ◌≡◌, refl, Bool, true, false, not, List, [], ◌∷◌, nat_eq, ◌==◌, arith}
use sampmail.SmtpPool.Slices.{whole, sweep}
use sampmail.SmtpPool.{
  new_pool, Step, getting, adding, putting, marking_bad, checking, closing, run,
}
use sampmail.SmtpPool.Bounds.{IsBounded, pool-IsBounded}
use sampmail.SmtpPool.Checks.{sweep_skips}

-- All but connection 1 are kept.
abbrev keep : ℕ → Bool
keep id = not (id == 1)

sweep_skips_example : sweep keep 4 0 (whole (1 ∷ 2 ∷ 3 ∷ 4 ∷ [])) [] ≡ 3 ∷ 4 ∷ 4 ∷ []
sweep_skips_example = sweep_skips keep 1 2 3 (4 ∷ []) refl refl (refl, (refl, tt))

abbrev steps : List Step
steps =
    getting 5 true
    ∷ adding 6
    ∷ adding 7
    ∷ putting 2 8
    ∷ marking_bad 2
    ∷ checking 30 (λ id. false) 2
    ∷ closing
    ∷ []

pool-IsBounded_example : IsBounded 3 (run steps (new_pool 3 2 10 2 0))
pool-IsBounded_example = pool-IsBounded 3 2 10 2 0 steps (omega arith)
