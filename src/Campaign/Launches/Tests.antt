-- ===== src/Campaign/Launches/Tests.antt =====
-- The claims on the launches of campaigns at a concrete table.
use sampmail.Prelude.{
  ℕ, ◌+◌, ◌≤◌, ◌≡◌, refl, Bool, true, false, List, [], ◌∷◌, ◌++◌, if◌then◌else◌, ◌==◌, nat_eq,
}
use sampmail.Prelude.Map
use sampmail.Campaign.Pipeline.{draft, scheduled, sending}
use sampmail.Campaign.Launches.{
  Server, status_of, is_scheduled, resume_interrupted_campaigns, start_reads, start_saves, Claim,
  claims, count_launches,
}
use sampmail.Campaign.Launches.Once.{claims_once, stranded_until_restart, started_twice}

abbrev server : Server
server = record {
  table = (1, scheduled) ∷ (2, draft) ∷ (3, sending) ∷ [];
  starters = [];
  launched = 3 ∷ [];
}

abbrev claim_of : ℕ → Bool → Claim
claim_of id loads = record { id = id; updates = true; loads = loads }

-- Two schedulers that both found campaign 1, and one with an old list.
abbrev rounds : List Claim
rounds = claim_of 1 true ∷ claim_of 1 true ∷ claim_of 3 true ∷ []

claims_once_example :
    count_launches 1 (claims rounds server).launched
    ≤ count_launches 1 server.launched + (if is_scheduled (status_of 1 server) then 1 else 0)
claims_once_example = claims_once 1 rounds server

rounds_launched : (claims rounds server).launched ≡ 3 ∷ 1 ∷ []
unfolding claims Map.lookup Map.insert
rounds_launched = refl

-- The restart loads no other campaign than 1.
abbrev loads_first : ℕ → Bool
loads_first id = id == 1

-- Campaign 1 is not loaded, and the server restarts.
abbrev restarted : Server
restarted =
    resume_interrupted_campaigns true loads_first (claims (claim_of 1 false ∷ rounds) server)

stranded_until_restart_example :
    (count_launches 1 (claims (claim_of 1 false ∷ rounds) server).launched
      ≡ count_launches 1 server.launched)
    × (count_launches 1 server.launched + 1 ≤ count_launches 1 restarted.launched)
unfolding Map.lookup
stranded_until_restart_example =
    stranded_until_restart (claim_of 1 false) rounds loads_first server refl refl refl refl

started_twice_example :
    (start_saves 2 (start_saves 2 (start_reads 2 true (start_reads 2 true server)))).launched
    ≡ server.launched ++ 2 ∷ 2 ∷ []
unfolding Map.lookup
started_twice_example = started_twice 2 server refl refl
