-- ===== src/Campaign/Control/Tests.antt =====
-- Runs of the commands of internal/core/campaign.go on one campaign.
use sampmail.Prelude.{◌≡◌, refl, List, [], ◌∷◌, nat_eq}
use sampmail.Prelude.Map
use sampmail.Campaign.Control.{new_control, Running, fine, panics, go, gate, pause, resume}
use sampmail.Campaign.Control.Commands.{
  Command, pauses, resumes, commands, any, paused_by, gate-commands,
}

abbrev twice : List Command
twice = pauses ∷ resumes ∷ pauses ∷ resumes ∷ []

-- The second resume panics, and the pause before it does not hold the feeder.
twice_replies : (commands twice new_control).1 ≡ fine ∷ fine ∷ fine ∷ panics ∷ []
unfolding commands pause resume
twice_replies = refl

pause_twice : (commands (pauses ∷ pauses ∷ []) new_control).1 ≡ fine ∷ panics ∷ []
unfolding commands pause
pause_twice = refl

gate-commands_example : gate (commands (pauses ∷ resumes ∷ pauses ∷ []) new_control).0 ≡ go
unfolding any paused_by
gate-commands_example = gate-commands (pauses ∷ resumes ∷ pauses ∷ [])

abbrev two : Running
two = Map.insert 7 new_control (Map.insert 8 new_control [])
