-- ===== src/Campaign/Launches/Once.antt =====
-- internal/core/campaign.go: how many times a campaign is started.
use sampmail.Prelude.{
  ℕ, ◌+◌, ◌≤◌, ◌≡◌, refl, ap, ◌∙◌, Bool, true, false, some, List, [], ◌∷◌, ◌++◌, nat_eq, ◌==◌,
  ==_iff, if◌then◌else◌, arith, Bool-cases, inl, inr,
}
use sampmail.Prelude.Map
use sampmail.Prelude.Map.{lookup-insert}
use mathlib.Core.List.{append_assoc}
use sampmail.Campaign.Pipeline.{CampaignStatus, scheduled, sending}
use sampmail.Campaign.Launches.{
  Server, status_of, is_scheduled, may_start, set_sending, claim, resume_all,
  resume_interrupted_campaigns, start_reads, start_saves, Claim, claims, count_launches,
}

count_launches-append :
    (id : ℕ) (xs ys : List ℕ)
    → count_launches id (xs ++ ys) ≡ count_launches id xs + count_launches id ys
unfolding count_launches
count_launches-append id [] ys = omega arith
count_launches-append id (x ∷ xs) ys = omega (arith, count_launches-append id xs ys)

-- What is left of a campaign's launches by schedulers: one while it is scheduled.
abbrev left : ℕ → Server → ℕ
left id s = count_launches id s.launched + (if is_scheduled (status_of id s) then 1 else 0)

claim-left :
    (id other : ℕ) (updates loads : Bool) (s : Server)
    → left id (claim other updates loads s) ≤ left id s
unfolding claim count_launches
claim-left id other updates loads s = ground (
  arith,
  count_launches-append id s.launched (other ∷ []),
  lookup-insert other id sending s.table,
  ==_iff other id,
)

claims-left : (id : ℕ) (cs : List Claim) (s : Server) → left id (claims cs s) ≤ left id s
unfolding claims
claims-left id [] s = omega arith
claims-left id (c ∷ cs) s = omega (
  arith,
  claims-left id cs (claim c.id c.updates c.loads s),
  claim-left id c.id c.updates c.loads s,
)

-- However many schedulers interleave, with lists of campaigns that are as old as they may be, they
-- launch a campaign that is scheduled at most once, and another not at all.
pub claims_once :
    (id : ℕ) (cs : List Claim) (s : Server)
    → count_launches id (claims cs s).launched
      ≤ count_launches id s.launched + (if is_scheduled (status_of id s) then 1 else 0)
claims_once id cs s = omega (arith, claims-left id cs s)

-- The schedulers leave a campaign alone that is being sent.
claim-sending :
    (id other : ℕ) (updates loads : Bool) (s : Server)
    → status_of id s ≡ some sending
    → (status_of id (claim other updates loads s) ≡ some sending)
      × (count_launches id (claim other updates loads s).launched ≡ count_launches id s.launched)
unfolding claim count_launches
claim-sending id other updates loads s h =
    let new = lookup-insert other id sending s.table in
    let more = count_launches-append id s.launched (other ∷ []) in
    let same = ==_iff other id in (ground (arith, new, h, same), ground (arith, more, new, h, same))

claims-sending :
    (id : ℕ) (cs : List Claim) (s : Server)
    → status_of id s ≡ some sending
    → (status_of id (claims cs s) ≡ some sending)
      × (count_launches id (claims cs s).launched ≡ count_launches id s.launched)
unfolding claims
claims-sending id [] s h = (h, refl)
claims-sending id (c ∷ cs) s h =
    let one = claim-sending id c.id c.updates c.loads s h in
    let rest = claims-sending id cs (claim c.id c.updates c.loads s) one.0 in
    (rest.0, rest.1 ∙ one.1)

resume_all-launches :
    (id : ℕ) (loads : ℕ → Bool) (rows : List (ℕ × CampaignStatus))
    → loads id ≡ true
    → Map.lookup id rows ≡ some sending
    → 1 ≤ count_launches id (resume_all loads rows)
unfolding Map.lookup resume_all count_launches
resume_all-launches id loads [] l h = absurd (ground arith)
resume_all-launches id loads ((here, status) ∷ rows) l h = elim (Bool-cases (here == id)) [
  | inl same ↦
      let e : here ≡ id = (==_iff here id).0 same in
      let l' : loads here ≡ true = ap loads e ∙ l in ground (arith, h, l', same)
  | inr other ↦
      let rest : Map.lookup id rows ≡ some sending = ground (arith, h, other) in
      ground (arith, resume_all-launches id loads rows l rest, other)
]

claim-unloaded :
    (c : Claim) (s : Server)
    → status_of c.id s ≡ some scheduled
    → c.updates ≡ true
    → c.loads ≡ false
    → claim c.id c.updates c.loads s ≡ set_sending c.id s
unfolding claim
claim-unloaded c s h u l = rw (u, l, h) refl

-- A scheduled campaign whose load fails after a scheduler has claimed it is launched by no scheduler
-- any more; a restart whose query succeeds and that loads the campaign launches it.
pub stranded_until_restart :
    (c : Claim) (cs : List Claim) (loads : ℕ → Bool) (s : Server)
    → loads c.id ≡ true
    → status_of c.id s ≡ some scheduled
    → c.updates ≡ true
    → c.loads ≡ false
    → (count_launches c.id (claims (c ∷ cs) s).launched ≡ count_launches c.id s.launched)
      × (count_launches c.id s.launched + 1
          ≤ count_launches c.id
              (resume_interrupted_campaigns true loads (claims (c ∷ cs) s)).launched)
unfolding claims resume_interrupted_campaigns
stranded_until_restart c cs loads s again h u l =
    let claimed : status_of c.id (set_sending c.id s) ≡ some sending =
      ground (arith, lookup-insert c.id c.id sending s.table, ==_iff c.id c.id) in
    let rest = claims-sending c.id cs (set_sending c.id s) claimed in
    let after = claims cs (set_sending c.id s) in
    let more = count_launches-append c.id after.launched (resume_all loads after.table) in
    let resumed = resume_all-launches c.id loads after.table again rest.0 in
    rw (claims, resume_interrupted_campaigns, claim-unloaded c s h u l)
      (rest.1, omega (arith, rest.1, more, resumed))

-- Two requests that start a campaign at the same time both pass the check, and the campaign is
-- processed twice.
pub started_twice :
    (id : ℕ) (s : Server)
    → may_start (status_of id s) ≡ true
    → s.starters ≡ []
    → (start_saves id (start_saves id (start_reads id true (start_reads id true s)))).launched
      ≡ s.launched ++ id ∷ id ∷ []
unfolding start_reads start_saves
started_twice id s h e =
    rw (h, e) (ground (arith, ==_iff id id, append_assoc s.launched (id ∷ []) (id ∷ [])))
