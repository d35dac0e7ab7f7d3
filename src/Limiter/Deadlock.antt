-- ===== src/Limiter/Deadlock.antt =====
-- internal/core/domain_limiter.go: `SetWarmupFactor` takes the write lock and then calls `getLimit`,
-- which takes the read lock of the same RWMutex.
use sampmail.Prelude.{ℕ, ◌≡◌, refl, ◌≢◌, Bool, true, false, List, [], ◌∷◌, Text, arith}
use sampmail.Prelude.Floats.{Floats}
use sampmail.Limiter.{
  Limit, free, writing, Limiter, Run, done, waits, crashes, get_limit, set_warmup_factor,
  set_custom_limit,
}

module _ (fl : Floats) where
  open fl use {Float}

  -- `SetWarmupFactor` on a limiter that nobody holds waits for ever: it holds the write lock and asks
  -- for the read lock.
  pub set_warmup_factor-waits :
      (domain : Text) (factor : Float) (now : ℕ) (dl : Limiter Float)
      → dl.mutex ≡ free
      → set_warmup_factor fl domain factor now dl ≡ waits (record dl { mutex = writing })
  unfolding set_warmup_factor
  set_warmup_factor-waits domain factor now dl h = ground arith

  -- In no state does `SetWarmupFactor` return.
  pub set_warmup_factor_never_returns :
      (domain : Text) (factor : Float) (now : ℕ) (dl dl' : Limiter Float) (r : Unit {0})
      → set_warmup_factor fl domain factor now dl ≢ done r dl'
  unfolding set_warmup_factor
  set_warmup_factor_never_returns domain factor now dl dl' r e = ground arith

  -- The calls that take the lock: `getLimit` is the first step of `Allow` and of `GetStats`.
  pub data Call : Type 0 where
    gets : Text → Call
    sets_factor : Text → Float → ℕ → Call
    sets_custom : Text → Limit Float → ℕ → Call

  abbrev pub returns_of : {A : Type 0} → Run Float A → Bool
  returns_of (done _ _) = true
  returns_of (waits _) = false
  returns_of crashes = false

  abbrev pub state_of : {A : Type 0} → Limiter Float → Run Float A → Limiter Float
  state_of dl (done _ dl') = dl'
  state_of dl (waits dl') = dl'
  state_of dl crashes = dl

  -- Whether a call returns, and the state that it leaves.
  pub perform : Call → Limiter Float → Bool × Limiter Float
  perform (gets d) dl = let r = get_limit fl d dl in (returns_of r, state_of dl r)
  perform (sets_factor d f now) dl =
      let r = set_warmup_factor fl d f now dl in (returns_of r, state_of dl r)
  perform (sets_custom d l now) dl =
      let r = set_custom_limit fl d l now dl in (returns_of r, state_of dl r)

  pub perform_all : List Call → Limiter Float → List Bool × Limiter Float
  perform_all [] dl = ([], dl)
  perform_all (c ∷ cs) dl =
      let (returned, dl') = perform c dl in
      let (rest, dl'') = perform_all cs dl' in (returned ∷ rest, dl'')

  abbrev pub no_returns : List Call → List Bool
  no_returns [] = []
  no_returns (c ∷ cs) = false ∷ no_returns cs

  perform_writing :
      (c : Call) (dl : Limiter Float) → dl.mutex ≡ writing → perform c dl ≡ (false, dl)
  unfolding perform get_limit set_warmup_factor set_custom_limit
  perform_writing (gets d) dl h = ground arith
  perform_writing (sets_factor d f now) dl h = ground arith
  perform_writing (sets_custom d l now) dl h = ground arith

  -- While the write lock is held and not given back, no later call of any method returns, and
  -- nothing of the table changes.
  pub writing_forever :
      (cs : List Call) (dl : Limiter Float)
      → dl.mutex ≡ writing
      → perform_all cs dl ≡ (no_returns cs, dl)
  unfolding perform_all
  writing_forever [] dl h = refl
  writing_forever (c ∷ cs) dl h = ground (arith, perform_writing c dl h, writing_forever cs dl h)

  -- After one `SetWarmupFactor` on a free limiter, none of any later calls returns.
  pub set_warmup_factor_blocks_all :
      (domain : Text) (factor : Float) (now : ℕ) (cs : List Call) (dl : Limiter Float)
      → dl.mutex ≡ free
      → perform_all (sets_factor domain factor now ∷ cs) dl
        ≡ (false ∷ no_returns cs, record dl { mutex = writing })
  unfolding perform_all perform
  set_warmup_factor_blocks_all domain factor now cs dl h = ground (
    arith,
    set_warmup_factor-waits domain factor now dl h,
    writing_forever cs (record dl { mutex = writing }) refl,
  )
