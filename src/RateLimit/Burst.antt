-- ===== src/RateLimit/Burst.antt =====
-- internal/middleware/custom/redis_ratelimit.go: requests within one millisecond. Redis gives
-- `math.random` the same seed each time a script is run, so its first number is always the same one.
use sampmail.Prelude.{
  ℕ, zero, suc, ◌+◌, ◌<◌, ◌≡◌, refl, true, List, [], ◌∷◌, nat_eq, ==_refl, ltb, lt→ltb, length,
  arith,
}
use sampmail.RateLimit.{prune, has_entry, add_entry, sliding_window, Limiter, allow, serve}
use sampmail.RateLimit.Window.{allow-enabled, serve-cons}

-- `n` times the same.
abbrev pub replicate : {A : Type 0} → ℕ → A → List A
replicate zero a = []
replicate (suc n) a = a ∷ replicate n a

again :
    (rl : Limiter) (now random : ℕ)
    → rl.enabled ≡ true
    → 1 < rl.rate
    → 0 < rl.window
    → allow rl true now random ((now, random) ∷ []) ≡ ((now, random) ∷ [], true)
unfolding sliding_window prune add_entry has_entry
again rl now random on more wide =
    let inside : ltb now (now + rl.window) ≡ true = ground arith in
    let room : ltb 1 rl.rate ≡ true = lt→ltb 1 rl.rate more in
    rw (allow-enabled rl now random ((now, random) ∷ []) on) (
      rw (inside, sliding_window)
        (rw (room, sliding_window) (rw (==_refl now) (rw (==_refl random) refl))))

repeat_passes :
    (rl : Limiter) (now random n : ℕ) (passed : List ℕ)
    → rl.enabled ≡ true
    → 1 < rl.rate
    → 0 < rl.window
    → length (serve rl (replicate n (now, random)) ((now, random) ∷ [], passed)).1
      ≡ n + length passed
unfolding serve
repeat_passes rl now random zero passed on more wide = omega arith
repeat_passes rl now random (suc n) passed on more wide =
    let ih = repeat_passes rl now random n (now ∷ passed) on more wide in
    let all = replicate n (now, random) in
    let step =
      serve-cons rl now random all ((now, random) ∷ []) ((now, random) ∷ []) passed true
        (again rl now random on more wide) in
    rw step (omega (arith, ih))

-- Requests of one millisecond, for which the script's random number is the same, count as one: with a
-- rate of two or more and a window, any number of them pass.
pub burst_passes :
    (rl : Limiter) (now random n : ℕ)
    → rl.enabled ≡ true
    → 1 < rl.rate
    → 0 < rl.window
    → length (serve rl (replicate n (now, random)) ([], [])).1 ≡ n
unfolding serve sliding_window prune add_entry has_entry
burst_passes rl now random zero on more wide = refl
burst_passes rl now random (suc n) on more wide =
    let room : ltb 0 rl.rate ≡ true = lt→ltb 0 rl.rate (omega arith) in
    let rest = repeat_passes rl now random n (now ∷ []) on more wide in
    let first : allow rl true now random [] ≡ ((now, random) ∷ [], true) =
      rw (allow-enabled rl now random [] on) (rw (room, sliding_window) refl) in
    rw (serve-cons rl now random (replicate n (now, random)) [] ((now, random) ∷ []) [] true first)
      (omega (arith, rest))
