-- ===== src/RateLimit.antt =====
-- internal/middleware/custom/redis_ratelimit.go: the sliding window in Redis, a Lua script in the Go
-- source, with `Allow` and `Limit`; times are in milliseconds. A request under a key is an entry of a
-- sorted set, whose member is the time with a random number: an entry is that pair, and its score is
-- the time. `EXPIRE` is left out: a key expires when all of its entries have left the window.
pub mod Window
pub mod Burst
pub mod Address
mod Tests
use sampmail.Prelude.{
  ℕ, ◌+◌, Bool, true, false, not, ◌&&◌, ◌||◌, Option, none, some, List, [], ◌∷◌, nat_eq, ◌==◌, ltb,
  length, if◌then◌else◌,
}

abbrev pub Entry : Type 0
Entry = ℕ × ℕ

-- ZREMRANGEBYSCORE key 0 now-window
unfoldable pub prune : ℕ → ℕ → List Entry → List Entry
prune window now [] = []
prune window now (e ∷ es) =
    let rest = prune window now es in if ltb now (e.0 + window) then e ∷ rest else rest

has_entry : ℕ → ℕ → List Entry → Bool
has_entry now random [] = false
has_entry now random (e ∷ es) = (e.0 == now && e.1 == random) || has_entry now random es

-- ZADD: a member that is there already is not added again.
unfoldable pub add_entry : ℕ → ℕ → List Entry → List Entry
unfolding has_entry
add_entry now random es = if has_entry now random es then es else (now, random) ∷ es

-- slidingWindowScript; `true` is 1.
unfoldable pub sliding_window : ℕ → ℕ → ℕ → ℕ → List Entry → List Entry × Bool
unfolding prune add_entry
sliding_window window limit now random es =
    let kept = prune window now es in
    if ltb (length kept) limit then (add_entry now random kept, true) else (kept, false)

-- RedisRateLimiter, with the fields that `Allow` reads.
pub record Limiter : Type 0 where
  pub enabled : Bool
  pub rate : ℕ
  pub window : ℕ

-- Allow, for one key; `works` says that Redis answers. Without Redis every request passes.
unfoldable pub allow : Limiter → Bool → ℕ → ℕ → List Entry → List Entry × Bool
unfolding sliding_window
allow rl works now random es =
    if not rl.enabled
    then (es, true)
    else if works
    then sliding_window rl.window rl.rate now random es
    else (es, true)

-- A run of requests under one key, each with its time and its random number: the set, and the times
-- of those that passed, the latest first.
unfoldable pub serve : Limiter → List (ℕ × ℕ) → List Entry × List ℕ → List Entry × List ℕ
serve rl [] s = s
serve rl ((now, random) ∷ requests) (es, passed) =
    let r = allow rl true now random es in
    serve rl requests (r.0, if r.1 then now ∷ passed else passed)
