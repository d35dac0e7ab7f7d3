-- ===== src/Limiter.antt =====
-- internal/core/domain_limiter.go: the table of limits per destination domain, with its lock.
-- `map[string]*DomainLimit` holds pointers: `heap` lists the limits that were allocated, and a pointer
-- is a position in it. A method takes the limiter and returns the new one, or it waits for the lock
-- (`waits`). The factors are floats, a parameter. Limits are not negative numbers; a negative one
-- acts as 0, since each is raised to its minimum. The global limiter is one value of this type.
pub mod Window
pub mod Deadlock
pub mod Table
pub mod Address
mod Tests
use sampmail.Prelude.{
  ℕ, zero, suc, ◌+◌, ◌-◌, ◌≡◌, Bool, true, false, Option, none, some, List, [], ◌∷◌, ◌++◌, ltb,
  if◌then◌else◌, Text, codes, text_eq, length, get_elem?, set, drop, ◌==◌,
}
use sampmail.Prelude.Map
use sampmail.Prelude.Strings.{to_lower, trim_space, split, join}
use sampmail.Prelude.Floats.{Floats}

pub record Limit (F : Type 0) : Type 0 where
  pub domain : Text
  pub max_per_minute : ℕ
  pub max_per_hour : ℕ
  pub max_per_day : ℕ
  pub warmup_factor : F
  pub last_updated : ℕ

-- sync.RWMutex: `reading n` has n + 1 readers. `none`: the caller has to wait.
pub data Lock : Type 0 where
  free : Lock
  reading : ℕ → Lock
  writing : Lock

unfoldable pub lock : Lock → Option Lock
lock free = some writing
lock (reading n) = none
lock writing = none

abbrev pub unlock : Lock → Lock
unlock l = free

unfoldable pub read_lock : Lock → Option Lock
read_lock free = some (reading 0)
read_lock (reading n) = some (reading (suc n))
read_lock writing = none

abbrev pub read_unlock : Lock → Lock
read_unlock (reading (suc n)) = reading n
read_unlock l = free

pub record Limiter (F : Type 0) : Type 0 where
  pub mutex : Lock
  pub limits : List (Text × ℕ)
  pub heap : List (Limit F)

-- What a call comes to: it returns, it waits for the lock in the state that it left, or it reads
-- through a pointer to nothing, which never happens in a sound table.
pub data Run (F A : Type 0) : Type 0 where
  done : A → Limiter F → Run F A
  waits : Limiter F → Run F A
  crashes : Run F A

abbrev pub M : Type 0 → Type 0 → Type 0
M F A = Limiter F → Run F A

infixl 5 ◌>>=◌ ◌>>◌
abbrev pub ◌>>=◌ : {F A B : Type 0} → M F A → (A → M F B) → M F B
◌>>=◌ m f dl = elim (m dl) [ done a dl' ↦ f a dl' | waits dl' ↦ waits dl' | crashes ↦ crashes ]

abbrev pub ◌>>◌ : {F B : Type 0} → M F (Unit {0}) → M F B → M F B
m >> k = m >>= λ _. k

module _ {F : Type 0} where
  abbrev pub pure : {A : Type 0} → A → M F A
  pure a dl = done a dl

  pub acquire : M F (Unit {0})
  unfolding lock
  acquire dl = elim (lock dl.mutex) [ none ↦ waits dl | some l ↦ done tt (record dl { mutex = l }) ]

  pub release : M F (Unit {0})
  release dl = done tt (record dl { mutex = unlock dl.mutex })

  pub acquire_read : M F (Unit {0})
  unfolding read_lock
  acquire_read dl = elim (read_lock dl.mutex) [
    | none ↦ waits dl
    | some l ↦ done tt (record dl { mutex = l })
  ]

  pub release_read : M F (Unit {0})
  release_read dl = done tt (record dl { mutex = read_unlock dl.mutex })

  -- dl.limits[domain] = &limit
  pub store_new : Text → Limit F → M F (Unit {0})
  store_new key limit dl = done tt (record dl {
    limits = Map.insert key (length dl.heap) dl.limits;
    heap = dl.heap ++ limit ∷ [];
  })

  pub store_pointer : Text → ℕ → M F (Unit {0})
  store_pointer key p dl = done tt (record dl { limits = Map.insert key p dl.limits })

-- strings.Join(parts[len(parts)-2:], "."), if there are more than two parts
unfoldable pub parent_domain : Text → Option Text
parent_domain domain =
    let parts = split b'.' domain in
    if ltb 2 (length parts) then some (join b'.' (drop (length parts - 2) parts)) else none

abbrev pub or_else {ℓ} : {A : Type ℓ} → Option A → Option A → Option A
or_else (some a) o = some a
or_else none o = o

abbrev pub and_then {ℓ κ} : {A : Type ℓ} {B : Type κ} → Option A → (A → Option B) → Option B
and_then (some a) f = f a
and_then none f = none

-- The lookups of `getLimit` in their order: the domain, its parent, the default.
unfoldable pub resolve : Text → List (Text × ℕ) → Option ℕ
unfolding parent_domain
resolve domain limits = or_else (Map.lookup domain limits) (
    or_else (and_then (parent_domain domain) (λ parent. Map.lookup parent limits))
      (Map.lookup (codes "_default") limits))

module _ (fl : Floats) where
  open fl use {Float, float, times, truncate, less, zero_float, hundredth, one_float}

  abbrev pub fallback : Text → Limit Float
  fallback domain = record {
    domain = domain;
    max_per_minute = 100;
    max_per_hour = 1000;
    max_per_day = 10000;
    warmup_factor = zero_float;
    last_updated = 0;
  }

  -- The lookups, or a new limit that no name leads to.
  pub find_limit : Text → M Float ℕ
  unfolding resolve
  find_limit domain dl = elim (resolve domain dl.limits) [
    | some p ↦ done p dl
    | none ↦ done (length dl.heap) (record dl { heap = dl.heap ++ fallback domain ∷ [] })
  ]

  -- getLimit
  unfoldable pub get_limit : Text → M Float ℕ
  unfolding find_limit acquire_read release_read
  get_limit domain = do acquire_read; p ← find_limit domain; release_read; pure p

  abbrev pub at_least : ℕ → ℕ → ℕ
  at_least low n = if ltb n low then low else n

  -- limit.WarmupFactor <= 0 becomes 1.0, in the limit itself
  unfoldable pub mend_factor : Limit Float → Limit Float
  mend_factor limit =
      if less zero_float limit.warmup_factor
      then limit
      else record limit { warmup_factor = one_float }

  unfoldable pub scale : Float → ℕ → ℕ
  scale factor n = truncate (times (float n) factor)

  unfoldable pub adjust : Limit Float → Limit Float
  unfolding scale
  adjust limit = record limit {
    max_per_minute = at_least 1 (scale limit.warmup_factor limit.max_per_minute);
    max_per_hour = at_least 10 (scale limit.warmup_factor limit.max_per_hour);
    max_per_day = at_least 100 (scale limit.warmup_factor limit.max_per_day);
  }

  -- applyWarmupFactor, on the limit at `p`
  unfoldable pub apply_warmup_factor : ℕ → M Float (Limit Float)
  unfolding mend_factor adjust
  apply_warmup_factor p dl = elim (get_elem? dl.heap p) [
    | none ↦ crashes
    | some limit ↦
        done (adjust (mend_factor limit)) (record dl { heap = set dl.heap p (mend_factor limit) })
  ]

  abbrev pub clamp : Float → Float
  clamp factor =
      let factor' = if less factor hundredth then hundredth else factor in
      if less one_float factor' then one_float else factor'

  pub write_factor : ℕ → Float → ℕ → M Float (Unit {0})
  write_factor p factor now dl = elim (get_elem? dl.heap p) [
    | none ↦ crashes
    | some limit ↦ done tt (record dl {
      heap = set dl.heap p (record limit { warmup_factor = factor; last_updated = now });
    })
  ]

  -- SetWarmupFactor; `Unlock` is deferred
  unfoldable pub set_warmup_factor : Text → Float → ℕ → M Float (Unit {0})
  unfolding acquire release get_limit write_factor store_pointer
  set_warmup_factor domain factor now = do
    acquire
    p ← get_limit domain
    write_factor p (clamp factor) now
    store_pointer domain p
    release

  -- SetCustomLimit
  unfoldable pub set_custom_limit : Text → Limit Float → ℕ → M Float (Unit {0})
  unfolding acquire release store_new
  set_custom_limit domain limit now = do
    acquire
    store_new (to_lower domain) (record limit { domain = domain; last_updated = now })
    release

  -- ProviderLimits
  provider : Text → ℕ → ℕ → ℕ → Text × Limit Float
  provider name minute hour day = (
    name,
    record {
      domain = name;
      max_per_minute = minute;
      max_per_hour = hour;
      max_per_day = day;
      warmup_factor = zero_float;
      last_updated = 0;
    },
  )

  unfoldable pub provider_limits : List (Text × Limit Float)
  unfolding provider
  provider_limits =
      provider (codes "gmail.com") 20 500 5000
      ∷ provider (codes "googlemail.com") 20 500 5000
      ∷ provider (codes "outlook.com") 30 100 2000
      ∷ provider (codes "hotmail.com") 30 100 2000
      ∷ provider (codes "live.com") 30 100 2000
      ∷ provider (codes "msn.com") 30 100 2000
      ∷ provider (codes "yahoo.com") 25 200 5000
      ∷ provider (codes "yahoo.co.in") 25 200 5000
      ∷ provider (codes "yahoo.co.uk") 25 200 5000
      ∷ provider (codes "aol.com") 25 200 5000
      ∷ provider (codes "icloud.com") 20 200 2000
      ∷ provider (codes "me.com") 20 200 2000
      ∷ provider (codes "_default") 100 1000 10000
      ∷ []

  copy_limits : List (Text × Limit Float) → Limiter Float → Limiter Float
  copy_limits [] dl = dl
  copy_limits ((name, limit) ∷ rest) dl = copy_limits rest (record dl {
    limits = Map.insert name (length dl.heap) dl.limits;
    heap = dl.heap ++ limit ∷ [];
  })

  -- NewDomainLimiter. Go ranges over a map in any order; the names are distinct, so the order shows
  -- in the pointers alone.
  unfoldable pub new_limiter : Limiter Float
  unfolding copy_limits provider_limits
  new_limiter = copy_limits provider_limits (record { mutex = free; limits = []; heap = [] })

  -- IsMajorProvider and GetProviderLimit
  unfoldable pub is_major_provider : Text → Bool
  unfolding provider_limits
  is_major_provider domain = elim (Map.lookup (to_lower domain) provider_limits) [
    | none ↦ false
    | some _ ↦ true
  ]

-- ExtractDomain: the part after the one `@`, or nothing.
abbrev second_of_two : List Text → Text
second_of_two (_ ∷ domain ∷ []) = domain
second_of_two _ = []

unfoldable pub extract_domain : Text → Text
unfolding to_lower trim_space split
extract_domain email = second_of_two (split b'@' (to_lower (trim_space email)))
