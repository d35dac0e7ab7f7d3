-- ===== src/Limiter/Table.antt =====
-- internal/core/domain_limiter.go: which limit a domain gets, and how the factor scales it.
use sampmail.Prelude.{
  ℕ, ◌^◌, ◌≤◌, ◌<◌, ◌≡◌, refl, inl, inr, false, Option, none, some, List, [], ◌∷◌, ◌++◌, Text,
  codes, text_eq, arith, length, get_elem?, set, length-append, length-set, get_elem?-append_last,
  get_elem?_total, Bool-cases, max, ◌==◌, ==_refl, Option-cases,
}
use sampmail.Prelude.Map
use sampmail.Prelude.Map.{lookup-insert}
use sampmail.Prelude.Strings.{to_lower}
use sampmail.Prelude.Floats.{Floats}
use sampmail.Limiter.{
  Limit, free, Limiter, done, resolve, get_limit, parent_domain, or_else, and_then,
  apply_warmup_factor, adjust, mend_factor, scale, set_custom_limit, new_limiter, copy_limits,
  provider_limits,
}

-- Each name leads to a limit, and there is a default.
pub record IsSound {F : Type 0} (dl : Limiter F) : Type 0 where
  pub points : (name : Text) (p : ℕ) → Map.lookup name dl.limits ≡ some p → p < length dl.heap
  pub has_default : (p : ℕ) × (Map.lookup (codes "_default") dl.limits ≡ some p)

or_else-some : (o o' : Option ℕ) (p : ℕ) → o' ≡ some p → (q : ℕ) × (or_else o o' ≡ some q)
or_else-some (some a) o' p e = (a, refl)
or_else-some none o' p e = (p, e)

resolve_total :
    {F : Type 0} (domain : Text) (dl : Limiter F)
    → IsSound dl
    → (p : ℕ) × (resolve domain dl.limits ≡ some p)
unfolding resolve
resolve_total domain dl h =
    let (p, e) = h.has_default in
    let (q, f) =
      or_else-some (and_then (parent_domain domain) (λ parent. Map.lookup parent dl.limits))
        (Map.lookup (codes "_default") dl.limits) p e in
    or_else-some (Map.lookup domain dl.limits) _ q f

resolve-lt :
    {F : Type 0} (domain : Text) (dl : Limiter F) (p : ℕ)
    → IsSound dl
    → resolve domain dl.limits ≡ some p
    → p < length dl.heap
unfolding resolve
resolve-lt domain dl p h e = elim (Option-cases (parent_domain domain)) [
  | inl n ↦ ground (arith, h.points domain p, h.points (codes "_default") p)
  | inr (parent, n) ↦
      ground (arith, h.points domain p, h.points (codes "_default") p, h.points parent p)
]

module _ (fl : Floats) where
  open fl use {Float, float, times, truncate, less, zero_float, hundredth, one_float}

  -- In a sound table that nobody writes, `getLimit` returns a limit of the table, and leaves the
  -- table and its lock as they were: the limit made up at its end is never needed.
  pub get_limit_sound :
      (domain : Text) (dl : Limiter Float)
      → IsSound dl
      → dl.mutex ≡ free
      → (p : ℕ) × (get_limit fl domain dl ≡ done p dl) × (p < length dl.heap)
  unfolding get_limit
  get_limit_sound domain dl h f =
      let (p, e) = resolve_total domain dl h in (p, ground arith, resolve-lt domain dl p h e)

  IsSound-set :
      (dl : Limiter Float) (p : ℕ) (l : Limit Float)
      → IsSound dl
      → IsSound (record dl { heap = set dl.heap p l })
  IsSound-set dl p l h = record {
    points = λ name q e. rw (length-set dl.heap p l) (h.points name q e);
    has_default = h.has_default;
  }

  abbrev mended : Limiter Float → ℕ → Limit Float → Limiter Float
  mended dl p l = record dl { heap = set dl.heap p (mend_factor fl l) }

  apply_lem :
      (dl : Limiter Float) (p : ℕ) (l : Limit Float)
      → get_elem? dl.heap p ≡ some l
      → apply_warmup_factor fl p dl ≡ done (adjust fl (mend_factor fl l)) (mended dl p l)
  unfolding apply_warmup_factor
  apply_lem dl p l e = rw (e, apply_warmup_factor)

  -- In a sound table that nobody writes the first half of `Allow` returns, for every domain: the
  -- limit at the pointer that `getLimit` finds, mended and adjusted. The table stays sound and free.
  pub effective_limit :
      (domain : Text) (dl : Limiter Float)
      → IsSound dl
      → dl.mutex ≡ free
      → (p : ℕ) × (l : Limit Float) × (get_limit fl domain dl ≡ done p dl)
        × (get_elem? dl.heap p ≡ some l)
        × (apply_warmup_factor fl p dl ≡ done (adjust fl (mend_factor fl l)) (mended dl p l))
        × IsSound (mended dl p l)
        × ((mended dl p l).mutex ≡ free)
  effective_limit domain dl h f =
      let (p, e, lt) = get_limit_sound domain dl h f in
      let (l, g) = get_elem?_total dl.heap p lt in
      (p, l, e, g, apply_lem dl p l g, IsSound-set dl p (mend_factor fl l) h, f)

  scale-le : (f : Float) (n : ℕ) → n < 2 ^ 53 → less one_float f ≡ false → scale fl f n ≤ n
  unfolding scale
  scale-le f n h k = fl.truncate-times-le n f h k

  scale-mended_one :
      (l : Limit Float) (n : ℕ)
      → n < 2 ^ 53
      → less one_float l.warmup_factor ≡ false
      → scale fl (mend_factor fl l).warmup_factor n ≤ n
  unfolding mend_factor
  scale-mended_one l n h k = elim (Bool-cases (less zero_float l.warmup_factor)) [
    | inl pos ↦ rw pos (scale-le l.warmup_factor n h k)
    | inr unset ↦ rw unset (scale-le one_float n h fl.one_irreflexive)
  ]

  -- A factor of at most 1 never raises a limit above its table value or its minimum of 1, 10 or 100,
  -- whichever is larger, and never lowers it below that minimum, for table values that a float64
  -- holds exactly.
  pub adjust_bounds :
      (l : Limit Float)
      → less one_float l.warmup_factor ≡ false
      → l.max_per_minute < 2 ^ 53
      → l.max_per_hour < 2 ^ 53
      → l.max_per_day < 2 ^ 53
      → let a = adjust fl (mend_factor fl l) in
        (1 ≤ a.max_per_minute)
        × (a.max_per_minute ≤ max 1 l.max_per_minute)
        × (10 ≤ a.max_per_hour)
        × (a.max_per_hour ≤ max 10 l.max_per_hour)
        × (100 ≤ a.max_per_day)
        × (a.max_per_day ≤ max 100 l.max_per_day)
  adjust_bounds l k hm hh hd =
      let m = scale-mended_one l l.max_per_minute hm k in
      let h = scale-mended_one l l.max_per_hour hh k in
      let d = scale-mended_one l l.max_per_day hd k in
      unfold adjust mend_factor in
      (ground arith, ground arith, ground arith, ground arith, ground arith, ground arith)

  -- A limit without a factor is used as it stands, if it is at least the minimum.
  pub adjust_unset :
      (l : Limit Float)
      → less zero_float l.warmup_factor ≡ false
      → l.max_per_minute < 2 ^ 53
      → 1 ≤ l.max_per_minute
      → (adjust fl (mend_factor fl l)).max_per_minute ≡ l.max_per_minute
  unfolding adjust mend_factor scale
  adjust_unset l z h m = rw z (ground (arith, fl.truncate-times-one l.max_per_minute h))

  pub set_custom_limit_lem :
      (domain : Text) (limit : Limit Float) (now : ℕ) (dl : Limiter Float)
      → dl.mutex ≡ free
      → set_custom_limit fl domain limit now dl
        ≡ done tt (record dl {
          limits = Map.insert (to_lower domain) (length dl.heap) dl.limits;
          heap = dl.heap ++ record limit { domain = domain; last_updated = now } ∷ [];
        })
  unfolding set_custom_limit
  set_custom_limit_lem domain limit now dl f = ground arith

  insert_default :
      (name : Text) (q : ℕ) (limits : List (Text × ℕ))
      → ((p : ℕ) × (Map.lookup (codes "_default") limits ≡ some p))
      → (p : ℕ) × (Map.lookup (codes "_default") (Map.insert name q limits) ≡ some p)
  insert_default name q limits (p, e) = elim (Bool-cases (name == codes "_default")) [
    | inl same ↦ (q, rw (lookup-insert name (codes "_default") q limits, same) refl)
    | inr other ↦ (p, rw (lookup-insert name (codes "_default") q limits, other) e)
  ]

  abbrev added : Text → Limit Float → Limiter Float → Limiter Float
  added name l dl = record dl {
    limits = Map.insert name (length dl.heap) dl.limits;
    heap = dl.heap ++ l ∷ [];
  }

  abbrev Points : Limiter Float → Type 0
  Points dl = (name : Text) (p : ℕ) → Map.lookup name dl.limits ≡ some p → p < length dl.heap

  added-Points :
      (name : Text) (l : Limit Float) (dl : Limiter Float) → Points dl → Points (added name l dl)
  added-Points name l dl h j q e = ground (
    arith,
    lookup-insert name j (length dl.heap) dl.limits,
    h j q,
    length-append dl.heap (l ∷ []),
  )

  added-IsSound :
      (name : Text) (l : Limit Float) (dl : Limiter Float) → IsSound dl → IsSound (added name l dl)
  added-IsSound name l dl h = record {
    points = added-Points name l dl h.points;
    has_default = insert_default name (length dl.heap) dl.limits h.has_default;
  }

  -- `SetCustomLimit` on a free, sound limiter returns and leaves it sound and free, and the domain,
  -- in lower case, then gets the limit that was set, under its own name and the time of the call.
  pub set_custom_limit-get_limit :
      (domain : Text) (limit : Limit Float) (now : ℕ) (dl : Limiter Float)
      → dl.mutex ≡ free
      → IsSound dl
      → let l = record limit { domain = domain; last_updated = now } in
        let dl' = added (to_lower domain) l dl in
        (set_custom_limit fl domain limit now dl ≡ done tt dl')
        × IsSound dl'
        × (dl'.mutex ≡ free)
        × (get_limit fl (to_lower domain) dl' ≡ done (length dl.heap) dl')
        × (get_elem? dl'.heap (length dl.heap) ≡ some l)
  unfolding get_limit resolve
  set_custom_limit-get_limit domain limit now dl f h =
      let l : Limit Float = record limit { domain = domain; last_updated = now } in
      (
        set_custom_limit_lem domain limit now dl f,
        added-IsSound (to_lower domain) l dl h,
        f,
        ground (
          arith,
          lookup-insert (to_lower domain) (to_lower domain) (length dl.heap) dl.limits,
          ==_refl (to_lower domain),
        ),
        get_elem?-append_last dl.heap l,
      )

  copy_limits-Points :
      (entries : List (Text × Limit Float)) (dl : Limiter Float)
      → Points dl
      → Points (copy_limits fl entries dl)
  unfolding copy_limits
  copy_limits-Points [] dl h = h
  copy_limits-Points ((name, l) ∷ rest) dl h =
      copy_limits-Points rest (added name l dl) (added-Points name l dl h)

  abbrev nothing : Limiter Float
  nothing = record { mutex = free; limits = []; heap = [] }

  no-Points : Points nothing
  unfolding Map.lookup
  no-Points name p e = cc

  new_limiter-Points : Points (new_limiter fl)
  unfolding new_limiter
  new_limiter-Points = copy_limits-Points (provider_limits fl) nothing no-Points

  -- The table that a new limiter starts with is sound.
  pub new_limiter-IsSound : IsSound (new_limiter fl)
  unfolding new_limiter Map.lookup Map.insert
  new_limiter-IsSound = record { points = new_limiter-Points; has_default = (12, refl) }
