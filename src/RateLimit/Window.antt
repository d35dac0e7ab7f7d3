-- ===== src/RateLimit/Window.antt =====
-- internal/middleware/custom/redis_ratelimit.go: how many requests pass in a window.
use sampmail.Prelude.{
  ℕ, ◌+◌, ◌≤◌, ◌<◌, ◌≡◌, refl, ap, ◌∙◌, Bool, true, false, ◌&&◌, List, [], ◌∷◌, nat_eq, ◌==◌, ltb,
  ltb→lt, leb, length, All, arith, if◌then◌else◌, Bool-cases, inl, inr,
}
use sampmail.RateLimit.{Entry, prune, has_entry, add_entry, sliding_window, Limiter, allow, serve}

-- How many of the times are within the window that ends at `now`: not after it, and less than a
-- window before it.
pub in_window : ℕ → ℕ → List ℕ → ℕ
in_window window now [] = 0
in_window window now (t ∷ ts) =
    (if leb t now && ltb now (t + window) then 1 else 0) + in_window window now ts

-- The times of the requests rise.
abbrev pub IsRising : ℕ → List (ℕ × ℕ) → Type 0
IsRising last [] = Unit {0}
IsRising last (r ∷ rs) = (last < r.0) × IsRising r.0 rs

abbrev Before : ℕ → List ℕ → Type 0
Before last [] = Unit {0}
Before last (t ∷ ts) = (t ≤ last) × Before last ts

Before_mono : (a b : ℕ) (ts : List ℕ) → a ≤ b → Before a ts → Before b ts
Before_mono a b [] h p = tt
Before_mono a b (t ∷ ts) h p = (omega (arith, p.0), Before_mono a b ts h p.1)

prune-prune :
    (window a b : ℕ) (es : List Entry)
    → a ≤ b
    → prune window b (prune window a es) ≡ prune window b es
unfolding prune
prune-prune window a b [] h = refl
prune-prune window a b (e ∷ es) h = ground (arith, prune-prune window a b es h)

-- A later end of the window counts no more of the times that are before both ends.
in_window_mono :
    (window a b : ℕ) (ts : List ℕ)
    → a ≤ b
    → Before a ts
    → in_window window b ts ≤ in_window window a ts
unfolding in_window
in_window_mono window a b [] h p = omega arith
in_window_mono window a b (t ∷ ts) h p =
    let ih = in_window_mono window a b ts h p.1 in let early = p.0 in ground (arith, ih, early)

-- The set holds the passed times that a later call still counts.
record IsTracked (window limit last : ℕ) (es : List Entry) (passed : List ℕ) : Type 0 where
  before : Before last passed
  fresh : All (λ (e : Entry). e.0 ≤ last) es
  counted : (now : ℕ) → last ≤ now → length (prune window now es) ≡ in_window window now passed
  bounded : (now : ℕ) → in_window window now passed ≤ limit

prune-All :
    (window now last later : ℕ) (es : List Entry)
    → last ≤ later
    → All (λ (e : Entry). e.0 ≤ last) es
    → All (λ (e : Entry). e.0 ≤ later) (prune window now es)
unfolding prune
prune-All window now last later [] h p = tt
prune-All window now last later (e ∷ es) h p =
    let rest = prune-All window now last later es h p.1 in
    elim (Bool-cases (ltb now (e.0 + window))) [
      | inl k ↦ rw (k, prune) (omega (arith, p.0), rest)
      | inr k ↦ rw (k, prune) rest
    ]

new_entry :
    (now random : ℕ) (es : List Entry) (last : ℕ)
    → last < now
    → All (λ (e : Entry). e.0 ≤ last) es
    → has_entry now random es ≡ false
unfolding has_entry
new_entry now random [] last h p = refl
new_entry now random (e ∷ es) last h p =
    let ih = new_entry now random es last h p.1 in
    let other = p.0 in let k : (e.0 == now) ≡ false = ground (arith, other) in rw k ih

module _ (window limit : ℕ) where
  passed-IsTracked :
      (last now random : ℕ) (es : List Entry) (passed : List ℕ)
      → last < now
      → IsTracked window limit last es passed
      → length (prune window now es) < limit
      → IsTracked window limit now ((now, random) ∷ prune window now es) (now ∷ passed)
  unfolding prune in_window
  passed-IsTracked last now random es passed rises track room =
      let earlier : Before now passed = Before_mono last now passed (omega arith) track.before in
      record {
        before = (omega arith, earlier);
        fresh = (omega arith, prune-All window now last now es (omega arith) track.fresh);
        counted = λ (later : ℕ) (h : now ≤ later).
            ground (arith, prune-prune window now later es h, track.counted later);
        bounded = λ (at : ℕ). ground (
          arith,
          track.bounded at,
          track.counted now,
          in_window_mono window now at passed,
          earlier,
        );
      }

  refused-IsTracked :
      (last now : ℕ) (es : List Entry) (passed : List ℕ)
      → last < now
      → IsTracked window limit last es passed
      → IsTracked window limit now (prune window now es) passed
  refused-IsTracked last now es passed rises track = record {
    before = Before_mono last now passed (omega arith) track.before;
    fresh = prune-All window now last now es (omega arith) track.fresh;
    counted = λ (later : ℕ) (h : now ≤ later).
        ap length (prune-prune window now later es h) ∙ track.counted later (omega arith);
    bounded = track.bounded;
  }

pub allow-enabled :
    (rl : Limiter) (now random : ℕ) (es : List Entry)
    → rl.enabled ≡ true
    → allow rl true now random es ≡ sliding_window rl.window rl.rate now random es
unfolding allow
allow-enabled rl now random es on = ground (arith, on)

pub serve-cons :
    (rl : Limiter) (now random : ℕ) (requests : List (ℕ × ℕ)) (es es' : List Entry)
    (passed : List ℕ) (ok : Bool)
    → allow rl true now random es ≡ (es', ok)
    → serve rl ((now, random) ∷ requests) (es, passed)
      ≡ serve rl requests (es', if ok then now ∷ passed else passed)
unfolding serve
serve-cons rl now random requests es es' passed ok e =
    ap (λ (r : List Entry × Bool). serve rl requests (r.0, if r.1 then now ∷ passed else passed)) e

serve_bounds :
    (rl : Limiter) (last at : ℕ) (requests : List (ℕ × ℕ)) (es : List Entry) (passed : List ℕ)
    → rl.enabled ≡ true
    → IsRising last requests
    → IsTracked rl.window rl.rate last es passed
    → in_window rl.window at (serve rl requests (es, passed)).1 ≤ rl.rate
unfolding serve sliding_window add_entry
serve_bounds rl last at [] es passed on rising track = track.bounded at
serve_bounds rl last at ((now, random) ∷ requests) es passed on rising track =
    let kept = prune rl.window now es in
    elim (Bool-cases (ltb (length kept) rl.rate)) [
      | inl room ↦
          let fresh : has_entry now random kept ≡ false =
            new_entry now random kept last rising.0
              (prune-All rl.window now last last es (omega arith) track.fresh) in
          let step : sliding_window rl.window rl.rate now random es ≡ ((now, random) ∷ kept, true) =
            rw (room, sliding_window) (rw (fresh, add_entry) refl) in
          rw
            (serve-cons rl now random requests es ((now, random) ∷ kept) passed true
              (allow-enabled rl now random es on ∙ step))
            (serve_bounds rl now at requests ((now, random) ∷ kept) (now ∷ passed) on rising.1 (
              passed-IsTracked rl.window rl.rate last now random es passed rising.0 track
                (ltb→lt _ _ room)))
      | inr full ↦
          let step : sliding_window rl.window rl.rate now random es ≡ (kept, false) =
            rw (full, sliding_window) refl in
          rw
            (serve-cons rl now random requests es kept passed false
              (allow-enabled rl now random es on ∙ step))
            (serve_bounds rl now at requests kept passed on rising.1
              (refused-IsTracked rl.window rl.rate last now es passed rising.0 track))
    ]

-- With Redis there, and requests under one key at rising times, the first after 0, no window of the
-- limiter's length holds more passed requests than its rate.
pub window_bounds :
    (rl : Limiter) (requests : List (ℕ × ℕ)) (at : ℕ)
    → rl.enabled ≡ true
    → IsRising 0 requests
    → in_window rl.window at (serve rl requests ([], [])).1 ≤ rl.rate
unfolding in_window prune
window_bounds rl requests at on rising = serve_bounds rl 0 at requests [] [] on rising (record {
  before = tt;
  fresh = tt;
  counted = λ (now : ℕ) (h : 0 ≤ now). refl;
  bounded = λ (now : ℕ). omega arith;
})
