-- ===== src/AbTest/Shares.antt =====
-- internal/core/ab_test.go: how `GetVariantForRecipient` splits the recipients.
use sampmail.Prelude.{
  ℕ, zero, suc, ◌+◌, ◌-◌, ◌%◌, ◌≤◌, ◌<◌, ◌≡◌, refl, ap, Bool, true, false, Option, none, some, List,
  [], ◌∷◌, arith, ltb, nat_eq, ◌==◌, length, if◌then◌else◌, Bool-cases, inl, inr,
}
use sampmail.Prelude.Counting.{count_below, within, count_below-within, count_below-same}
use sampmail.Prelude.Int.{ℤ, pos, ◌+ℤ◌}
use sampmail.AbTest.{AbTest, variant_of, pick_from, check_test, fine, total}

abbrev pub shares : List ℕ → List ℤ
shares [] = []
shares (n ∷ ns) = pos n ∷ shares ns

abbrev pub sum : List ℕ → ℕ
sum [] = 0
sum (n ∷ ns) = n + sum ns

-- The share of a place; none beyond the end.
abbrev pub share : List ℕ → ℕ → ℕ
share [] k = 0
share (n ∷ ns) zero = n
share (n ∷ ns) (suc k) = share ns k

-- Where the shares before a place end.
abbrev pub before : List ℕ → ℕ → ℕ
before [] k = 0
before (n ∷ ns) zero = 0
before (n ∷ ns) (suc k) = n + before ns k

add_pos : (c n : ℕ) → pos c +ℤ pos n ≡ pos (c + n)
unfolding ◌+ℤ◌
add_pos c n = ground arith

-- The place in whose share a hash falls.
place : List ℕ → ℕ → ℕ
place [] h = 0
place (n ∷ ns) h = let later = suc (place ns (h - n)) in if ltb h n then 0 else later

pick_from-place :
    (ns : List ℕ) (i c h count : ℕ)
    → h < sum ns
    → i + length ns ≤ count
    → pick_from i (pos c) (shares ns) (c + h) count ≡ some (i + place ns h)
unfolding pick_from place
pick_from-place [] i c h count below fits = absurd (omega arith)
pick_from-place (n ∷ ns) i c h count below fits = rw (add_pos c n) (elim (Bool-cases (ltb h n)) [
  | inl here ↦
      let first : ltb (c + h + 0) (c + n + 0) ≡ true = ground (arith, here) in
      let room : ltb i count ≡ true = ground arith in
      let e : i + 0 ≡ i = omega arith in rw (here, first, room, e) refl
  | inr past ↦
      let later : ltb (c + h + 0) (c + n + 0) ≡ false = ground (arith, past) in
      let under : h - n < sum ns = ground (arith, past) in
      let e : c + h ≡ c + n + (h - n) = ground (arith, past) in
      let k : i + suc (place ns (h - n)) ≡ suc i + place ns (h - n) = omega arith in
      let rest = pick_from-place ns (suc i) (c + n) (h - n) count under (omega arith) in
      rw (past, later) (rw e (rw k rest))
])

place-within :
    (ns : List ℕ) (k h : ℕ)
    → h < sum ns
    → (place ns h == k) ≡ within (before ns k) (before ns k + share ns k) h
unfolding place
place-within [] k h below = absurd (omega arith)
place-within (n ∷ ns) zero h below = ground arith
place-within (n ∷ ns) (suc k) h below = ground (arith, place-within ns k (h - n))

before-le : (ns : List ℕ) (k : ℕ) → before ns k + share ns k ≤ sum ns
before-le [] k = omega arith
before-le (n ∷ ns) zero = omega arith
before-le (n ∷ ns) (suc k) = omega (arith, before-le ns k)

-- Whether a recipient gets the variant at a place.
abbrev pub gets : ℕ → Option ℕ → Bool
gets k none = false
gets k (some j) = j == k

variant_of-place :
    (t : AbTest) (ns : List ℕ) (h : ℕ)
    → t.traffic_split ≡ shares ns
    → sum ns ≡ 100
    → length ns ≤ length t.variants
    → h < 100
    → variant_of t h ≡ some (place ns h)
unfolding variant_of
variant_of-place t ns h split full fits small =
    let e : h % 100 ≡ 0 + h = omega arith in
    let k : 0 + place ns h ≡ place ns h = omega arith in
    let found = pick_from-place ns 0 0 h (length t.variants) (omega arith) (omega arith) in
    rw (split, e) (rw k at found)

total-shares : (ns : List ℕ) → total (shares ns) ≡ pos (sum ns)
total-shares [] = refl
total-shares (n ∷ ns) = rw (total-shares ns) (add_pos n (sum ns))

length-shares : (ns : List ℕ) → length (shares ns) ≡ length ns
length-shares [] = refl
length-shares (n ∷ ns) = ap suc (length-shares ns)

-- What the checks of CreateTest establish.
checked :
    (t : AbTest) (ns : List ℕ)
    → t.traffic_split ≡ shares ns
    → check_test t ≡ fine
    → (sum ns ≡ 100) × (length ns ≡ length t.variants)
unfolding check_test
checked t ns split h =
    let totals : total t.traffic_split ≡ pos (sum ns) = rw split (total-shares ns) in
    let sizes : length t.traffic_split ≡ length ns = rw split (length-shares ns) in
    (ground (arith, h, totals), ground (arith, h, sizes))

-- Of a test that CreateTest's checks accept and whose shares are not negative, the variant at each
-- place goes to exactly as many of the hundred remainders of a recipient's id as its share says, and
-- to none at a place beyond the last.
pub variant_of-share :
    (t : AbTest) (ns : List ℕ) (k : ℕ)
    → t.traffic_split ≡ shares ns
    → check_test t ≡ fine
    → count_below 100 (λ r. gets k (variant_of t r)) ≡ share ns k
variant_of-share t ns k split accepted =
    let (full, same) = checked t ns split accepted in
    let p = within (before ns k) (before ns k + share ns k) in
    let e : count_below 100 (λ r. gets k (variant_of t r)) ≡ count_below 100 p =
      count_below-same 100 (λ r. gets k (variant_of t r)) p
        (λ x small.
          rw (variant_of-place t ns x split full (omega (arith, same)) small)
            (place-within ns k x (omega (arith, full)))) in
    let sized = count_below-within 100 (before ns k) (before ns k + share ns k) (omega arith) in
    omega (arith, e, sized, before-le ns k, full)
