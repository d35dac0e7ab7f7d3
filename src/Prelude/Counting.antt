-- ===== src/Prelude/Counting.antt =====
-- Counting the numbers below a bound that pass a test. No program code here.
use sampmail.Prelude.Tests.{ltb, leb, if◌then◌else◌}
use Prim.Native.Nat.{ℕ, zero, suc, ◌+◌, ◌≤◌, ◌<◌, min}
use mathlib.Core.Path.{◌≡◌, refl}
use mathlib.Core.Bool.{Bool, ◌&&◌}
use native.Mathlib.Omega.{arith}

-- The numbers from `a` on and below `b`.
abbrev pub within : ℕ → ℕ → ℕ → Bool
within a b x = leb a x && ltb x b

unfoldable pub count_below : ℕ → (ℕ → Bool) → ℕ
count_below zero p = 0
count_below (suc n) p = (if p n then 1 else 0) + count_below n p

pub count_below-within : (n a b : ℕ) → a ≤ b → count_below n (within a b) + min n a ≡ min n b
unfolding count_below
count_below-within zero a b h = omega arith
count_below-within (suc n) a b h = ground (arith, count_below-within n a b h)

pub count_below-same :
    (n : ℕ) (p q : ℕ → Bool) → ((x : ℕ) → x < n → p x ≡ q x) → count_below n p ≡ count_below n q
unfolding count_below
count_below-same zero p q h = refl
count_below-same (suc n) p q h =
    rw (h n (omega arith), count_below-same n p q (λ x below. h x (omega arith))) refl
