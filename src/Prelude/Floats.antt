-- ===== src/Prelude/Floats.antt =====
-- Go's float64 as a parameter: the operations that the program uses on numbers that are not negative,
-- with the IEEE-754 facts that the theorems need. No program code here.
use Prim.Native.Nat.{ℕ, ◌+◌, ◌-◌, ◌*◌, ◌/◌, ◌≤◌, ◌<◌, ◌^◌}
use mathlib.Core.Path.{◌≡◌, refl}
use mathlib.Core.Bool.{Bool, true, false}
use native.Mathlib.Omega.{arith}
use sampmail.Prelude.Tests.{ltb}

pub record Floats : Type 1 where
  pub Float : Type 0
  pub float : ℕ → Float
  pub times : Float → Float → Float
  -- int(x), for an x that is not negative
  pub truncate : Float → ℕ
  pub less : Float → Float → Bool
  pub zero_float : Float
  -- 0.01 and 1.0
  pub hundredth : Float
  pub one_float : Float
  pub plus : Float → Float → Float
  -- x - y, for a y that is at most x
  pub minus : Float → Float → Float
  pub over : Float → Float → Float
  -- An integer below 2^53 is exact, and so is its product with 1.
  pub truncate-times-one : (n : ℕ) → n < 2 ^ 53 → truncate (times (float n) one_float) ≡ n
  -- A factor of at most 1 does not raise the product.
  pub truncate-times-le :
      (n : ℕ) (f : Float) → n < 2 ^ 53 → less one_float f ≡ false → truncate (times (float n) f) ≤ n
  pub truncate-float : (n : ℕ) → n < 2 ^ 53 → truncate (float n) ≡ n
  pub truncate_mono : (x y : Float) → less y x ≡ false → truncate x ≤ truncate y
  pub less_irreflexive : (x : Float) → less x x ≡ false
  pub zero-lt-one : less zero_float one_float ≡ true
  pub one_irreflexive : less one_float one_float ≡ false
  pub zero-lt-hundredth : less zero_float hundredth ≡ true
  pub hundredth-le-one : less one_float hundredth ≡ false

product_le : (n f : ℕ) → f ≤ 100 → n * f ≤ n * 100
product_le n f h = grind arith

pub percent_le : (n f : ℕ) → ltb 100 f ≡ false → n * 100 * f / 100 / 100 ≤ n
percent_le n f h = let k : f ≤ 100 = ground arith in omega (arith, product_le n f k)

pub hundredths_mono : (x y : ℕ) → ltb y x ≡ false → x / 100 ≤ y / 100
hundredths_mono x y h = let k : x ≤ y = ground arith in omega arith

pub ltb_irreflexive : (x : ℕ) → ltb x x ≡ false
ltb_irreflexive x = ground arith

-- Hundredths meet the assumptions.
abbrev pub percents : Floats
percents = record {
  Float = ℕ;
  float = λ n. n * 100;
  times = λ a b. a * b / 100;
  truncate = λ a. a / 100;
  less = ltb;
  zero_float = 0;
  hundredth = 1;
  one_float = 100;
  truncate-times-one = λ n h. omega arith;
  truncate-times-le = λ n f h k. percent_le n f k;
  plus = λ a b. a + b;
  minus = λ a b. a - b;
  over = λ a b. a * 100 / b;
  truncate-float = λ n h. omega arith;
  truncate_mono = λ x y h. hundredths_mono x y h;
  less_irreflexive = ltb_irreflexive;
  zero-lt-one = refl;
  one_irreflexive = refl;
  zero-lt-hundredth = refl;
  hundredth-le-one = refl;
}
