-- ===== src/Examples/FixedPoint/Order.antt =====
-- The order of integers by their parts, and quotients.
use native.Mathlib.Nat.{
  le-div_iff_mul-le, le_of_mul-le-mul_right, div-mul-le_self, mul-le-mul_right,
}
use counterparty_sharedos.Prelude.{ℕ, ◌+◌, ◌-◌, ◌*◌, ◌/◌, ◌≤◌, ◌<◌, ◌≡◌, false, arith}
use counterparty_sharedos.Prelude.Int.{ℤ, pos, pos_part, neg_part, sub_ℕ, ltb_ℤ, ◌≤ℤ◌}
use counterparty_sharedos.Examples.FixedPoint.{negate}

pub pos_part-sub_ℕ : (a b : ℕ) → pos_part (sub_ℕ a b) ≡ a - b
pos_part-sub_ℕ a b = ground arith

pub neg_part-sub_ℕ : (a b : ℕ) → neg_part (sub_ℕ a b) ≡ b - a
neg_part-sub_ℕ a b = ground arith

pub sub_ℕ-parts : (a : ℤ) → sub_ℕ (pos_part a) (neg_part a) ≡ a
sub_ℕ-parts a = ground arith

-- only one of the parts is not zero
pub pos_part-negate : (a : ℤ) → pos_part (negate a) ≡ neg_part a
pos_part-negate a = ground arith

pub neg_part-negate : (a : ℤ) → neg_part (negate a) ≡ pos_part a
neg_part-negate a = ground arith

pub negate-sub_ℕ : (a b : ℕ) → negate (sub_ℕ a b) ≡ sub_ℕ b a
negate-sub_ℕ a b = ground arith

pub sub_ℕ-eq : (a b c d : ℕ) → a + d ≡ c + b → sub_ℕ a b ≡ sub_ℕ c d
sub_ℕ-eq a b c d h = ground arith

pub sub_ℕ-eq-pos : (a b c : ℕ) → a ≡ c + b → sub_ℕ a b ≡ pos c
sub_ℕ-eq-pos a b c h = ground arith

pub sub_ℕ-le-pos : (a b c : ℕ) → a ≤ c + b → ltb_ℤ (pos c) (sub_ℕ a b) ≡ false
sub_ℕ-le-pos a b c h = ground arith

pub pos-le-sub_ℕ : (a b c : ℕ) → c + b ≤ a → ltb_ℤ (sub_ℕ a b) (pos c) ≡ false
pos-le-sub_ℕ a b c h = ground arith

pub ltb_ℤ-false : (a b : ℤ) → b ≤ℤ a → ltb_ℤ a b ≡ false
ltb_ℤ-false a b h = ground arith

pub ltb_ℤ-≤ℤ : (a b : ℤ) → ltb_ℤ a b ≡ false → b ≤ℤ a
ltb_ℤ-≤ℤ a b h = ground arith

-- a - b ≤ c - d
pub sub_ℕ-le : (a b c d : ℕ) → a + d ≤ c + b → ltb_ℤ (sub_ℕ c d) (sub_ℕ a b) ≡ false
sub_ℕ-le a b c d h = ground arith

pub div_cross : (x y z w : ℕ) → 0 < y → 0 < w → x * w ≤ z * y → x / y ≤ z / w
div_cross x y z w hy hw h =
    (le-div_iff_mul-le hw).1
      (le_of_mul-le-mul_right {k = y} (omega (arith, mul-le-mul_right w (div-mul-le_self x y))) hy)

pub div_le : (x z w : ℕ) → 0 < w → x ≤ z → x / w ≤ z / w
div_le x z w hw h = div_cross x w z w hw hw (mul-le-mul_right w h)
