-- ===== src/Examples/FixedPoint.antt =====
-- Numbers with twenty decimal places, rounded towards zero, as an instance of the interface of floats.
pub mod Order
pub mod Laws
use counterparty_sharedos.Prelude.{ℕ, ◌+◌, ◌-◌, ◌*◌, ◌/◌, ◌^◌, ◌≤◌, max, String}
use counterparty_sharedos.Prelude.Int.{ℤ, pos, negsuc, pos_part, neg_part, sub_ℕ, ltb_ℤ}
use counterparty_sharedos.Floats.{Floats}

abbrev pub scale : ℕ
scale = 10 ^ 20

abbrev pub decimal : ℕ → ℕ → ℤ
decimal m k = pos (m * scale / 10 ^ k)

abbrev pub negate : ℤ → ℤ
negate a = sub_ℕ (neg_part a) (pos_part a)

abbrev pub plus : ℤ → ℤ → ℤ
plus a b = sub_ℕ (pos_part a + pos_part b) (neg_part a + neg_part b)

abbrev pub minus : ℤ → ℤ → ℤ
minus a b = sub_ℕ (pos_part a + neg_part b) (neg_part a + pos_part b)

abbrev pub times : ℤ → ℤ → ℤ
times a b =
    sub_ℕ ((pos_part a * pos_part b + neg_part a * neg_part b) / scale)
      ((pos_part a * neg_part b + neg_part a * pos_part b) / scale)

-- by a positive number
abbrev pub quotient : ℤ → ℤ → ℤ
quotient a b = sub_ℕ (pos_part a * scale / pos_part b) (neg_part a * scale / pos_part b)

-- the distance between two numbers of so many places
abbrev pub step : ℕ → ℕ
step k = max 1 (scale / 10 ^ k)

abbrev pub to_places : ℕ → ℤ → ℤ
to_places k a = sub_ℕ (pos_part a / step k * step k) (neg_part a / step k * step k)

-- The square root is not computed: the laws ask only that it is not negative.
abbrev pub fixed_point : Floats
fixed_point = record {
  F = ℤ;
  lt = ltb_ℤ;
  lit = decimal;
  neg = negate;
  add = plus;
  sub = minus;
  mul = times;
  div = quotient;
  sqrt = (λ a. a);
  round = to_places;
}
