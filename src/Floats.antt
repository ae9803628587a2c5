-- ===== src/Floats.antt =====
-- Python's `float`, as far as the code computes with it: an interface of operations, and the laws of
-- IEEE 754 double arithmetic on finite values that the theorems use. A float is finite here: that a body
-- brings in a NaN or an Infinity, which Python's `json` reads, is outside of the laws. No divisor is zero.
pub mod Order
use counterparty_sharedos.Prelude.{
  ℕ, ◌+◌, ◌-◌, ◌*◌, ◌^◌, ◌≤◌, ◌<◌, ◌≡◌, Bool, true, false, List, [], ◌∷◌, if◌then◌else◌,
}
use counterparty_sharedos.Sorting.{IsStrictWeak}

pub record Floats : Type 1 where
  pub F : Type 0
  -- `<`
  pub lt : F → F → Bool
  -- `lit m k` is the literal m / 10 ** k, and `lit n 0` also the conversion of the int n
  pub lit : ℕ → ℕ → F
  pub neg : F → F
  pub add : F → F → F
  pub sub : F → F → F
  pub mul : F → F → F
  pub div : F → F → F
  pub sqrt : F → F
  -- `round(x, k)`
  pub round : ℕ → F → F

-- `float(n)`
abbrev pub nat : (fl : Floats) → ℕ → fl.F
nat fl n = fl.lit n 0

-- `a <= b`, away from NaN
abbrev pub Le : (fl : Floats) → fl.F → fl.F → Type 0
Le fl a b = fl.lt b a ≡ false

-- between 0 and 1
abbrev pub IsFraction : (fl : Floats) → fl.F → Type 0
IsFraction fl x = Le fl (nat fl 0) x × Le fl x (nat fl 1)

-- `min(a, b)` and `max(a, b)` keep the first of two equal values
abbrev pub fmin : (fl : Floats) → fl.F → fl.F → fl.F
fmin fl a b = if fl.lt b a then b else a

abbrev pub fmax : (fl : Floats) → fl.F → fl.F → fl.F
fmax fl a b = if fl.lt a b then b else a

-- `a >= b`
abbrev pub fge : (fl : Floats) → fl.F → fl.F → Bool
fge fl a b = if fl.lt a b then false else true

-- `sum(xs)`, from the left, as up to Python 3.11; from 3.12 on it compensates for the rounding, and may
-- differ in the last place
abbrev pub sum_from : (fl : Floats) → fl.F → List fl.F → fl.F
sum_from fl acc [] = acc
sum_from fl acc (x ∷ xs) = sum_from fl (fl.add acc x) xs

abbrev pub fsum : (fl : Floats) → List fl.F → fl.F
fsum fl = sum_from fl (nat fl 0)

-- integers up to this bound are floats exactly
abbrev pub exact : ℕ
exact = 2 ^ 53

-- What IEEE 754 says of these operations on finite values: each rounds its exact result, rounding is
-- monotone, and small integers are exact.
pub record IsIeee (fl : Floats) : Type 0 where
  pub order : IsStrictWeak fl.lt
  pub lit_mono : (m k n j : ℕ) → m * 10 ^ j ≤ n * 10 ^ k → Le fl (fl.lit m k) (fl.lit n j)
  pub nat_lt : (m n : ℕ) → m < n → n ≤ exact → fl.lt (fl.lit m 0) (fl.lit n 0) ≡ true
  -- decimals of up to fifteen digits are told apart
  pub lit_lt : (m n k : ℕ) → m < n → n ≤ 10 ^ 15 → k ≤ 20 → fl.lt (fl.lit m k) (fl.lit n k) ≡ true
  pub neg_lt : (a b : fl.F) → fl.lt (fl.neg a) (fl.neg b) ≡ fl.lt b a
  pub neg_zero : Le fl (fl.neg (fl.lit 0 0)) (fl.lit 0 0)
  pub add_mono : (a b c d : fl.F) → Le fl a b → Le fl c d → Le fl (fl.add a c) (fl.add b d)
  pub sub_mono : (a b c d : fl.F) → Le fl a b → Le fl d c → Le fl (fl.sub a c) (fl.sub b d)
  pub mul_mono :
      (a b c d : fl.F)
      → Le fl (fl.lit 0 0) a
      → Le fl a b
      → Le fl (fl.lit 0 0) c
      → Le fl c d
      → Le fl (fl.mul a c) (fl.mul b d)
  pub mul_mono_right :
      (a c d : fl.F) → Le fl (fl.lit 0 0) a → Le fl c d → Le fl (fl.mul a c) (fl.mul a d)
  pub mul_neg : (a b : fl.F) → fl.mul a (fl.neg b) ≡ fl.neg (fl.mul a b)
  pub one_mul : (a : fl.F) → fl.mul (fl.lit 1 0) a ≡ a
  pub zero_mul : (a : fl.F) → Le fl (fl.lit 0 0) a → Le fl (fl.mul (fl.lit 0 0) a) (fl.lit 0 0)
  pub div_mono :
      (a b c d : fl.F)
      → Le fl (fl.lit 0 0) a
      → Le fl a b
      → fl.lt (fl.lit 0 0) c ≡ true
      → Le fl c d
      → Le fl (fl.div a d) (fl.div b c)
  -- a quotient of integers and a decimal are rounded alike
  pub div_le_lit :
      (a b m k : ℕ)
      → 0 < b
      → a ≤ exact
      → b ≤ exact
      → a * 10 ^ k ≤ m * b
      → Le fl (fl.div (fl.lit a 0) (fl.lit b 0)) (fl.lit m k)
  pub lit_le_div :
      (a b m k : ℕ)
      → 0 < b
      → a ≤ exact
      → b ≤ exact
      → m * b ≤ a * 10 ^ k
      → Le fl (fl.lit m k) (fl.div (fl.lit a 0) (fl.lit b 0))
  pub div_self : (a : fl.F) → fl.lt (fl.lit 0 0) a ≡ true → fl.div a a ≡ fl.lit 1 0
  pub zero_div : (a : fl.F) → fl.lt (fl.lit 0 0) a ≡ true → fl.div (fl.lit 0 0) a ≡ fl.lit 0 0
  pub add_nat : (m n : ℕ) → m + n ≤ exact → fl.add (fl.lit m 0) (fl.lit n 0) ≡ fl.lit (m + n) 0
  pub sub_nat : (m n : ℕ) → n ≤ m → m ≤ exact → fl.sub (fl.lit m 0) (fl.lit n 0) ≡ fl.lit (m - n) 0
  pub sub_zero : (a : fl.F) → fl.sub a (fl.lit 0 0) ≡ a
  pub nat_sub_neg :
      (m n : ℕ) → m < n → n ≤ exact → fl.sub (fl.lit m 0) (fl.lit n 0) ≡ fl.neg (fl.lit (n - m) 0)
  pub neg_sub_nat :
      (m n : ℕ)
      → m + n ≤ exact
      → fl.sub (fl.neg (fl.lit m 0)) (fl.lit n 0) ≡ fl.neg (fl.lit (m + n) 0)
  pub add_neg_nat : (n : ℕ) → n ≤ exact → fl.add (fl.lit n 0) (fl.neg (fl.lit n 0)) ≡ fl.lit 0 0
  pub mul_nat : (m n : ℕ) → m * n ≤ exact → fl.mul (fl.lit m 0) (fl.lit n 0) ≡ fl.lit (m * n) 0
  pub sqrt_nonneg : (a : fl.F) → Le fl (fl.lit 0 0) a → Le fl (fl.lit 0 0) (fl.sqrt a)
  pub round_mono : (k : ℕ) (a b : fl.F) → Le fl a b → Le fl (fl.round k a) (fl.round k b)
  -- a decimal of no more places than it is rounded to stays
  pub round_lit : (k m j : ℕ) → j ≤ k → m ≤ 10 ^ 15 → fl.round k (fl.lit m j) ≡ fl.lit m j
  -- 0.5 * (1 - c) + c does not pass 1: halving is exact, and so is 1 - c where c is at least a half
  pub half_rest :
      (c : fl.F)
      → Le fl (fl.lit 0 0) c
      → Le fl c (fl.lit 1 0)
      → Le fl (fl.add (fl.mul (fl.lit 5 1) (fl.sub (fl.lit 1 0) c)) c) (fl.lit 1 0)
