-- ===== src/Examples/FixedPoint/Laws.antt =====
-- The fixed-point numbers keep the laws of the interface.
use native.Mathlib.Nat.{
  mul-le-mul_left, mul-le-mul_right, mul-le-mul, mul-div_cancel, div-one, one-le-pow, pow-suc,
  pow-le-pow_right, le-div_iff_mul-le, div-mul-le_self, div-eq_of_lt,
}
use native.Mathlib.Decide.{dec_lt}
use mathlib.Core.Path.{ap₂}
use counterparty_sharedos.Prelude.{
  ℕ, zero, suc, ◌+◌, ◌-◌, ◌*◌, ◌/◌, ◌^◌, ◌≤◌, ◌<◌, ◌≡◌, refl, sym, ap, ◌∙◌, true, false, arith,
}
use counterparty_sharedos.Prelude.Int.{ℤ, pos, negsuc, pos_part, neg_part, sub_ℕ, ltb_ℤ}
use counterparty_sharedos.Sorting.{IsStrictWeak}
use counterparty_sharedos.Floats.{IsIeee, exact}
use counterparty_sharedos.Examples.FixedPoint.{
  scale, decimal, negate, plus, minus, times, quotient, step, to_places, fixed_point,
}
use counterparty_sharedos.Examples.FixedPoint.Order.{
  sub_ℕ-parts, pos_part-negate, neg_part-negate, negate-sub_ℕ, ltb_ℤ-false, ltb_ℤ-≤ℤ, sub_ℕ-eq,
  sub_ℕ-eq-pos, sub_ℕ-le-pos, pos-le-sub_ℕ, sub_ℕ-le, div_cross, div_le,
}

abbrev Below : ℤ → ℤ → Type 0
Below a b = ltb_ℤ b a ≡ false

pos-le : (a b : ℕ) → Below (pos a) (pos b) → a ≤ b
pos-le a b h = ground arith

order : IsStrictWeak ltb_ℤ
order = record { asymm = (λ a b h. ground arith); trans = (λ a b c h k. ground arith) }

ten_pow_pos : (k : ℕ) → 0 < 10 ^ k
ten_pow_pos k = one-le-pow k 10 (omega arith)

lit_mono : (m k n j : ℕ) → m * 10 ^ j ≤ n * 10 ^ k → Below (decimal m k) (decimal n j)
lit_mono m k n j h = ltb_ℤ-false (decimal n j) (decimal m k) (
    omega (
      arith,
      div_cross (m * scale) (10 ^ k) (n * scale) (10 ^ j) (ten_pow_pos k) (ten_pow_pos j)
          (omega (arith, mul-le-mul_right scale h)),
    ))

nat_lt : (m n : ℕ) → m < n → n ≤ exact → ltb_ℤ (decimal m 0) (decimal n 0) ≡ true
nat_lt m n h k = ground arith

add_mono : (a b c d : ℤ) → Below a b → Below c d → Below (plus a c) (plus b d)
add_mono a b c d h k = sub_ℕ-le _ _ _ _ (omega (arith, ltb_ℤ-≤ℤ b a h, ltb_ℤ-≤ℤ d c k))

sub_mono : (a b c d : ℤ) → Below a b → Below d c → Below (minus a c) (minus b d)
sub_mono a b c d h k = sub_ℕ-le _ _ _ _ (omega (arith, ltb_ℤ-≤ℤ b a h, ltb_ℤ-≤ℤ c d k))

neg_lt : (a b : ℤ) → ltb_ℤ (negate a) (negate b) ≡ ltb_ℤ b a
neg_lt a b = ground arith

mul_mono :
    (a b c d : ℤ)
    → Below (decimal 0 0) a
    → Below a b
    → Below (decimal 0 0) c
    → Below c d
    → Below (times a c) (times b d)
mul_mono (pos a) (pos b) (pos c) (pos d) h0 h h1 k = sub_ℕ-le _ _ _ _ (
    omega (
      arith,
      div_le (a * c) (b * d) scale (omega arith) (mul-le-mul (pos-le a b h) (pos-le c d k)),
    ))
mul_mono _ _ _ _ h0 h h1 k = ground arith

mul_mono_right : (a c d : ℤ) → Below (decimal 0 0) a → Below c d → Below (times a c) (times a d)
mul_mono_right (pos a) (pos c) (pos d) h k =
    sub_ℕ-le _ _ _ _
      (omega (arith, div_le (a * c) (a * d) scale (omega arith) (mul-le-mul_left a (pos-le c d k))))
mul_mono_right (pos a) (negsuc c) (pos d) h k = sub_ℕ-le _ _ _ _ (omega arith)
mul_mono_right (pos a) (negsuc c) (negsuc d) h k = sub_ℕ-le _ _ _ _ (
    omega (
      arith,
      div_le (a * suc d) (a * suc c) scale (omega arith)
          (mul-le-mul_left a (omega (arith, ltb_ℤ-≤ℤ (negsuc d) (negsuc c) k))),
    ))
mul_mono_right _ _ _ h k = ground arith

mul_neg : (a b : ℤ) → times a (negate b) ≡ negate (times a b)
mul_neg a b =
    ap₂
      (λ p n.
        sub_ℕ ((pos_part a * p + neg_part a * n) / scale)
          ((pos_part a * n + neg_part a * p) / scale))
      (pos_part-negate b) (neg_part-negate b)
    ∙ sym (
        negate-sub_ℕ ((pos_part a * pos_part b + neg_part a * neg_part b) / scale)
          ((pos_part a * neg_part b + neg_part a * pos_part b) / scale))

one_mul : (a : ℤ) → times (decimal 1 0) a ≡ a
one_mul a =
    ap₂ sub_ℕ {x = (scale * pos_part a + 0 * neg_part a) / scale} (omega arith) (omega arith)
    ∙ sub_ℕ-parts a

zero_mul : (a : ℤ) → Below (decimal 0 0) a → Below (times (decimal 0 0) a) (decimal 0 0)
zero_mul a h = sub_ℕ-le _ _ 0 0 (omega arith)

div_mono :
    (a b c d : ℤ)
    → Below (decimal 0 0) a
    → Below a b
    → ltb_ℤ (decimal 0 0) c ≡ true
    → Below c d
    → Below (quotient a d) (quotient b c)
div_mono (pos a) (pos b) (pos c) (pos d) h0 h hc k = sub_ℕ-le _ _ _ _ (
    omega (
      arith,
      div_cross (a * scale) d (b * scale) c (ground arith) (ground arith)
          (mul-le-mul (ground arith) (ground arith)),
    ))
div_mono _ _ _ _ h0 h hc k = ground arith

-- a natural number is its multiple of the scale
decimal_zero : (n : ℕ) → decimal n 0 ≡ pos (n * scale)
decimal_zero n = ap pos (omega arith)

whole_quotient :
    (a b : ℕ) → a * scale / 1 * scale / (b * scale / 1) ≡ a * scale * scale / (b * scale)
whole_quotient a b = ap₂ (λ x y. x * scale / y) (div-one (a * scale)) (div-one (b * scale))

div_le_lit :
    (a b m k : ℕ)
    → 0 < b
    → a ≤ exact
    → b ≤ exact
    → a * 10 ^ k ≤ m * b
    → Below (quotient (decimal a 0) (decimal b 0)) (decimal m k)
div_le_lit a b m k hb ha hb' h = sub_ℕ-le-pos _ _ (m * scale / 10 ^ k) (
    omega (
      arith,
      whole_quotient a b,
      div_cross (a * scale * scale) (b * scale) (m * scale) (10 ^ k) (omega arith) (ten_pow_pos k)
          (omega (arith, mul-le-mul_right (scale * scale) h)),
    ))

lit_le_div :
    (a b m k : ℕ)
    → 0 < b
    → a ≤ exact
    → b ≤ exact
    → m * b ≤ a * 10 ^ k
    → Below (decimal m k) (quotient (decimal a 0) (decimal b 0))
lit_le_div a b m k hb ha hb' h = pos-le-sub_ℕ _ _ (m * scale / 10 ^ k) (
    omega (
      arith,
      whole_quotient a b,
      div_cross (m * scale) (10 ^ k) (a * scale * scale) (b * scale) (ten_pow_pos k) (omega arith)
          (omega (arith, mul-le-mul_right (scale * scale) h)),
    ))

div_self : (a : ℤ) → ltb_ℤ (decimal 0 0) a ≡ true → quotient a a ≡ decimal 1 0
div_self (pos a) h = sub_ℕ-eq-pos _ _ scale (omega (arith, div_scale a (ground arith)))
  where
    div_scale : (n : ℕ) → 0 < n → n * scale / n ≡ scale
    div_scale n p = ap (λ x. x / n) (omega arith) ∙ mul-div_cancel scale p
div_self (negsuc a) h = ground arith

zero_div : (a : ℤ) → ltb_ℤ (decimal 0 0) a ≡ true → quotient (decimal 0 0) a ≡ decimal 0 0
zero_div (pos a) h = sub_ℕ-eq-pos _ _ 0 (omega arith)
zero_div (negsuc a) h = ground arith

add_nat : (m n : ℕ) → m + n ≤ exact → plus (decimal m 0) (decimal n 0) ≡ decimal (m + n) 0
add_nat m n h = sub_ℕ-eq-pos _ _ ((m + n) * scale / 1) (omega arith)

sub_nat : (m n : ℕ) → n ≤ m → m ≤ exact → minus (decimal m 0) (decimal n 0) ≡ decimal (m - n) 0
sub_nat m n h k = sub_ℕ-eq-pos _ _ ((m - n) * scale / 1) (omega arith)

sub_zero : (a : ℤ) → minus a (decimal 0 0) ≡ a
sub_zero a = ground arith

nat_sub_neg :
    (m n : ℕ) → m < n → n ≤ exact → minus (decimal m 0) (decimal n 0) ≡ negate (decimal (n - m) 0)
nat_sub_neg m n h k = sub_ℕ-eq _ _ _ _ (omega arith)

neg_sub_nat :
    (m n : ℕ)
    → m + n ≤ exact
    → minus (negate (decimal m 0)) (decimal n 0) ≡ negate (decimal (m + n) 0)
neg_sub_nat m n h =
    sub_ℕ-eq _ _ _ _ (omega (arith, pos_part-negate (decimal m 0), neg_part-negate (decimal m 0)))

add_neg_nat : (n : ℕ) → n ≤ exact → plus (decimal n 0) (negate (decimal n 0)) ≡ decimal 0 0
add_neg_nat n h =
    sub_ℕ-eq-pos _ _ 0 (omega (arith, pos_part-negate (decimal n 0), neg_part-negate (decimal n 0)))

mul_nat : (m n : ℕ) → m * n ≤ exact → times (decimal m 0) (decimal n 0) ≡ decimal (m * n) 0
mul_nat m n h = sub_ℕ-eq-pos _ _ (m * n * scale / 1) (omega (arith, whole m n))
  where
    whole : (m n : ℕ) → m * scale / 1 * (n * scale / 1) / scale ≡ m * n * scale
    whole m n =
        ap₂ (λ x y. x * y / scale) (div-one (m * scale)) (div-one (n * scale))
        ∙ ap (λ x. x / scale) {y = m * n * scale * scale} (omega arith)
        ∙ mul-div_cancel (m * n * scale) (omega arith)

half_rest :
    (c : ℤ)
    → Below (decimal 0 0) c
    → Below c (decimal 1 0)
    → Below (plus (times (decimal 5 1) (minus (decimal 1 0) c)) c) (decimal 1 0)
half_rest (pos c) h k = ground arith
half_rest (negsuc c) h k = ground arith

pow_sum : (i d : ℕ) → 10 ^ (i + d) ≡ 10 ^ i * 10 ^ d
pow_sum zero d = ap (λ x. 10 ^ x) {y = d} (omega arith) ∙ omega arith
pow_sum (suc i) d =
    ap (λ x. 10 ^ x) {y = suc (i + d)} (omega arith)
    ∙ pow-suc 10 (i + d)
    ∙ ap (λ x. x * 10) (pow_sum i d)
    ∙ omega arith
    ∙ ap (λ x. x * 10 ^ d) {x = 10 ^ i * 10} (sym (pow-suc 10 i))

lit_lt : (m n k : ℕ) → m < n → n ≤ 10 ^ 15 → k ≤ 20 → ltb_ℤ (decimal m k) (decimal n k) ≡ true
lit_lt m n k h b c = ground (arith, apart)
  where
    small : 10 ^ k ≤ scale
    small = pow-le-pow_right (omega arith) c

    apart : m * scale / 10 ^ k < n * scale / 10 ^ k
    apart =
        (le-div_iff_mul-le (ten_pow_pos k)).1
          (omega (arith, div-mul-le_self (m * scale) (10 ^ k), small, mul-le-mul_right scale h))

step_pos : (k : ℕ) → 0 < step k
step_pos k = omega arith

-- a multiple of the step stays
to_places_multiple : (k d : ℕ) → d * step k / step k * step k ≡ d * step k
to_places_multiple k d = ap (λ x. x * step k) (mul-div_cancel d (step_pos k))

step_small : (k : ℕ) → k ≤ 20 → step k ≡ 10 ^ (20 - k)
step_small k h = omega (arith, quotient_of_powers, ten_pow_pos (20 - k))
  where
    split : scale ≡ 10 ^ (20 - k) * 10 ^ k
    split = ap (λ x. 10 ^ x) {x = 20} {y = 20 - k + k} (omega arith) ∙ pow_sum (20 - k) k

    quotient_of_powers : scale / 10 ^ k ≡ 10 ^ (20 - k)
    quotient_of_powers = ap (λ x. x / 10 ^ k) split ∙ mul-div_cancel (10 ^ (20 - k)) (ten_pow_pos k)

step_large : (k : ℕ) → 20 < k → step k ≡ 1
step_large k h = omega (
  arith,
  div-eq_of_lt {n = scale} {m = 10 ^ k}
      (omega (arith, pow-le-pow_right {n = 10} (omega arith) {i = 21} {j = k} h)),
)

decimal_steps : (k m j : ℕ) → j ≤ k → (d : ℕ) × (m * scale / 10 ^ j ≡ d * step k)
decimal_steps k m j h = elim (dec_lt 20 k) [
  | yes large ↦ (
    m * scale / 10 ^ j,
    omega arith ∙ sym (ap (λ x. m * scale / 10 ^ j * x) (step_large k large)),
  )
  | no small ↦ (m * 10 ^ (k - j), scaled (omega arith))
]
  where
    scaled : k ≤ 20 → m * scale / 10 ^ j ≡ m * 10 ^ (k - j) * step k
    scaled small =
        ap (λ x. x / 10 ^ j) {y = m * 10 ^ (k - j) * 10 ^ (20 - k) * 10 ^ j}
          (ap (λ x. m * x) split ∙ omega arith)
        ∙ mul-div_cancel (m * 10 ^ (k - j) * 10 ^ (20 - k)) (ten_pow_pos j)
        ∙ ap (λ x. m * 10 ^ (k - j) * x) (sym (step_small k small))
      where
        split : scale ≡ 10 ^ (k - j) * 10 ^ (20 - k) * 10 ^ j
        split =
            ap (λ x. 10 ^ x) {x = 20} {y = k - j + (20 - k) + j} (omega arith)
            ∙ pow_sum (k - j + (20 - k)) j
            ∙ ap (λ x. x * 10 ^ j) (pow_sum (k - j) (20 - k))

round_lit : (k m j : ℕ) → j ≤ k → m ≤ 10 ^ 15 → to_places k (decimal m j) ≡ decimal m j
round_lit k m j h b =
    let (d, e) = decimal_steps k m j h in
    rw e (
      sub_ℕ-eq-pos (d * step k / step k * step k) _ (d * step k)
        (omega (arith, to_places_multiple k d)))

truncate_le : (a b q : ℕ) → 0 < q → a ≤ b → a / q * q ≤ b / q * q
truncate_le a b q p h = mul-le-mul_right q (div_le a b q p h)

round_mono : (k : ℕ) (a b : ℤ) → Below a b → Below (to_places k a) (to_places k b)
round_mono k a b h = sub_ℕ-le _ _ _ _ (
    omega (
      arith,
      truncate_le (pos_part a) (pos_part b) (step k) (step_pos k) (ground arith),
      truncate_le (neg_part b) (neg_part a) (step k) (step_pos k) (ground arith),
    ))

pub fixed_point-IsIeee : IsIeee fixed_point
fixed_point-IsIeee = record {
  order = order;
  lit_mono = lit_mono;
  nat_lt = nat_lt;
  lit_lt = lit_lt;
  neg_lt = neg_lt;
  neg_zero = refl;
  add_mono = add_mono;
  sub_mono = sub_mono;
  mul_mono = mul_mono;
  mul_mono_right = mul_mono_right;
  mul_neg = mul_neg;
  one_mul = one_mul;
  zero_mul = zero_mul;
  div_mono = div_mono;
  div_le_lit = div_le_lit;
  lit_le_div = lit_le_div;
  div_self = div_self;
  zero_div = zero_div;
  add_nat = add_nat;
  sub_nat = sub_nat;
  sub_zero = sub_zero;
  nat_sub_neg = nat_sub_neg;
  neg_sub_nat = neg_sub_nat;
  add_neg_nat = add_neg_nat;
  mul_nat = mul_nat;
  sqrt_nonneg = (λ a h. h);
  round_mono = round_mono;
  round_lit = round_lit;
  half_rest = half_rest;
}
