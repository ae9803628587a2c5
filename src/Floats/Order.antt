-- ===== src/Floats/Order.antt =====
-- The order of floats, and the bounds of `min`, `max`, `round` and of sums that the proofs share.
use counterparty_sharedos.Prelude.{
  ℕ, ◌+◌, ◌^◌, ◌≤◌, ◌<◌, ◌≡◌, sym, true, List, [], ◌∷◌, All, length, arith, Bool-cases, inl, inr,
}
use mathlib.Core.Path.{subst}
use native.Mathlib.Nat.{add-zero}
use counterparty_sharedos.Floats.{
  Floats, IsIeee, Le, nat, IsFraction, fmin, fmax, fge, fsum, sum_from, exact,
}

module _ (fl : Floats) (law : IsIeee fl) where
  pub Le_trans : (a b c : fl.F) → Le fl a b → Le fl b c → Le fl a c
  Le_trans a b c h k = law.order.trans a b c h k

  pub lt→Le : (a b : fl.F) → fl.lt a b ≡ true → Le fl a b
  lt→Le a b h = law.order.asymm a b h

  pub Le_refl : (a : fl.F) → Le fl a a
  Le_refl a = elim (Bool-cases (fl.lt a a)) [ inl e ↦ law.order.asymm a a e | inr e ↦ e ]

  pub Le-lt_trans : (a b c : fl.F) → Le fl a b → fl.lt b c ≡ true → fl.lt a c ≡ true
  Le-lt_trans a b c h k = elim (Bool-cases (fl.lt a c)) [
    | inl e ↦ e
    | inr e ↦ absurd (cc (k, law.order.trans c a b e h))
  ]

  pub lt-Le-trans : (a b c : fl.F) → fl.lt a b ≡ true → Le fl b c → fl.lt a c ≡ true
  lt-Le-trans a b c h k = elim (Bool-cases (fl.lt a c)) [
    | inl e ↦ e
    | inr e ↦ absurd (cc (h, law.order.trans b c a k e))
  ]

  pub fge_iff : (a b : fl.F) → fge fl a b ≡ true → Le fl b a
  fge_iff a b h = ground arith

  pub Le→fge : (a b : fl.F) → Le fl b a → fge fl a b ≡ true
  Le→fge a b h = ground arith

  pub fmin-le_left : (a b : fl.F) → Le fl (fmin fl a b) a
  fmin-le_left a b = elim (Bool-cases (fl.lt b a)) [
    | inl e ↦ rw e (lt→Le b a e)
    | inr e ↦ rw e (Le_refl a)
  ]

  pub fmin-le_right : (a b : fl.F) → Le fl (fmin fl a b) b
  fmin-le_right a b = elim (Bool-cases (fl.lt b a)) [ inl e ↦ rw e (Le_refl b) | inr e ↦ rw e e ]

  pub le-fmin : (x a b : fl.F) → Le fl x a → Le fl x b → Le fl x (fmin fl a b)
  le-fmin x a b h k = ground arith

  pub le-fmax_left : (a b : fl.F) → Le fl a (fmax fl a b)
  le-fmax_left a b = elim (Bool-cases (fl.lt a b)) [
    | inl e ↦ rw e (lt→Le a b e)
    | inr e ↦ rw e (Le_refl a)
  ]

  pub fmax-le : (x a b : fl.F) → Le fl a x → Le fl b x → Le fl (fmax fl a b) x
  fmax-le x a b h k = ground arith

  pub nat_mono : (m n : ℕ) → m ≤ n → Le fl (nat fl m) (nat fl n)
  nat_mono m n h = law.lit_mono m 0 n 0 (omega arith)

  -- every decimal literal is at least zero
  pub zero-le-lit : (m k : ℕ) → Le fl (nat fl 0) (fl.lit m k)
  zero-le-lit m k = law.lit_mono 0 0 m k (grind arith)

  pub mul_nonneg :
      (a b : fl.F) → Le fl (nat fl 0) a → Le fl (nat fl 0) b → Le fl (nat fl 0) (fl.mul a b)
  mul_nonneg a b h k =
      rw (sym (law.mul_nat 0 0 (omega arith)))
        (law.mul_mono (nat fl 0) a (nat fl 0) b (Le_refl (nat fl 0)) h (Le_refl (nat fl 0)) k)

  pub add_nonneg :
      (a b : fl.F) → Le fl (nat fl 0) a → Le fl (nat fl 0) b → Le fl (nat fl 0) (fl.add a b)
  add_nonneg a b h k =
      rw (sym (law.add_nat 0 0 (omega arith))) (law.add_mono (nat fl 0) a (nat fl 0) b h k)

  pub div_nonneg :
      (a b : fl.F) → Le fl (nat fl 0) a → fl.lt (nat fl 0) b ≡ true → Le fl (nat fl 0) (fl.div a b)
  div_nonneg a b h k =
      rw (sym (law.zero_div b k))
        (law.div_mono (nat fl 0) a b b (Le_refl (nat fl 0)) h k (Le_refl b))

  pub div-le-one :
      (a b : fl.F)
      → Le fl (nat fl 0) a
      → Le fl a b
      → fl.lt (nat fl 0) b ≡ true
      → Le fl (fl.div a b) (nat fl 1)
  div-le-one a b h k p = rw (sym (law.div_self b p)) (law.div_mono a b b b h k p (Le_refl b))

  sum_from_nonneg :
      (acc : fl.F) (xs : List fl.F)
      → Le fl (nat fl 0) acc
      → All (IsFraction fl) xs
      → Le fl (nat fl 0) (sum_from fl acc xs)
  sum_from_nonneg acc [] h a = h
  sum_from_nonneg acc (x ∷ xs) h a =
      sum_from_nonneg (fl.add acc x) xs (add_nonneg acc x h a.0.0) a.1

  sum_from-le :
      (k : ℕ) (acc : fl.F) (xs : List fl.F)
      → Le fl acc (nat fl k)
      → All (IsFraction fl) xs
      → k + length xs ≤ exact
      → Le fl (sum_from fl acc xs) (nat fl (k + length xs))
  sum_from-le k acc [] h a b = rw add-zero h
  sum_from-le k acc (x ∷ xs) h a b =
      let step : Le fl (fl.add acc x) (nat fl (k + 1)) =
        rw (sym (law.add_nat k 1 (omega arith)))
          (law.add_mono acc (nat fl k) x (nat fl 1) h a.0.1) in
      subst (λ n. Le fl (sum_from fl (fl.add acc x) xs) (nat fl n)) (omega arith)
        (sum_from-le (k + 1) (fl.add acc x) xs step a.1 (omega arith))

  -- a sum of numbers between 0 and 1 is between 0 and their number
  pub fsum_bounds :
      (xs : List fl.F)
      → All (IsFraction fl) xs
      → length xs ≤ exact
      → Le fl (nat fl 0) (fsum fl xs) × Le fl (fsum fl xs) (nat fl (length xs))
  fsum_bounds xs a b = (
    sum_from_nonneg (nat fl 0) xs (Le_refl (nat fl 0)) a,
    subst (λ n. Le fl (fsum fl xs) (nat fl n)) (omega arith)
        (sum_from-le 0 (nat fl 0) xs (Le_refl (nat fl 0)) a (omega arith)),
  )

  pub nat_pos : (n : ℕ) → 0 < n → n ≤ exact → fl.lt (nat fl 0) (nat fl n) ≡ true
  nat_pos n h b = law.nat_lt 0 n h b

  -- a ratio of counts is between 0 and 1
  pub ratio_bounds :
      (m n : ℕ) → m ≤ n → 0 < n → n ≤ exact → IsFraction fl (fl.div (nat fl m) (nat fl n))
  ratio_bounds m n h p b = (
    div_nonneg (nat fl m) (nat fl n) (zero-le-lit m 0) (nat_pos n p b),
    div-le-one (nat fl m) (nat fl n) (zero-le-lit m 0) (nat_mono m n h) (nat_pos n p b),
  )

  -- rounding stays between 0 and an integer
  pub round_bounds :
      (k n : ℕ) (x : fl.F)
      → n ≤ 10 ^ 15
      → Le fl (nat fl 0) x
      → Le fl x (nat fl n)
      → Le fl (nat fl 0) (fl.round k x) × Le fl (fl.round k x) (nat fl n)
  round_bounds k n x b h p = (
    rw (sym (law.round_lit k 0 0 (omega arith) (omega arith))) (law.round_mono k (nat fl 0) x h),
    rw (sym (law.round_lit k n 0 (omega arith) b)) (law.round_mono k x (nat fl n) p),
  )

  -- a fraction of a number does not pass it
  pub fraction_mul-le : (x a : fl.F) → IsFraction fl x → Le fl (nat fl 0) a → Le fl (fl.mul x a) a
  fraction_mul-le x a h k =
      subst (λ y. Le fl (fl.mul x a) y) (law.one_mul a)
        (law.mul_mono x (nat fl 1) a a h.0 h.1 k (Le_refl a))

  -- 1 - x is between 0 and 1 if x is
  pub one_sub-IsFraction : (x : fl.F) → IsFraction fl x → IsFraction fl (fl.sub (nat fl 1) x)
  one_sub-IsFraction x h = (
    rw (sym (law.sub_nat 1 1 (omega arith) (omega arith)))
        (law.sub_mono (nat fl 1) (nat fl 1) (nat fl 1) x (Le_refl (nat fl 1)) h.1),
    subst (λ y. Le fl (fl.sub (nat fl 1) x) y) (law.sub_nat 1 0 (omega arith) (omega arith))
        (law.sub_mono (nat fl 1) (nat fl 1) x (nat fl 0) (Le_refl (nat fl 1)) h.0),
  )

  -- products of numbers of at least one are at least one
  pub one-le-mul :
      (a b : fl.F) → Le fl (nat fl 1) a → Le fl (nat fl 1) b → Le fl (nat fl 1) (fl.mul a b)
  one-le-mul a b h k =
      subst (λ y. Le fl y (fl.mul a b)) (law.one_mul (nat fl 1))
        (law.mul_mono (nat fl 1) a (nat fl 1) b (zero-le-lit 1 0) h (zero-le-lit 1 0) k)

  pub one-le-pos : (a : fl.F) → Le fl (nat fl 1) a → fl.lt (nat fl 0) a ≡ true
  one-le-pos a h = lt-Le-trans (nat fl 0) (nat fl 1) a (nat_pos 1 (omega arith) (omega arith)) h

  -- subtracting what is not negative does not raise
  pub sub-le : (a b : fl.F) → Le fl (nat fl 0) b → Le fl (fl.sub a b) a
  sub-le a b h =
      subst (λ y. Le fl (fl.sub a b) y) (law.sub_zero a)
        (law.sub_mono a a b (nat fl 0) (Le_refl a) h)

  -- 0.5 * (1 - c) + x * c is between 0 and 1
  pub mix-IsFraction :
      (c x : fl.F)
      → IsFraction fl c
      → IsFraction fl x
      → IsFraction fl (fl.add (fl.mul (fl.lit 5 1) (fl.sub (nat fl 1) c)) (fl.mul x c))
  mix-IsFraction c x h k =
      let rest = fl.mul (fl.lit 5 1) (fl.sub (nat fl 1) c) in
      (
        add_nonneg rest (fl.mul x c)
            (mul_nonneg (fl.lit 5 1) (fl.sub (nat fl 1) c) (zero-le-lit 5 1)
              (one_sub-IsFraction c h).0)
            (mul_nonneg x c k.0 h.0),
        Le_trans (fl.add rest (fl.mul x c)) (fl.add rest c) (nat fl 1)
            (law.add_mono rest rest (fl.mul x c) c (Le_refl rest) (fraction_mul-le x c k h.0))
            (law.half_rest c h.0 h.1),
      )
