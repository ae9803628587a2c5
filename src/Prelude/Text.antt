-- ===== src/Prelude/Text.antt =====
-- Text: equality of whole texts, and Python's order of texts, which is by code points.
use Prim.Native.Nat.{Ordering, compare as compare_ℕ}
use Prim.Native.Char.{Char, code}
use Prim.Native.String.compare
use Prim.Native.String.{String, compare, [], ◌∷◌, then}
use mathlib.Core.Path.{◌≡◌, refl}
use mathlib.Core.Logic.{◌↔◌}
use mathlib.Core.Bool.{Bool, true, false, ◌&&◌, ◌||◌, false≢true}
use native.Mathlib.Omega.{arith}
use mathlib.Core.Option.{none, some}
use text.Mathlib.Text.{◌==◌ as text_eq, is_lt, find?}
use text.Mathlib.TextEquality.{eq_iff, Char-path}
use text.Mathlib.TextPositions.{eq_refl}
use counterparty_sharedos.Prelude.Tests.{ltb, ◌==◌}

abbrev pub str_eq : String → String → Bool
str_eq s t = text_eq s t

pub str_eq_iff : (s t : String) → (str_eq s t ≡ true) ↔ (s ≡ t)
str_eq_iff = eq_iff

pub str_eq_refl : (s : String) → str_eq s s ≡ true
str_eq_refl s = eq_refl s

-- `m in s`
abbrev pub is_in : String → String → Bool
is_in m s = elim (find? s m) [ none ↦ false | some _ ↦ true ]

-- `s < t`
abbrev pub str_lt : String → String → Bool
str_lt s t = is_lt (compare s t)

compare_nil_cons : (d : Char) (t : String) → compare [] (d ∷ t) ≡ Ordering.lt
compare_nil_cons d t = λ i. compare.nil-cons d t i

compare_cons_nil : (c : Char) (s : String) → compare (c ∷ s) [] ≡ Ordering.gt
compare_cons_nil c s = λ i. compare.cons-nil c s i

compare_cons_cons :
    (c d : Char) (s t : String)
    → compare (c ∷ s) (d ∷ t) ≡ then (compare_ℕ (code c) (code d)) (compare s t)
compare_cons_cons c d s t = λ i. compare.cons-cons c d s t i

-- A text is below a longer one with one more character in front when the first characters say so,
-- or agree and the rests say so.
str_lt_cons :
    (c d : Char) (s t : String)
    → str_lt (c ∷ s) (d ∷ t) ≡ (ltb (code c) (code d) || ((code c == code d) && str_lt s t))
str_lt_cons c d s t = rw (compare_cons_cons c d s t) (ground arith)

pub str_lt_asymm : (s t : String) → str_lt s t ≡ true → str_lt t s ≡ false
str_lt_asymm [] [] h = refl
str_lt_asymm [] (d ∷ t) h = rw (compare_cons_nil d t)
str_lt_asymm (c ∷ s) [] h = absurd (false≢true (rw (compare_cons_nil c s) at h))
str_lt_asymm (c ∷ s) (d ∷ t) h =
    ground (arith, str_lt_cons c d s t, str_lt_cons d c t s, str_lt_asymm s t)

-- "not below" is transitive
pub str_lt_trans : (r s t : String) → str_lt s r ≡ false → str_lt t s ≡ false → str_lt t r ≡ false
str_lt_trans [] s [] h k = refl
str_lt_trans [] s (e ∷ t) h k = rw (compare_cons_nil e t)
str_lt_trans (c ∷ r) [] t h k = ground (arith, compare_nil_cons c r)
str_lt_trans (c ∷ r) (d ∷ s) [] h k = ground (arith, compare_nil_cons d s)
str_lt_trans (c ∷ r) (d ∷ s) (e ∷ t) h k =
    ground
      (arith, str_lt_cons d c s r, str_lt_cons e d t s, str_lt_cons e c t r, str_lt_trans r s t)

-- texts of which neither is below the other are equal
pub str_lt_total : (s t : String) → str_lt s t ≡ false → str_lt t s ≡ false → s ≡ t
str_lt_total [] [] h k = refl
str_lt_total [] (d ∷ t) h k = ground (arith, compare_nil_cons d t)
str_lt_total (c ∷ s) [] h k = ground (arith, compare_nil_cons c s)
str_lt_total (c ∷ s) (d ∷ t) h k =
    let e : code c ≡ code d = ground (arith, str_lt_cons c d s t, str_lt_cons d c t s) in
    let f : s ≡ t =
      str_lt_total s t (ground (arith, e, str_lt_cons c d s t, str_lt_cons d c t s))
        (ground (arith, e, str_lt_cons c d s t, str_lt_cons d c t s)) in
    cc (Char-path c d e, f)
