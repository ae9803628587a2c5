-- ===== src/Tables/Unique.antt =====
-- The constraints of a table hold of every list of rows that the inserts build.
use counterparty_sharedos.Prelude.{◌≡◌, Bool, false, List, [], ◌∷◌, ◌++◌, any, any-append, arith}

module _ {A : Type 0} (clash : A → A → Bool) where
  -- no row clashes with a later one
  abbrev pub IsUnique : List A → Type 0
  IsUnique [] = Unit
  IsUnique (x ∷ xs) = (any (λ y. clash y x) xs ≡ false) × IsUnique xs

  pub IsUnique-snoc :
      (xs : List A) (x : A) → any (clash x) xs ≡ false → IsUnique xs → IsUnique (xs ++ x ∷ [])
  IsUnique-snoc [] x h u = (ground arith, tt)
  IsUnique-snoc (y ∷ xs) x h u = (
    ground (arith, any-append (λ z. clash z y) xs (x ∷ [])),
    IsUnique-snoc xs x (ground arith) u.1,
  )
