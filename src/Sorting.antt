-- ===== src/Sorting.antt =====
-- Python's `sorted(xs, key=...)` and SQL's `ORDER BY`: a stable insertion sort by a strict order
-- `lt`, with the order's laws as a record that each user fills.
use counterparty_sharedos.Prelude.{
  ◌≡◌, refl, inl, inr, Bool, true, false, List, [], ◌∷◌, if◌then◌else◌, Bool-cases, All, All-map,
  suc, length, arith,
}
use mathlib.Core.List.{Perm}
use mathlib.Core.List.Perm

-- The laws of a strict weak order: what is "not below" is a preorder, and total.
pub record IsStrictWeak {ℓ} {A : Type ℓ} (lt : A → A → Bool) : Type ℓ where
  pub asymm : (a b : A) → lt a b ≡ true → lt b a ≡ false
  pub trans : (a b c : A) → lt b a ≡ false → lt c b ≡ false → lt c a ≡ false

module _ {ℓ} {A : Type ℓ} (lt : A → A → Bool) where
  -- an equal element keeps its place in front of those that come later
  unfoldable pub insert : A → List A → List A
  insert x [] = x ∷ []
  insert x (y ∷ ys) = let rest = y ∷ insert x ys in if lt y x then rest else x ∷ y ∷ ys

  unfoldable pub sort : List A → List A
  unfolding insert
  sort [] = []
  sort (x ∷ xs) = insert x (sort xs)

  -- in ascending order: no later element is below an earlier one
  abbrev pub IsSorted : List A → Type 0
  IsSorted [] = Unit
  IsSorted (x ∷ xs) = All (λ y. lt y x ≡ false) xs × IsSorted xs

  insert-All {κ} : (P : A → Type κ) (x : A) (ys : List A) → P x → All P ys → All P (insert x ys)
  unfolding insert
  insert-All P x [] p h = (p, tt)
  insert-All P x (y ∷ ys) p h = elim (Bool-cases (lt y x)) [
    | inl e ↦ rw e (h.0, insert-All P x ys p h.1)
    | inr e ↦ rw e (p, h)
  ]

  insert-IsSorted : IsStrictWeak lt → (x : A) (ys : List A) → IsSorted ys → IsSorted (insert x ys)
  unfolding insert
  insert-IsSorted o x [] h = (tt, tt)
  insert-IsSorted o x (y ∷ ys) h = elim (Bool-cases (lt y x)) [
    | inl e ↦
        rw e (insert-All (λ z. lt z y ≡ false) x ys (o.asymm y x e) h.0, insert-IsSorted o x ys h.1)
    | inr e ↦ rw e ((e, All-map _ (λ z. lt z x ≡ false) (λ z k. o.trans x y z e k) ys h.0), h)
  ]

  -- the result is in order
  pub sort-IsSorted : IsStrictWeak lt → (xs : List A) → IsSorted (sort xs)
  unfolding sort
  sort-IsSorted o [] = tt
  sort-IsSorted o (x ∷ xs) = insert-IsSorted o x (sort xs) (sort-IsSorted o xs)

  pub sort-All {κ} : (P : A → Type κ) (xs : List A) → All P xs → All P (sort xs)
  unfolding sort
  sort-All P [] h = tt
  sort-All P (x ∷ xs) h = insert-All P x (sort xs) h.0 (sort-All P xs h.1)

  insert-All_back {κ} :
      (P : A → Type κ) (x : A) (ys : List A) → All P (insert x ys) → P x × All P ys
  unfolding insert
  insert-All_back P x [] h = h
  insert-All_back P x (y ∷ ys) h = elim (Bool-cases (lt y x)) [
    | inl e ↦
        let (here, rest) = rw e at h in
        let (px, others) = insert-All_back P x ys rest in (px, (here, others))
    | inr e ↦ rw e at h
  ]

  -- what holds of every element of the result holds of every element that was sorted
  pub sort-All_back {κ} : (P : A → Type κ) (xs : List A) → All P (sort xs) → All P xs
  unfolding sort
  sort-All_back P [] h = tt
  sort-All_back P (x ∷ xs) h =
      let (px, rest) = insert-All_back P x (sort xs) h in (px, sort-All_back P xs rest)

  insert_first : (x : A) (ys : List A) → All (λ y. lt y x ≡ false) ys → insert x ys ≡ x ∷ ys
  unfolding insert
  insert_first x [] h = refl
  insert_first x (y ∷ ys) h = rw h.0

  -- sorting a list that is in order changes nothing
  pub sort_of_IsSorted : (xs : List A) → IsSorted xs → sort xs ≡ xs
  unfolding sort
  sort_of_IsSorted [] h = refl
  sort_of_IsSorted (x ∷ xs) h = rw (sort_of_IsSorted xs h.1) (insert_first x xs h.0)

  insert-perm : (x : A) (ys : List A) → Perm (insert x ys) (x ∷ ys)
  unfolding insert
  insert-perm x [] = Perm.refl (x ∷ [])
  insert-perm x (y ∷ ys) = elim (Bool-cases (lt y x)) [
    | inl e ↦ rw e (Perm.trans (Perm.cons y (insert-perm x ys)) (Perm.swap x y ys))
    | inr e ↦ rw e (Perm.refl (x ∷ y ∷ ys))
  ]

  -- the result holds the same elements, as often
  pub sort-perm : (xs : List A) → Perm (sort xs) xs
  unfolding sort
  sort-perm [] = Perm.refl []
  sort-perm (x ∷ xs) = Perm.trans (insert-perm x (sort xs)) (Perm.cons x (sort-perm xs))

  insert-length : (x : A) (ys : List A) → length (insert x ys) ≡ suc (length ys)
  unfolding insert
  insert-length x [] = refl
  insert-length x (y ∷ ys) = ground (arith, insert-length x ys)

  pub sort-length : (xs : List A) → length (sort xs) ≡ length xs
  unfolding sort
  sort-length [] = refl
  sort-length (x ∷ xs) = omega (arith, insert-length x (sort xs), sort-length xs)
