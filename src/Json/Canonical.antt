-- ===== src/Json/Canonical.antt =====
-- Sorting the keys twice is sorting them once, so a payload that was read back is written as before.
use counterparty_sharedos.Prelude.{
  ◌≡◌, refl, false, String, str_lt, Bool-cases, inl, inr, str_lt_asymm, str_lt_trans, ap,
}
use counterparty_sharedos.Json.{
  Json, null, bool, int, float, text, arr, obj, Items, nil, cons, Fields, end, field, insert_field,
  sort_keys, sort_items, sort_fields,
}

-- no key of the fields is below `k`
abbrev Above : {F : Type 0} → String → Fields F → Type 0
Above k end = Unit
Above k (field j v fs) = (str_lt j k ≡ false) × Above k fs

-- every dictionary, at any depth, is in the order of its keys
abbrev mutual
  IsCanonical : {F : Type 0} → Json F → Type 0
  IsCanonical (arr xs) = IsCanonicalItems xs
  IsCanonical (obj fs) = IsCanonicalFields fs
  IsCanonical _ = Unit

  IsCanonicalItems : {F : Type 0} → Items F → Type 0
  IsCanonicalItems nil = Unit
  IsCanonicalItems (cons x xs) = IsCanonical x × IsCanonicalItems xs

  IsCanonicalFields : {F : Type 0} → Fields F → Type 0
  IsCanonicalFields end = Unit
  IsCanonicalFields (field k v fs) = Above k fs × IsCanonical v × IsCanonicalFields fs

module _ {F : Type 0} where
  Above-insert_field :
      (k j : String) (v : Json F) (fs : Fields F)
      → str_lt j k ≡ false
      → Above k fs
      → Above k (insert_field j v fs)
  unfolding insert_field
  Above-insert_field k j v end h a = (h, tt)
  Above-insert_field k j v (field i w fs) h a = elim (Bool-cases (str_lt i j)) [
    | inl e ↦ rw e (a.0, Above-insert_field k j v fs h a.1)
    | inr e ↦ rw e (h, a)
  ]

  Above-trans : (k j : String) (fs : Fields F) → str_lt j k ≡ false → Above j fs → Above k fs
  Above-trans k j end h a = tt
  Above-trans k j (field i v fs) h a = (str_lt_trans k j i h a.0, Above-trans k j fs h a.1)

  insert_field-IsCanonical :
      (k : String) (v : Json F) (fs : Fields F)
      → IsCanonical v
      → IsCanonicalFields fs
      → IsCanonicalFields (insert_field k v fs)
  unfolding insert_field
  insert_field-IsCanonical k v end c h = (tt, c, tt)
  insert_field-IsCanonical k v (field j w fs) c h = elim (Bool-cases (str_lt j k)) [
    | inl e ↦ rw e (
      Above-insert_field j k v fs (str_lt_asymm j k e) h.0,
      h.1,
      insert_field-IsCanonical k v fs c h.2,
    )
    | inr e ↦ rw e ((e, Above-trans k j fs e h.0), c, h)
  ]

  insert_field_first :
      (k : String) (v : Json F) (fs : Fields F) → Above k fs → insert_field k v fs ≡ field k v fs
  unfolding insert_field
  insert_field_first k v end a = refl
  insert_field_first k v (field j w fs) a = rw a.0

mutual
  unfolding sort_keys sort_items sort_fields

  sorted_keys : {F : Type 0} (j : Json F) → IsCanonical (sort_keys j)
  sorted_keys null = tt
  sorted_keys (bool b) = tt
  sorted_keys (int n) = tt
  sorted_keys (float x) = tt
  sorted_keys (text s) = tt
  sorted_keys (arr xs) = sorted_items xs
  sorted_keys (obj fs) = sorted_fields fs

  sorted_items : {F : Type 0} (xs : Items F) → IsCanonicalItems (sort_items xs)
  sorted_items nil = tt
  sorted_items (cons x xs) = (sorted_keys x, sorted_items xs)

  sorted_fields : {F : Type 0} (fs : Fields F) → IsCanonicalFields (sort_fields fs)
  sorted_fields end = tt
  sorted_fields (field k v fs) =
      insert_field-IsCanonical k (sort_keys v) (sort_fields fs) (sorted_keys v) (sorted_fields fs)

mutual
  unfolding sort_keys sort_items sort_fields

  keys_stay : {F : Type 0} (j : Json F) → IsCanonical j → sort_keys j ≡ j
  keys_stay null h = refl
  keys_stay (bool b) h = refl
  keys_stay (int n) h = refl
  keys_stay (float x) h = refl
  keys_stay (text s) h = refl
  keys_stay (arr xs) h = ap arr (items_stay xs h)
  keys_stay (obj fs) h = ap obj (fields_stay fs h)

  items_stay : {F : Type 0} (xs : Items F) → IsCanonicalItems xs → sort_items xs ≡ xs
  items_stay nil h = refl
  items_stay (cons x xs) h = rw (keys_stay x h.0, items_stay xs h.1)

  fields_stay : {F : Type 0} (fs : Fields F) → IsCanonicalFields fs → sort_fields fs ≡ fs
  fields_stay end h = refl
  fields_stay (field k v fs) h =
      rw (keys_stay v h.1, fields_stay fs h.2) (insert_field_first k v fs h.0)

pub sort_keys-sort_keys : {F : Type 0} (j : Json F) → sort_keys (sort_keys j) ≡ sort_keys j
sort_keys-sort_keys j = keys_stay (sort_keys j) (sorted_keys j)
