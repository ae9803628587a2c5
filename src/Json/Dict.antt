-- ===== src/Json/Dict.antt =====
-- What the dictionary operations keep: each key once, and the entries of the other keys.
use counterparty_sharedos.Prelude.{
  ◌≡◌, refl, false, ◌||◌, some, String, str_eq, str_eq_iff, str_lt, arith, if◌then◌else◌,
  Bool-cases, inl, inr,
}
use counterparty_sharedos.Json.{
  Json, null, bool, int, float, text, arr, obj, Items, nil, cons, Fields, end, field, has_key, get,
  set_key, insert_field, sort_keys, sort_items, sort_fields, IsDict, IsDictItems, IsDictFields,
}

module _ {F : Type 0} where
  has_key-insert_field :
      (k j : String) (v : Json F) (fs : Fields F)
      → has_key k (insert_field j v fs) ≡ (str_eq j k || has_key k fs)
  unfolding has_key insert_field
  has_key-insert_field k j v end = refl
  has_key-insert_field k j v (field i w fs) = ground (arith, has_key-insert_field k j v fs)

  pub has_key-set_key :
      (k j : String) (v : Json F) (fs : Fields F)
      → has_key k (set_key j v fs) ≡ (str_eq j k || has_key k fs)
  unfolding has_key set_key
  has_key-set_key k j v end = refl
  has_key-set_key k j v (field i w fs) =
      ground (arith, has_key-set_key k j v fs, str_eq_iff i j, str_eq_iff i k, str_eq_iff j k)

  -- a key that was set reads back, and the others are as before
  pub get-set_key :
      (k j : String) (v : Json F) (fs : Fields F)
      → get k (set_key j v fs) ≡ (if str_eq j k then some v else get k fs)
  unfolding get set_key
  get-set_key k j v end = refl
  get-set_key k j v (field i w fs) =
      ground (arith, get-set_key k j v fs, str_eq_iff i j, str_eq_iff i k, str_eq_iff j k)

  pub set_key-IsDict :
      (k : String) (v : Json F) (fs : Fields F)
      → IsDict v
      → IsDictFields fs
      → IsDictFields (set_key k v fs)
  unfolding set_key has_key IsDict IsDictItems IsDictFields
  set_key-IsDict k v end dv d = (refl, dv, tt)
  set_key-IsDict k v (field i w fs) dv d = elim (Bool-cases (str_eq i k)) [
    | inl e ↦ rw e (d.0, dv, d.2)
    | inr e ↦ rw e (
      ground (arith, has_key-set_key i k v fs, str_eq_iff i k, str_eq_iff k i, d.0),
      d.1,
      set_key-IsDict k v fs dv d.2,
    )
  ]

  insert_field-IsDict :
      (k : String) (v : Json F) (fs : Fields F)
      → has_key k fs ≡ false
      → IsDict v
      → IsDictFields fs
      → IsDictFields (insert_field k v fs)
  unfolding insert_field has_key IsDict IsDictItems IsDictFields
  insert_field-IsDict k v end n dv d = (refl, dv, tt)
  insert_field-IsDict k v (field i w fs) n dv d = elim (Bool-cases (str_lt i k)) [
    | inl e ↦ rw e (
      ground (arith, has_key-insert_field i k v fs, str_eq_iff i k, str_eq_iff k i, d.0),
      d.1,
      insert_field-IsDict k v fs (ground arith) dv d.2,
    )
    | inr e ↦ rw e (n, dv, d)
  ]

  has_key-sort_fields : (k : String) (fs : Fields F) → has_key k (sort_fields fs) ≡ has_key k fs
  unfolding has_key sort_keys sort_items sort_fields
  has_key-sort_fields k end = refl
  has_key-sort_fields k (field j v fs) =
      rw (has_key-insert_field k j (sort_keys v) (sort_fields fs), has_key-sort_fields k fs)

mutual
  unfolding sort_keys sort_items sort_fields IsDict IsDictItems IsDictFields

  pub sort_keys-IsDict : {F : Type 0} (j : Json F) → IsDict j → IsDict (sort_keys j)
  sort_keys-IsDict null d = tt
  sort_keys-IsDict (bool b) d = tt
  sort_keys-IsDict (int n) d = tt
  sort_keys-IsDict (float x) d = tt
  sort_keys-IsDict (text s) d = tt
  sort_keys-IsDict (arr xs) d = sort_items-IsDict xs d
  sort_keys-IsDict (obj fs) d = sort_fields-IsDict fs d

  sort_items-IsDict : {F : Type 0} (xs : Items F) → IsDictItems xs → IsDictItems (sort_items xs)
  sort_items-IsDict nil d = tt
  sort_items-IsDict (cons x xs) d = (sort_keys-IsDict x d.0, sort_items-IsDict xs d.1)

  sort_fields-IsDict :
      {F : Type 0} (fs : Fields F) → IsDictFields fs → IsDictFields (sort_fields fs)
  sort_fields-IsDict end d = tt
  sort_fields-IsDict (field k v fs) d =
      insert_field-IsDict k (sort_keys v) (sort_fields fs) (rw (has_key-sort_fields k fs) d.0)
        (sort_keys-IsDict v d.1) (sort_fields-IsDict fs d.2)
