-- ===== src/Examples/Codecs.antt =====
-- Codecs whose texts are the values themselves and whose hash reads off the identifier: one with natural
-- numbers for floats, which the store never looks into, and one with signed integers.
use counterparty_sharedos.Prelude.{
  ℕ, ◌↔◌, ◌==◌, ==_iff, ◌≡◌, inl, inr, refl, ap, Bool, true, false, not, ◌&&◌, and_true, Bool-cases,
  Option, none, some, String, str_eq, str_eq_iff, str_eq_refl, if◌then◌else◌, arith,
}
use mathlib.Core.Path.{ap₂, subst}
use mathlib.Core.Bool.{false≢true}
use counterparty_sharedos.Prelude.Int.{ℤ, pos, negsuc}
use counterparty_sharedos.Json.{
  Json, Items, Fields, null, bool, int, float, text, arr, obj, nil, cons, end, field, has_key, get,
  IsDict, IsDictItems, IsDictFields, Codec,
}

abbrev pub same_bool : Bool → Bool → Bool
same_bool true b = b
same_bool false b = not b

abbrev pub same_int : ℤ → ℤ → Bool
same_int (pos m) (pos n) = m == n
same_int (negsuc m) (negsuc n) = m == n
same_int _ _ = false

same_bool_refl : (b : Bool) → same_bool b b ≡ true
same_bool_refl b = ground arith

same_bool-eq : (a b : Bool) → same_bool a b ≡ true → a ≡ b
same_bool-eq a b h = ground arith

pub same_int_refl : (a : ℤ) → same_int a a ≡ true
same_int_refl (pos n) = (==_iff n n).1 refl
same_int_refl (negsuc n) = (==_iff n n).1 refl

pub same_int-eq : (a b : ℤ) → same_int a b ≡ true → a ≡ b
same_int-eq (pos m) (pos n) h = ap pos ((==_iff m n).0 h)
same_int-eq (negsuc m) (negsuc n) h = ap negsuc ((==_iff m n).0 h)
same_int-eq (pos m) (negsuc n) h = ground arith
same_int-eq (negsuc m) (pos n) h = ground arith

not-true : (b : Bool) → not b ≡ true → b ≡ false
not-true b h = ground arith

-- with the equality of the floats as a parameter
module _ {F : Type 0} (same_float : F → F → Bool)
    (same_float_iff : (a b : F) → (same_float a b ≡ true) ↔ (a ≡ b)) where
  unfoldable mutual
    pub same_json : Json F → Json F → Bool
    same_json null null = true
    same_json (bool a) (bool b) = same_bool a b
    same_json (int a) (int b) = same_int a b
    same_json (float a) (float b) = same_float a b
    same_json (text a) (text b) = str_eq a b
    same_json (arr a) (arr b) = same_items a b
    same_json (obj a) (obj b) = same_fields a b
    same_json _ _ = false

    pub same_items : Items F → Items F → Bool
    same_items nil nil = true
    same_items (cons a xs) (cons b ys) = same_json a b && same_items xs ys
    same_items _ _ = false

    pub same_fields : Fields F → Fields F → Bool
    same_fields end end = true
    same_fields (field j a xs) (field k b ys) = str_eq j k && same_json a b && same_fields xs ys
    same_fields _ _ = false

  mutual
    unfolding same_json same_items same_fields

    pub same_json_refl : (a : Json F) → same_json a a ≡ true
    same_json_refl null = refl
    same_json_refl (bool b) = same_bool_refl b
    same_json_refl (int a) = same_int_refl a
    same_json_refl (float a) = (same_float_iff a a).1 refl
    same_json_refl (text a) = str_eq_refl a
    same_json_refl (arr a) = same_items_refl a
    same_json_refl (obj a) = same_fields_refl a

    same_items_refl : (a : Items F) → same_items a a ≡ true
    same_items_refl nil = refl
    same_items_refl (cons a xs) = rw (same_json_refl a) (same_items_refl xs)

    same_fields_refl : (a : Fields F) → same_fields a a ≡ true
    same_fields_refl end = refl
    same_fields_refl (field k a xs) =
        rw (str_eq_refl k) (rw (same_json_refl a) (same_fields_refl xs))

  mutual
    unfolding same_json same_items same_fields

    pub same_json-eq : (a b : Json F) → same_json a b ≡ true → a ≡ b
    same_json-eq null null h = refl
    same_json-eq (bool a) (bool b) h = ap bool (same_bool-eq a b h)
    same_json-eq (int a) (int b) h = ap int (same_int-eq a b h)
    same_json-eq (float a) (float b) h = ap float ((same_float_iff a b).0 h)
    same_json-eq (text a) (text b) h = ap text ((str_eq_iff a b).0 h)
    same_json-eq (arr a) (arr b) h = ap arr (same_items-eq a b h)
    same_json-eq (obj a) (obj b) h = ap obj (same_fields-eq a b h)
    same_json-eq _ _ h = absurd (false≢true h)

    same_items-eq : (a b : Items F) → same_items a b ≡ true → a ≡ b
    same_items-eq nil nil h = refl
    same_items-eq (cons a xs) (cons b ys) h =
        let (e, f) = and_true (same_json a b) (same_items xs ys) h in
        ap₂ cons (same_json-eq a b e) (same_items-eq xs ys f)
    same_items-eq nil (cons b ys) h = ground arith
    same_items-eq (cons a xs) nil h = ground arith

    same_fields-eq : (a b : Fields F) → same_fields a b ≡ true → a ≡ b
    same_fields-eq end end h = refl
    same_fields-eq (field j a xs) (field k b ys) h =
        let (front, g) = and_true (str_eq j k && same_json a b) (same_fields xs ys) h in
        let (e, f) = and_true (str_eq j k) (same_json a b) front in
        rw ((str_eq_iff j k).0 e) (ap₂ (field k) (same_json-eq a b f) (same_fields-eq xs ys g))
    same_fields-eq end (field k b ys) h = ground arith
    same_fields-eq (field j a xs) end h = ground arith

module _ {F : Type 0} where
  unfoldable mutual
    pub is_dict : Json F → Bool
    is_dict (arr xs) = is_dict_items xs
    is_dict (obj fs) = is_dict_fields fs
    is_dict _ = true

    pub is_dict_items : Items F → Bool
    is_dict_items nil = true
    is_dict_items (cons x xs) = is_dict x && is_dict_items xs

    pub is_dict_fields : Fields F → Bool
    is_dict_fields end = true
    is_dict_fields (field k v fs) = not (has_key k fs) && is_dict v && is_dict_fields fs

  mutual
    unfolding is_dict is_dict_items is_dict_fields IsDict IsDictItems IsDictFields

    is_dict-IsDict : (a : Json F) → is_dict a ≡ true → IsDict a
    is_dict-IsDict (arr xs) h = is_dict_items-IsDict xs h
    is_dict-IsDict (obj fs) h = is_dict_fields-IsDict fs h
    is_dict-IsDict null h = tt
    is_dict-IsDict (bool b) h = tt
    is_dict-IsDict (int n) h = tt
    is_dict-IsDict (float x) h = tt
    is_dict-IsDict (text s) h = tt

    is_dict_items-IsDict : (xs : Items F) → is_dict_items xs ≡ true → IsDictItems xs
    is_dict_items-IsDict nil h = tt
    is_dict_items-IsDict (cons x xs) h =
        let (e, f) = and_true (is_dict x) (is_dict_items xs) h in
        (is_dict-IsDict x e, is_dict_items-IsDict xs f)

    is_dict_fields-IsDict : (fs : Fields F) → is_dict_fields fs ≡ true → IsDictFields fs
    is_dict_fields-IsDict end h = tt
    is_dict_fields-IsDict (field k v fs) h =
        let (front, g) = and_true (not (has_key k fs) && is_dict v) (is_dict_fields fs) h in
        let (e, f) = and_true (not (has_key k fs)) (is_dict v) front in
        (not-true (has_key k fs) e, is_dict-IsDict v f, is_dict_fields-IsDict fs g)

  mutual
    unfolding is_dict is_dict_items is_dict_fields IsDict IsDictItems IsDictFields

    is_dict_back : (a : Json F) → IsDict a → is_dict a ≡ true
    is_dict_back (arr xs) h = is_dict_items_back xs h
    is_dict_back (obj fs) h = is_dict_fields_back fs h
    is_dict_back null h = refl
    is_dict_back (bool b) h = refl
    is_dict_back (int n) h = refl
    is_dict_back (float x) h = refl
    is_dict_back (text s) h = refl

    is_dict_items_back : (xs : Items F) → IsDictItems xs → is_dict_items xs ≡ true
    is_dict_items_back nil h = refl
    is_dict_items_back (cons x xs) (e, f) = rw (is_dict_back x e) (is_dict_items_back xs f)

    is_dict_fields_back : (fs : Fields F) → IsDictFields fs → is_dict_fields fs ≡ true
    is_dict_fields_back end h = refl
    is_dict_fields_back (field k v fs) (e, f, g) =
        rw e (rw (is_dict_back v f) (is_dict_fields_back fs g))

  abbrev pub load : Json F → Option (Json F)
  load j = if is_dict j then some j else none

  -- a hash that reads the identifier of a record, and is "?" on everything else
  abbrev pub text_of : Option (Json F) → String
  text_of (some (text s)) = s
  text_of _ = "?"

  abbrev pub read_id : Json F → String
  read_id (obj fs) = text_of (get "id" fs)
  read_id _ = "?"

  pub load_back : (j : Json F) → IsDict j → load j ≡ some j
  load_back j h = rw (is_dict_back j h) refl

  pub load-IsDict : (t j : Json F) → load t ≡ some j → IsDict j
  load-IsDict t j h = elim (Bool-cases (is_dict t)) [
    | inl e ↦ subst IsDict (ground arith) (is_dict-IsDict t e)
    | inr e ↦ ground arith
  ]

abbrev pub codec_of :
    {F : Type 0} (same_float : F → F → Bool)
    → ((a b : F) → (same_float a b ≡ true) ↔ (a ≡ b))
    → Codec F
codec_of same_float same_float_iff = record {
  Text = Json _;
  same = same_json same_float same_float_iff;
  same_iff = λ a b. (
    same_json-eq same_float same_float_iff a b,
    λ e.
        subst (λ x. same_json same_float same_float_iff a x ≡ true) e
          (same_json_refl same_float same_float_iff a),
  );
  write_compact = λ j. j;
  write = λ j. j;
  plain = text;
  loads = load;
  loads-write = load_back;
  loads-write_compact = load_back;
  loads-IsDict = load-IsDict;
  sha256 = read_id;
}

abbrev pub plain_codec : Codec ℕ
plain_codec = codec_of ◌==◌ ==_iff

abbrev pub signed_codec : Codec ℤ
signed_codec =
    codec_of same_int
      (λ a b. (same_int-eq a b, (λ e. subst (λ x. same_int a x ≡ true) e (same_int_refl a))))
