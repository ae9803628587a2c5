-- ===== src/Json.antt =====
-- The values that Python's `json` module reads and writes, and dictionaries in insertion order.
pub mod Canonical
pub mod Dict
use counterparty_sharedos.Prelude.{
  ◌≡◌, ◌↔◌, refl, Bool, true, false, ◌||◌, Option, none, some, String, str_eq, str_lt,
  if◌then◌else◌,
}
use counterparty_sharedos.Prelude.Int.{ℤ}

mutual
  pub data Json (F : Type 0) : Type 0 where
    null : Json F
    bool : Bool → Json F
    int : ℤ → Json F
    float : F → Json F
    text : String → Json F
    arr : Items F → Json F
    obj : Fields F → Json F

  pub data Items (F : Type 0) : Type 0 where
    nil : Items F
    cons : Json F → Items F → Items F

  pub data Fields (F : Type 0) : Type 0 where
    end : Fields F
    field : String → Json F → Fields F → Fields F

module _ {F : Type 0} where
  -- `k in d`
  unfoldable pub has_key : String → Fields F → Bool
  has_key k end = false
  has_key k (field j v fs) = str_eq j k || has_key k fs

  -- `d.get(k)`
  unfoldable pub get : String → Fields F → Option (Json F)
  get k end = none
  get k (field j v fs) = let rest = get k fs in if str_eq j k then some v else rest

  -- `d[k] = v`
  unfoldable pub set_key : String → Json F → Fields F → Fields F
  set_key k v end = field k v end
  set_key k v (field j w fs) =
      let rest = field j w (set_key k v fs) in if str_eq j k then field j v fs else rest

  -- a field put in its place by its key
  unfoldable pub insert_field : String → Json F → Fields F → Fields F
  insert_field k v end = field k v end
  insert_field k v (field j w fs) =
      let rest = field j w (insert_field k v fs) in
      if str_lt j k then rest else field k v (field j w fs)

-- `sort_keys=True`: every dictionary, at any depth, in the order of its keys
unfoldable mutual
  unfolding insert_field

  pub sort_keys : {F : Type 0} → Json F → Json F
  sort_keys null = null
  sort_keys (bool b) = bool b
  sort_keys (int n) = int n
  sort_keys (float x) = float x
  sort_keys (text s) = text s
  sort_keys (arr xs) = arr (sort_items xs)
  sort_keys (obj fs) = obj (sort_fields fs)

  pub sort_items : {F : Type 0} → Items F → Items F
  sort_items nil = nil
  sort_items (cons x xs) = cons (sort_keys x) (sort_items xs)

  pub sort_fields : {F : Type 0} → Fields F → Fields F
  sort_fields end = end
  sort_fields (field k v fs) = insert_field k (sort_keys v) (sort_fields fs)

-- every dictionary, at any depth, has each key once, as a Python `dict` does
unfoldable mutual
  pub IsDict : {F : Type 0} → Json F → Type 0
  IsDict (arr xs) = IsDictItems xs
  IsDict (obj fs) = IsDictFields fs
  IsDict _ = Unit

  pub IsDictItems : {F : Type 0} → Items F → Type 0
  IsDictItems nil = Unit
  IsDictItems (cons x xs) = IsDict x × IsDictItems xs

  pub IsDictFields : {F : Type 0} → Fields F → Type 0
  IsDictFields end = Unit
  IsDictFields (field k v fs) = (has_key k fs ≡ false) × IsDict v × IsDictFields fs

-- `json.dumps`, `json.loads` and `hashlib.sha256(text.encode()).hexdigest()`. The text itself is not
-- looked into, so its type is left open, and nothing is assumed of the hash. Reading back what was
-- written gives the value, with its keys in the order in which they were written, and what is read has
-- no key twice.
pub record Codec (F : Type 0) : Type 1 where
  pub Text : Type 0
  -- `==` on texts
  pub same : Text → Text → Bool
  pub same_iff : (a b : Text) → (same a b ≡ true) ↔ (a ≡ b)
  -- with `separators=(",", ":")`, and with the default ones
  pub write_compact : Json F → Text
  pub write : Json F → Text
  -- a text of its own
  pub plain : String → Text
  pub loads : Text → Option (Json F)
  pub loads-write : (j : Json F) → IsDict j → loads (write j) ≡ some j
  pub loads-write_compact : (j : Json F) → IsDict j → loads (write_compact j) ≡ some j
  pub loads-IsDict : (t : Text) (j : Json F) → loads t ≡ some j → IsDict j
  pub sha256 : Text → String

-- `json.dumps(j, sort_keys=True, separators=(",", ":"))`
abbrev pub dumps_compact : {F : Type 0} (c : Codec F) → Json F → c.Text
dumps_compact c j = c.write_compact (sort_keys j)

-- `json.dumps(j, sort_keys=True)`
abbrev pub dumps : {F : Type 0} (c : Codec F) → Json F → c.Text
dumps c j = c.write (sort_keys j)
