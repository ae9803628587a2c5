-- ===== src/Pointer.antt =====
-- `_resolve_path` of `counterparty/verification.py`: a path such as /items/0/name, followed in a value.
use Prim.Native.Char.{Char, code}
use Prim.Native.String.{[], ◌∷◌}
use mathlib.Core.List.{List, [], ◌∷◌}
use counterparty_sharedos.Prelude.{
  ℕ, zero, suc, ◌+◌, ◌-◌, ◌*◌, ◌==◌, leb, Bool, true, not, ◌&&◌, ◌||◌, Option, none, some, map,
  filter, String, str_eq, if◌then◌else◌,
}
use counterparty_sharedos.Json.{Json, Items, arr, obj, nil, cons, get}

-- a character in front of the first part
abbrev pub extend : Char → List String → List String
extend c [] = (c ∷ "") ∷ []
extend c (part ∷ parts) = (c ∷ part) ∷ parts

-- `path.split("/")`
unfoldable pub split_slash : String → List String
split_slash [] = "" ∷ []
split_slash (c ∷ s) =
    let parts = split_slash s in if code c == b'/' then "" ∷ parts else extend c parts

-- `s.replace("~" + digit, by)`, from the left
unfoldable pub replace_tilde : Char → Char → String → String
replace_tilde digit by [] = ""
replace_tilde digit by (c ∷ []) = c ∷ ""
replace_tilde digit by (c ∷ (d ∷ s)) =
    let skipped : String = by ∷ replace_tilde digit by s in
    let kept : String = c ∷ replace_tilde digit by (d ∷ s) in
    if (code c == b'~') && (code d == code digit) then skipped else kept

-- `p.replace("~1", "/").replace("~0", "~")`
abbrev pub unescape : String → String
unescape part = replace_tilde "0" "~" (replace_tilde "1" "/" part)

-- The parts that are not empty. `path.strip("/")` takes slashes off the ends, which only gives empty
-- parts.
unfoldable pub path_parts : String → List String
unfolding split_slash replace_tilde
path_parts path = map unescape (filter (λ part. not (str_eq part "")) (split_slash path))

abbrev pub is_digit : Char → Bool
is_digit c = leb b'0' (code c) && leb (code c) b'9'

unfoldable pub all_digits : String → Bool
all_digits [] = true
all_digits (c ∷ s) = is_digit c && all_digits s

unfoldable pub value_from : ℕ → String → ℕ
value_from acc [] = acc
value_from acc (c ∷ s) = value_from (acc * 10 + (code c - b'0')) s

-- `int(part)` where `part.isdigit()`, for ASCII digits
unfoldable pub index_of : String → Option ℕ
unfolding all_digits value_from
index_of part = if not (str_eq part "") && all_digits part then some (value_from 0 part) else none

module _ {F : Type 0} where
  -- `cur[i]` where `i < len(cur)`
  unfoldable pub item_at : Items F → ℕ → Option (Json F)
  item_at nil i = none
  item_at (cons x xs) zero = some x
  item_at (cons x xs) (suc i) = item_at xs i

  abbrev pub item_by : Items F → Option ℕ → Option (Json F)
  item_by xs none = none
  item_by xs (some i) = item_at xs i

  -- one part of the path
  abbrev pub step_into : Json F → String → Option (Json F)
  step_into (obj fs) part = get part fs
  step_into (arr xs) part = item_by xs (index_of part)
  step_into _ part = none

  -- the loop over the parts; `none` is the result `(False, None)`
  unfoldable pub follow : Option (Json F) → List String → Option (Json F)
  follow none parts = none
  follow (some cur) [] = some cur
  follow (some cur) (part ∷ parts) = follow (step_into cur part) parts

  unfoldable pub resolve_path : Json F → String → Option (Json F)
  unfolding path_parts follow
  resolve_path doc path =
      if str_eq path "" || str_eq path "/" then some doc else follow (some doc) (path_parts path)
