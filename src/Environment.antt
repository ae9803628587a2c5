-- ===== src/Environment.antt =====
-- The process environment as the scripts and `create_app` read it, and the tests on texts that
-- `scripts/arena_preflight.py` and `scripts/arena_host.py` make of its values.
use Prim.Native.Char.{Char, code}
use Prim.Native.String.{[], ◌∷◌}
use Prim.Native.String.{◌++◌ as concat}
use counterparty_sharedos.Prelude.{
  ℕ, zero, suc, ◌≤◌, leb, ◌==◌, Bool, true, not, ◌&&◌, ◌||◌, Option, none, some, String, str_eq,
  if◌then◌else◌, arith, Bool-cases, inl, inr,
}
use counterparty_sharedos.Ingress.{text_length}

-- `os.environ`, where a variable that is not set is `none`
abbrev pub Environment : Type 0
Environment = String → Option String

-- `os.getenv(name, default)`
abbrev pub or_default : Option String → String → String
or_default none default = default
or_default (some value) default = value

abbrev pub getenv : Environment → String → String → String
getenv environ name default = or_default (environ name) default

-- the environment with one more variable: `env[name] = value`
abbrev pub set_variable : Environment → String → String → Environment
set_variable environ name value other = if str_eq other name then some value else environ other

-- The tables of Unicode in Python's `str.isalnum`, of a character, and `str.lower`. Nothing is assumed
-- of them.
pub record Unicode : Type 0 where
  pub is_alnum : Char → Bool
  pub lower : String → String

abbrev is_from : ℕ → ℕ → ℕ → Bool
is_from low high n = leb low n && leb n high

-- `str.isspace` of a character
abbrev pub is_space : Char → Bool
is_space c =
    is_from 9 13 (code c)
    || (is_from 28 32 (code c)
        || (code c == 133
            || (code c == 160
                || (code c == 5760
                    || (is_from 8192 8202 (code c)
                        || (is_from 8232 8233 (code c)
                            || (code c == 8239 || (code c == 8287 || code c == 12288))))))))

abbrev pub is_slash : Char → Bool
is_slash c = code c == b'/'

-- the text without the characters at its end, or at its start, that satisfy a test
unfoldable pub rstrip : (Char → Bool) → String → String
rstrip p [] = ""
rstrip p (c ∷ s) =
    let rest = rstrip p s in
    let kept : String = c ∷ rest in if str_eq rest "" && p c then "" else kept

unfoldable pub lstrip : (Char → Bool) → String → String
lstrip p [] = ""
lstrip p (c ∷ s) = let rest = lstrip p s in let kept : String = c ∷ s in if p c then rest else kept

-- `s.strip()`
unfoldable pub strip : String → String
unfolding rstrip lstrip
strip s = lstrip is_space (rstrip is_space s)

-- `s[:n]` and `s[n:]`
unfoldable pub text_take : ℕ → String → String
text_take zero s = ""
text_take (suc n) [] = ""
text_take (suc n) (c ∷ s) = c ∷ text_take n s

unfoldable pub text_drop : ℕ → String → String
text_drop zero s = s
text_drop (suc n) [] = ""
text_drop (suc n) (c ∷ s) = text_drop n s

-- `url + path`
abbrev pub with_path : String → String → String
with_path url path = concat url path

module _ (u : Unicode) where
  unfoldable pub all_alnum : String → Bool
  all_alnum [] = true
  all_alnum (c ∷ s) = u.is_alnum c && all_alnum s

  -- `s.isalnum()`
  unfoldable pub isalnum : String → Bool
  unfolding all_alnum
  isalnum s = not (str_eq s "") && all_alnum s

rstrip-length : (p : Char → Bool) (s : String) → text_length (rstrip p s) ≤ text_length s
unfolding rstrip text_length
rstrip-length p [] = omega arith
rstrip-length p (c ∷ s) = elim (Bool-cases (str_eq (rstrip p s) "" && p c)) [
  | inl e ↦ rw e (omega arith)
  | inr e ↦ rw e (omega (arith, rstrip-length p s))
]

lstrip-length : (p : Char → Bool) (s : String) → text_length (lstrip p s) ≤ text_length s
unfolding lstrip text_length
lstrip-length p [] = omega arith
lstrip-length p (c ∷ s) = elim (Bool-cases (p c)) [
  | inl e ↦ rw e (omega (arith, lstrip-length p s))
  | inr e ↦ rw e (omega arith)
]

-- stripping makes no text longer
pub strip-length : (s : String) → text_length (strip s) ≤ text_length s
unfolding strip
strip-length s = omega (arith, rstrip-length is_space s, lstrip-length is_space (rstrip is_space s))
