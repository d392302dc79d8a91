-- ===== src/Config.antt =====
-- internal/config: the configuration's path, file and environment variables (config.go), and the
-- options of the two programs (app.go). App has the options; the other children hold the proofs.
pub mod App
pub mod Path
pub mod Precedence
use Prim.Native.Char.{code}
use Prim.Native.String.{[], ◌∷◌}
use mathlib.Core.List as Lists
use avatars.Prelude.{
  ℕ, zero, suc, ◌+◌, ◌-◌, ◌*◌, ◌^◌, ℤ, pos, negsuc, String, Bool, true, false, ◌&&◌, ◌||◌, ◌==◌,
  Option, none, some, List, leb, eqb, ltb, is_space, to_lower, trim_quotes, has_prefix,
  if◌then◌else◌,
}

-- os.LookupEnv
abbrev pub Env : Type 0
Env = String → Option String

-- s[n:]; the callers have tested the prefix, which is ASCII.
drop : ℕ → String → String
drop zero s = s
drop (suc n) [] = []
drop (suc n) (c ∷ s) = drop n s

-- The loop of ConfigPath over os.Args[1:].
unfoldable pub path_of_args : List String → String
unfolding drop
path_of_args Lists.[] = ""
path_of_args (Lists.◌∷◌ arg rest) =
    let later = path_of_args rest in
    if arg == "-c" || arg == "-config"
    then (elim rest [ Lists.[] ↦ later | Lists.◌∷◌ next _ ↦ next ])
    else if has_prefix arg "-c="
    then drop 3 arg
    else if has_prefix arg "-config="
    then drop 8 arg
    else later

path_or : Option String → String → String
path_or none args = args
path_or (some path) args = if path == "" then args else trim_quotes path

unfoldable pub config_path : Env → List String → String
unfolding path_or
config_path env args = path_or (env "CONFIG") (path_of_args args)

found_or : Option String → String → String
found_or none fallback = fallback
found_or (some val) fallback = trim_quotes val

unfoldable pub env_string : Env → String → String → String
unfolding found_or
env_string env key fallback = found_or (env key) fallback

-- fmt.Sscanf(raw, "%d", &v) into an int64: spaces but no newline, a sign, and digits; what follows
-- them is not read. `none` is an error.
skip_space : String → Option String
skip_space [] = some []
skip_space (c ∷ s) =
    let rest = skip_space s in
    if eqb (code c) b'\n' then none else if is_space (code c) then rest else some (c ∷ s)

is_digit : ℕ → Bool
is_digit c = leb b'0' c && leb c b'9'

digits_from : ℕ → String → ℕ
digits_from n [] = n
digits_from n (c ∷ s) =
    let rest = digits_from (n * 10 + (code c - b'0')) s in if is_digit (code c) then rest else n

number : String → Option ℕ
number [] = none
number (c ∷ s) = if is_digit (code c) then some (digits_from 0 (c ∷ s)) else none

positive : Option ℕ → Option ℤ
positive none = none
positive (some n) = if ltb n (2 ^ 63) then some (pos n) else none

negative : Option ℕ → Option ℤ
negative none = none
negative (some zero) = some (pos 0)
negative (some (suc n)) = if ltb n (2 ^ 63) then some (negsuc n) else none

signed : String → Option ℤ
signed [] = none
signed (c ∷ s) =
    if eqb (code c) b'-'
    then negative (number s)
    else positive (number (if eqb (code c) b'+' then s else c ∷ s))

unfoldable pub scan_int64 : String → Option ℤ
unfolding skip_space is_digit digits_from number positive negative signed
scan_int64 raw = elim (skip_space raw) [ none ↦ none | some s ↦ signed s ]

unfoldable pub env_int64 : Env → String → ℤ → ℤ
unfolding env_string scan_int64
env_int64 env key fallback =
    let raw = env_string env key "" in
    if raw == "" then fallback else (elim (scan_int64 raw) [ none ↦ fallback | some v ↦ v ])

unfoldable pub env_bool : Env → String → Bool → Bool
unfolding env_string
env_bool env key fallback =
    let raw = to_lower (env_string env key "") in
    if raw == "1" || raw == "true" || raw == "yes"
    then true
    else if raw == "0" || raw == "false" || raw == "no"
    then false
    else fallback
