-- ===== src/Config/Path.antt =====
-- Where ConfigPath finds the path.
use avatars.Prelude.{
  String, Bool, true, not, ◌||◌, ◌==◌, ◌≡◌, refl, none, List, [], ◌∷◌, ◌++◌, All, arith, has_prefix,
}
use avatars.Config.{Env, path_of_args, config_path}

-- An argument that is none of the four forms of the flag.
abbrev pub is_plain : String → Bool
is_plain arg =
    not (arg == "-c" || arg == "-config" || has_prefix arg "-c=" || has_prefix arg "-config=")

abbrev pub IsPlain : String → Type 0
IsPlain arg = is_plain arg ≡ true

path_of_args-append :
    (before rest : List String)
    → All IsPlain before
    → path_of_args (before ++ rest) ≡ path_of_args rest
unfolding path_of_args
path_of_args-append [] rest plain = refl
path_of_args-append (arg ∷ before) rest (here, later) =
    ground (arith, path_of_args-append before rest later)

-- Without a variable CONFIG, and behind arguments that are none of the flag's forms, the path is the
-- argument after "-c" or "-config", whatever follows; with no form of the flag at all it is empty.
pub config_path_lem :
    (env : Env) (before rest : List String) (path : String)
    → env "CONFIG" ≡ none
    → All IsPlain before
    → (config_path env (before ++ "-c" ∷ path ∷ rest) ≡ path)
      × (config_path env (before ++ "-config" ∷ path ∷ rest) ≡ path)
      × (config_path env (before ++ []) ≡ "")
unfolding config_path path_of_args
config_path_lem env before rest path unset plain =
    let skip : (later : List String) → config_path env (before ++ later) ≡ path_of_args later =
      λ later. rw unset (path_of_args-append before later plain) in
    (skip ("-c" ∷ path ∷ rest), skip ("-config" ∷ path ∷ rest), skip [])
