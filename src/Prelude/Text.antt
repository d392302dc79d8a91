-- ===== src/Prelude/Text.antt =====
-- The functions of Go's `strings` and `path` that the program calls, over code points.
use Prim.Native.Nat.{ℕ, ◌-◌}
use Prim.Native.Char.{Char, code}
use Prim.Native.String.{String, [], ◌∷◌}
use mathlib.Core.Path.{◌≡◌, refl}
use mathlib.Core.Bool.{Bool, true, and-eq-true_iff, ◌&&◌, ◌||◌}
use mathlib.Core.List.{List}
use mathlib.Core.Logic.{◌↔◌, inl, inr}
use mathlib.Core.Option.{none, some}
use text.Mathlib.Text.{◌==◌, starts_with}
use text.Mathlib.TextEquality.{eq_iff}
use text.Mathlib.TextLemmas.{cons≢nil}
use avatars.Prelude.Tests.{leb, eqb, get_elem?, Bool-cases, if◌then◌else◌}

-- strings.HasPrefix
abbrev pub has_prefix : String → String → Bool
has_prefix s prefix = starts_with s prefix

-- unicode.IsSpace
unfoldable pub is_space : ℕ → Bool
is_space c =
    leb 9 c && leb c 13
    || eqb c 32
    || eqb c 0x85
    || eqb c 0xa0
    || eqb c 0x1680
    || leb 0x2000 c && leb c 0x200a
    || eqb c 0x2028
    || eqb c 0x2029
    || eqb c 0x202f
    || eqb c 0x205f
    || eqb c 0x3000

-- the cutset of `strings.Trim(s, "\"'")`
abbrev is_quote : ℕ → Bool
is_quote c = eqb c 34 || eqb c 39

trim_left : (ℕ → Bool) → String → String
trim_left p [] = []
trim_left p (c ∷ s) = let rest = trim_left p s in if p (code c) then rest else c ∷ s

trim_right : (ℕ → Bool) → String → String
trim_right p [] = []
trim_right p (c ∷ s) =
    let rest = trim_right p s in if p (code c) && rest == "" then "" else c ∷ rest

-- strings.TrimFunc
unfoldable pub trim_by : (ℕ → Bool) → String → String
unfolding trim_left trim_right
trim_by p s = trim_right p (trim_left p s)

-- strings.TrimSpace
unfoldable pub trim_space : String → String
unfolding trim_by is_space
trim_space = trim_by is_space

unfoldable pub trim_quotes : String → String
unfolding trim_by
trim_quotes = trim_by is_quote

abbrev lower_letters : List Char
lower_letters = List.◌∷◌ "a" (
    List.◌∷◌ "b" (
      List.◌∷◌ "c" (
        List.◌∷◌ "d" (
          List.◌∷◌ "e" (
            List.◌∷◌ "f" (
              List.◌∷◌ "g" (
                List.◌∷◌ "h" (
                  List.◌∷◌ "i" (
                    List.◌∷◌ "j" (
                      List.◌∷◌ "k" (
                        List.◌∷◌ "l" (
                          List.◌∷◌ "m" (
                            List.◌∷◌ "n" (
                              List.◌∷◌ "o" (
                                List.◌∷◌ "p" (
                                  List.◌∷◌ "q" (
                                    List.◌∷◌ "r" (
                                      List.◌∷◌ "s" (
                                        List.◌∷◌ "t" (
                                          List.◌∷◌ "u" (
                                            List.◌∷◌ "v" (
                                              List.◌∷◌ "w" (
                                                List.◌∷◌ "x" (
                                                  List.◌∷◌ "y"
                                                    (List.◌∷◌ "z" List.[])))))))))))))))))))))))))

-- unicode.ToLower on the characters whose lower case is ASCII; the others stay, which no comparison
-- with an ASCII text can tell.
lower_char : Char → Char
lower_char c =
    if leb 65 (code c) && leb (code c) 90
    then (elim (get_elem? lower_letters (code c - 65)) [ none ↦ c | some d ↦ d ])
    else if eqb (code c) 0x130
    then "i"
    else if eqb (code c) 0x212a
    then "k"
    else c

-- strings.ToLower
unfoldable pub to_lower : String → String
unfolding lower_char
to_lower [] = []
to_lower (c ∷ s) = lower_char c ∷ to_lower s

-- The loop of path.Ext, from the front: `found` is the extension of what was read.
ext_from : String → String → String
ext_from found [] = found
ext_from found (c ∷ s) =
    ext_from (if eqb (code c) b'/' then "" else if eqb (code c) b'.' then c ∷ s else found) s

-- path.Ext
unfoldable pub ext : String → String
unfolding ext_from
ext s = ext_from "" s

abbrev pub IsAll : (ℕ → Bool) → String → Type 0
IsAll p [] = Unit
IsAll p (c ∷ s) = (p (code c) ≡ true) × IsAll p s

ext_tests : (ext "a.b/c.tar.GZ" ≡ ".GZ") × (ext "x.y/z" ≡ "") × (to_lower ".JpEG" ≡ ".jpeg")
unfolding ext to_lower
ext_tests = (refl, refl, refl)

trim_tests : (trim_space " \t a b\n" ≡ "a b") × (trim_quotes "\"'x'" ≡ "x")
unfolding trim_space trim_quotes
trim_tests = (refl, refl)

module _ (p : ℕ → Bool) where
  trim_left-IsAll : (s : String) → IsAll p s → trim_left p s ≡ ""
  unfolding trim_left
  trim_left-IsAll [] h = refl
  trim_left-IsAll (c ∷ s) h = rw (h.0) (trim_left-IsAll s h.1)

  trim_right-IsAll : (s : String) → trim_right p s ≡ "" → IsAll p s
  unfolding trim_right
  trim_right-IsAll [] h = tt
  trim_right-IsAll (c ∷ s) h = elim (Bool-cases (p (code c) && trim_right p s == "")) [
    | inl e ↦
        let (here, later) = (and-eq-true_iff _ _).0 e in
        (here, trim_right-IsAll s ((eq_iff _ _).0 later))
    | inr e ↦ absurd (cons≢nil (rw e at h))
  ]

  IsAll-trim_left : (s : String) → IsAll p (trim_left p s) → IsAll p s
  unfolding trim_left
  IsAll-trim_left [] h = tt
  IsAll-trim_left (c ∷ s) h = elim (Bool-cases (p (code c))) [
    | inl e ↦ (e, IsAll-trim_left s (rw e at h))
    | inr e ↦ rw e at h
  ]

  -- A text trims to nothing exactly when all its characters are in the cutset.
  trim_by-eq-nil_iff : (s : String) → (trim_by p s ≡ "") ↔ IsAll p s
  unfolding trim_by
  trim_by-eq-nil_iff s = (
    λ h. IsAll-trim_left s (trim_right-IsAll (trim_left p s) h),
    λ h. rw (trim_left-IsAll s h) refl,
  )

pub trim_space-eq-nil_iff : (s : String) → (trim_space s ≡ "") ↔ IsAll is_space s
unfolding trim_space
trim_space-eq-nil_iff = trim_by-eq-nil_iff is_space
