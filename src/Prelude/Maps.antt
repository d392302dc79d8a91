-- ===== src/Prelude/Maps.antt =====
-- Go's `map[string]V` as an association list, with what each operation does to a lookup.
use Prim.Native.String.{String}
use mathlib.Core.Path.{◌≡◌, refl}
use mathlib.Core.List.{List, [], ◌∷◌}
use mathlib.Core.Logic.{◌≢◌}
use mathlib.Core.Option
use mathlib.Core.Option.{Option, none, some}
use native.Mathlib.Omega.{arith}
use text.Mathlib.Text.{◌==◌}
use text.Mathlib.TextEquality.{eq_iff}
use avatars.Prelude.Tests.{if◌then◌else◌}

abbrev pub Assoc {ℓ} : Type ℓ → Type ℓ
Assoc V = List (String × V)

module _ {ℓ} {V : Type ℓ} where
  -- v, ok := m[key]
  unfoldable pub lookup : String → Assoc V → Option V
  lookup _ [] = none
  lookup key ((held, value) ∷ rest) = if held == key then some value else lookup key rest

  -- m[key] = new
  unfoldable pub insert : String → V → Assoc V → Assoc V
  insert key new [] = (key, new) ∷ []
  insert key new ((held, old) ∷ rest) =
      let later = insert key new rest in
      if held == key then (key, new) ∷ rest else (held, old) ∷ later

  -- delete(m, key)
  unfoldable pub delete : String → Assoc V → Assoc V
  delete _ [] = []
  delete key ((held, value) ∷ rest) =
      let later = delete key rest in if held == key then later else (held, value) ∷ later

  pub lookup_nil : (k : String) → lookup k [] ≡ none
  unfolding lookup
  lookup_nil k = refl

  pub lookup-insert :
      (written asked : String) (new : V) (m : Assoc V)
      → lookup asked (insert written new m)
        ≡ (if written == asked then some new else lookup asked m)
  unfolding lookup insert
  lookup-insert written asked new [] = refl
  lookup-insert written asked new ((held, old) ∷ rest) = ground (
    arith,
    lookup-insert written asked new rest,
    eq_iff held written,
    eq_iff held asked,
    eq_iff written asked,
  )

  pub lookup-delete :
      (gone asked : String) (m : Assoc V)
      → lookup asked (delete gone m) ≡ (if gone == asked then none else lookup asked m)
  unfolding lookup delete
  lookup-delete gone asked [] = ground arith
  lookup-delete gone asked ((held, old) ∷ rest) =
      ground (
        arith,
        eq_iff gone asked,
        lookup-delete gone asked rest,
        eq_iff held asked,
        eq_iff held gone,
      )

  pub lookup-insert_ne :
      (k j : String) (v : V) (m : Assoc V) → k ≢ j → lookup j (insert k v m) ≡ lookup j m
  lookup-insert_ne k j v m h = ground (arith, lookup-insert k j v m, eq_iff k j)

  pub lookup-delete_ne : (k j : String) (m : Assoc V) → k ≢ j → lookup j (delete k m) ≡ lookup j m
  lookup-delete_ne k j m h = ground (arith, lookup-delete k j m, eq_iff k j)

-- The map with every value replaced.
unfoldable pub map_values {ℓ κ} : {V : Type ℓ} {U : Type κ} → (V → U) → Assoc V → Assoc U
map_values f [] = []
map_values f ((j, v) ∷ m) = (j, f v) ∷ map_values f m

module _ {ℓ κ} {V : Type ℓ} {U : Type κ} (f : V → U) where
  pub lookup-map_values :
      (k : String) (m : Assoc V) → lookup k (map_values f m) ≡ Option.map f (lookup k m)
  unfolding lookup map_values
  lookup-map_values k [] = refl
  lookup-map_values k ((j, v) ∷ m) = ground (arith, lookup-map_values k m)

  pub map_values-insert :
      (k : String) (v : V) (m : Assoc V)
      → map_values f (insert k v m) ≡ insert k (f v) (map_values f m)
  unfolding insert map_values
  map_values-insert k v [] = refl
  map_values-insert k v ((j, w) ∷ m) = ground (arith, map_values-insert k v m)

  pub map_values-delete :
      (k : String) (m : Assoc V) → map_values f (delete k m) ≡ delete k (map_values f m)
  unfolding delete map_values
  map_values-delete k [] = refl
  map_values-delete k ((j, w) ∷ m) = ground (arith, map_values-delete k m)

pub ruleset map_laws = (lookup_nil, lookup-insert, lookup-delete)
