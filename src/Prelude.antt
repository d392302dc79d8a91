-- ===== src/Prelude.antt =====
-- Names that the modules of the development share: those of the libraries, passed on, and those of
-- the children (Boolean tests, Go errors, Go strings, Go maps).
mod Tests
mod Text
mod Maps
mod Errors
mod Int
pub use Tests.*
pub use Errors.*
unfoldable pub use Errors.{message}
pub use Int.{ℤ, pos, negsuc}
unfoldable pub use Int.{add_one, positive_or}
unfoldable pub use Text.{is_space, trim_space, to_lower, ext, trim_quotes}
pub use Text.{has_prefix, IsAll, trim_space-eq-nil_iff}
unfoldable pub use Maps.{lookup, insert, delete, map_values}
pub use Maps.{
  Assoc, lookup-insert, lookup-delete, lookup_nil, map_laws, lookup-insert_ne, lookup-delete_ne,
  lookup-map_values, map_values-insert, map_values-delete,
}
pub use Prim.Native.Nat.{ℕ, zero, suc, ◌+◌, ◌-◌, ◌*◌, ◌/◌, ◌%◌, ◌^◌, ◌≤◌, ◌<◌}
pub use Prim.Native.String.{String}
pub use mathlib.Core.Path.{◌≡◌, refl, sym, ap, ◌∙◌}
pub use mathlib.Core.Logic.{◌≢◌, ◌↔◌, ◌⊎◌, inl, inr}
pub use mathlib.Core.Bool.{Bool, true, false, not, ◌&&◌, ◌||◌}
pub use mathlib.Core.Option.{Option, none, some}
pub use mathlib.Core.List.{List, [], ◌∷◌, ◌++◌}
pub use native.Mathlib.Omega.{arith}
pub use text.Mathlib.Text.{◌==◌}
pub use text.Mathlib.TextEquality.{eq_iff}
pub use text.Mathlib.TextPositions.{eq_refl}
