-- ===== src/Common.antt =====
-- The names that the other modules share: the libraries' names passed on, the Boolean tests, the
-- lists indexed by native numbers, Go's strings as lists of bytes, and Go's maps.
pub mod Tests
pub mod Lists
pub mod Strings
pub mod Assoc
pub mod Int
pub mod Splitting
unfoldable pub use Tests.*
unfoldable pub use Lists.*
unfoldable pub use Strings.*
unfoldable pub use Assoc.*
unfoldable pub use Int.*
pub use Prim.Native.Nat.{ℕ, zero, suc, ◌+◌, ◌-◌, ◌*◌, ◌/◌, ◌%◌, ◌^◌, ◌≤◌, ◌<◌, min, max}
pub use mathlib.Core.Path.{◌≡◌, refl, sym, ap, ap₂, ◌∙◌, subst}
pub use mathlib.Core.Logic.{◌≢◌, ◌↔◌, ◌⊎◌, inl, inr}
pub use mathlib.Core.Bool.{Bool, true, false, not, ◌&&◌, ◌||◌}
pub use mathlib.Core.Option.{Option, none, some}
pub use mathlib.Core.List.{
  List, [], ◌∷◌, ◌++◌, map, reverse, append-nil, append_assoc, reverse-append,
}
pub use native.Mathlib.Omega.{arith}
