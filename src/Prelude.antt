-- ===== src/Prelude.antt =====
-- The names that the other modules share: the libraries', passed on, and those of the children.
mod Tests
mod Lists
mod Order
mod Sort
mod Assoc
mod Bytes
mod Marked
mod Strict
mod Canonical
mod Space
pub use Tests.*
pub use Lists.*
unfoldable pub use Order.*
unfoldable pub use Sort.*
unfoldable pub use Assoc.*
unfoldable pub use Bytes.*
pub use Marked.*
pub use Strict.*
pub use Canonical.*
unfoldable pub use Space.*
pub use Prim.Native.Nat.{ℕ, zero, suc, ◌+◌, ◌-◌, ◌*◌, ◌/◌, ◌%◌, ◌^◌, ◌≤◌, ◌<◌, min, Ordering}
pub use Prim.Native.String.{String}
pub use mathlib.Core.Path.{◌≡◌, refl, sym, ap, ◌∙◌, subst}
pub use mathlib.Core.Logic.{◌≢◌, ◌↔◌, ◌⊎◌, inl, inr, ⊎_elim}
pub use mathlib.Core.Bool.{Bool, true, false, not, ◌&&◌, ◌||◌}
pub use mathlib.Core.Option.{Option, none, some}
pub use mathlib.Core.List.{List, [], ◌∷◌, ◌++◌, map, foldl}
pub use native.Mathlib.Omega.{arith}
