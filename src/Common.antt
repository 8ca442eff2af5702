-- ===== src/Common.antt =====
-- The names that the other modules share: the libraries', passed on, and those of the modules below
-- (tests on numbers, lists, texts as JavaScript has them, keyed tables, JavaScript numbers).
mod Tests
mod Lists
mod Texts
mod Numbers
pub mod Sort
pub mod Dedup
pub mod Table
pub use Tests.*
pub use Lists.*
unfoldable pub use Texts.*
unfoldable pub use Numbers.*
pub use Prim.Native.Nat.{
  ℕ, zero, suc, ◌+◌, ◌-◌, ◌*◌, ◌/◌, ◌%◌, ◌^◌, ◌≤◌, ◌<◌, min, max, compare, Ordering,
}
pub use mathlib.Core.Path.{◌≡◌, refl, sym, ap, ◌∙◌, subst}
pub use mathlib.Core.Logic.{◌≢◌, ◌↔◌, ◌⊎◌, inl, inr}
pub use mathlib.Core.Bool.{Bool, true, false, not, ◌&&◌, ◌||◌}
pub use mathlib.Core.Option.{Option, none, some}
pub use mathlib.Core.List.{List, [], ◌∷◌, ◌++◌, map, reverse}
pub use native.Mathlib.Omega.{arith}
