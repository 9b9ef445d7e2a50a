-- ===== src/Prelude.antt =====
-- The names that the other modules share: the libraries' and those of the children.
mod Tests
mod Lists
mod Equality
pub mod Text
pub mod Sorting
pub mod Map
pub mod Outcome
pub use Tests.{
  ltb, leb, if◌then◌else◌, ltb→lt, lt→ltb, leb→le, ==_iff, tests, Bool-cases, Option-cases,
}
unfoldable pub use Lists.*
unfoldable pub use Equality.*
pub use Prim.Native.Nat.{ℕ, zero, suc, ◌+◌, ◌-◌, ◌*◌, ◌/◌, ◌%◌, ◌^◌, ◌≤◌, ◌<◌, min}
pub use mathlib.Core.Path.{◌≡◌, refl, sym, ap, ◌∙◌, subst}
pub use mathlib.Core.Logic.{◌≢◌, ◌↔◌, ◌⊎◌, inl, inr}
pub use mathlib.Core.Bool.{Bool, true, false, not, ◌&&◌, ◌||◌}
pub use mathlib.Core.Option.{Option, none, some}
pub use mathlib.Core.List.{List, [], ◌∷◌, ◌++◌, map}
pub use native.Mathlib.Omega.{arith}
