-- ===== src/Prelude.antt =====
-- The names that the modules share: the library's, passed on, and those of the children below:
-- Boolean tests, equality by an instance, lists over the native numbers, results, byte strings.
mod Tests
mod Classes
mod Lists
mod Results
mod Texts
pub mod Actions
mod Overlaps
pub use Tests.*
pub use Classes.*
unfoldable pub use Classes.{list_beq, option_beq}
pub use Lists.*
pub use Results.*
pub use Texts.*
pub use Overlaps.*
pub use Prim.Native.Nat.{ℕ, zero, suc, ◌+◌, ◌-◌, ◌*◌, ◌/◌, ◌%◌, ◌^◌, ◌≤◌, ◌<◌}
pub use Prim.Native.String.{String}
pub use mathlib.Core.Path.{◌≡◌, refl, sym, ap, ◌∙◌}
pub use mathlib.Core.Logic.{◌≢◌, ◌↔◌, ◌⊎◌, inl, inr}
pub use mathlib.Core.Bool.{Bool, true, false, not, ◌&&◌, ◌||◌}
pub use mathlib.Core.Option.{Option, none, some}
pub use mathlib.Core.List.{List, [], ◌∷◌, ◌++◌, map}
pub use native.Mathlib.Omega.{arith}
