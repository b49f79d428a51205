-- ===== src/Common.antt =====
-- The names that the modules share: the library's, passed on, and those of the children, which
-- hold Boolean tests, lists over the native numbers, results, machine words and integers.
mod Tests
mod Lists
mod Outcome
mod Word
pub mod Bytes
pub mod Fields
pub mod Int
pub mod Arith
pub mod Distinct
pub use Tests.*
pub use Lists.*
pub use Outcome.*
pub use Word.*
pub use Prim.Native.Nat.{ℕ, zero, suc, ◌+◌, ◌-◌, ◌*◌, ◌/◌, ◌%◌, ◌^◌, ◌≤◌, ◌<◌, min, max}
pub use mathlib.Core.Path.{◌≡◌, refl, sym, ap, ◌∙◌}
pub use mathlib.Core.Logic.{◌≢◌, ◌↔◌, ◌⊎◌, inl, inr}
pub use mathlib.Core.Bool.{Bool, true, false, not, ◌&&◌, ◌||◌}
pub use mathlib.Core.Option.{Option, none, some}
pub use mathlib.Core.List.{List, [], ◌∷◌, ◌++◌, map}
pub use native.Mathlib.Omega.{arith}
