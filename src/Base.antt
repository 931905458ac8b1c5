-- ===== src/Base.antt =====
-- The names that the other modules share: the libraries' on numbers, paths, lists and options,
-- the Boolean tests, lists over native numbers, and unsigned 64-bit arithmetic.
pub mod Tests
mod Lists
mod Word
mod Mul
pub mod PageMap
mod Bytes
pub mod PageMapLaws
pub use Tests.*
pub use Lists.*
pub use Word.*
pub use Mul.*
unfoldable pub use Bytes.*
pub use Prim.Native.Nat.{ℕ, zero, suc, ◌+◌, ◌-◌, ◌*◌, ◌/◌, ◌%◌, ◌^◌, ◌≤◌, ◌<◌, min, max}
pub use mathlib.Core.Path.{◌≡◌, refl, sym, ap, ◌∙◌}
pub use mathlib.Core.Logic.{◌≢◌, ◌↔◌, ◌⊎◌, inl, inr}
pub use mathlib.Core.Bool.{Bool, true, false, not, ◌&&◌, ◌||◌}
pub use mathlib.Core.Option.{Option, none, some}
pub use mathlib.Core.List.{List, [], ◌∷◌, ◌++◌, map}
pub use native.Mathlib.Omega.{arith}
