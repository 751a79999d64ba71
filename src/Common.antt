-- ===== src/Common.antt =====
-- The names that every component shares: the libraries', passed on, Boolean tests and lists over
-- the native numbers, byte tables and the return codes of the storage engine.
mod Tests
mod Lists
mod Table
mod ReturnCode
mod Buffer
mod Count
mod Int
mod Endian
mod Slots
mod Ordered
pub mod Step
pub use Tests.*
pub use Lists.*
unfoldable pub use Table.*
pub use ReturnCode.*
unfoldable pub use Buffer.*
unfoldable pub use Count.*
pub use Int.*
unfoldable pub use Endian.*
pub use Slots.*
pub use Ordered.*
pub use Prim.Native.Nat.{
  ℕ, zero, suc, ◌+◌, ◌-◌, ◌*◌, ◌/◌, ◌%◌, ◌^◌, ◌≤◌, ◌<◌, bit_and, bit_or, bit_xor,
}
pub use mathlib.Core.Path.{◌≡◌, refl, sym, ap, ◌∙◌, subst, subst₂}
pub use mathlib.Core.Logic.{◌≢◌, ◌↔◌, ◌⊎◌, inl, inr}
pub use mathlib.Core.Bool.{Bool, true, false, not, ◌&&◌, ◌||◌}
pub use mathlib.Core.Option.{Option, none, some}
pub use mathlib.Core.List.{List, [], ◌∷◌, ◌++◌, map, reverse}
pub use native.Mathlib.Omega.{arith}
