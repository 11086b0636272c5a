-- ===== src/Common.antt =====
-- The names that the other modules share: numbers, tests, options, and byte sequences as lists of
-- native numbers.
mod Tests
mod Lists
mod Slices
mod Maps
mod Weights
mod Text
pub use Tests.*
unfoldable pub use Lists.{equal}
pub use Lists.*
pub use Slices.*
unfoldable pub use Maps.{lookup, erase}
pub use Maps.*
pub use Weights.*
pub use Text.*
pub use Prim.Native.Nat.{ℕ, zero, suc, ◌+◌, ◌-◌, ◌*◌, ◌/◌, ◌%◌, ◌^◌, ◌≤◌, ◌<◌, min, max}
pub use mathlib.Core.Path.{◌≡◌, refl, sym, ap, ap₂, ◌∙◌}
pub use mathlib.Core.Logic.{◌≢◌, ◌↔◌, ◌⊎◌, inl, inr}
pub use mathlib.Core.Bool.{Bool, true, false, not, ◌&&◌, ◌||◌}
pub use mathlib.Core.Option.{Option, none, some}
pub use mathlib.Core.List.{List, [], ◌∷◌, ◌++◌, map, append-nil, append_assoc}
pub use native.Mathlib.Omega.{arith}
