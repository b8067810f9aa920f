-- ===== src/Base.antt =====
-- Names that every part of the development uses: the libraries' passed on, and those of the
-- children (Boolean tests, lists over native numbers, 64-bit integers, Go maps).
mod Tests
mod Lists
mod Slices
mod Text
pub mod Int64
pub mod Dict
pub use Tests.*
pub use Lists.*
pub use Slices.*
unfoldable pub use Text.*
pub use Prim.Native.Nat.{ℕ, zero, suc, ◌+◌, ◌-◌, ◌*◌, ◌/◌, ◌%◌, ◌^◌, ◌≤◌, ◌<◌}
pub use Prim.Native.String.{String}
pub use mathlib.Core.Path.{◌≡◌, refl, sym, ap, ◌∙◌}
pub use mathlib.Core.Logic.{◌≢◌, ◌↔◌, ◌⊎◌, inl, inr}
pub use mathlib.Core.Bool.{Bool, true, false, ◌&&◌, ◌||◌, not}
pub use mathlib.Core.Option.{Option, none, some}
pub use mathlib.Core.List.{List, [], ◌∷◌, ◌++◌, map}
pub use native.Mathlib.Omega.{arith}
