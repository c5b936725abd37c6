-- ===== src/Base.antt =====
-- The names that all parts share: the libraries', passed on, and those of the children.
-- The children hold Boolean tests, lists measured by native numbers, bit operations, and the
-- state and exception monad in which the handlers of the plugins are written.
mod Tests
mod Lists
pub mod Bits
pub mod Action
pub use Tests.*
unfoldable pub use Lists.*
pub use Prim.Native.Nat.{ℕ, zero, suc, ◌+◌, ◌-◌, ◌*◌, ◌/◌, ◌%◌, ◌^◌, ◌≤◌, ◌<◌}
pub use mathlib.Core.Path.{◌≡◌, refl, sym, ap, ap₂, subst, subst₂, ◌∙◌}
pub use mathlib.Core.Logic.{◌≢◌, ◌↔◌, ◌⊎◌, inl, inr}
pub use mathlib.Core.Bool.{Bool, true, false, not, ◌&&◌, ◌||◌}
pub use mathlib.Core.Option.{Option, none, some}
pub use mathlib.Core.List.{List, [], ◌∷◌, ◌++◌, map, reverse}
pub use native.Mathlib.Omega.{arith}

-- A string of bytes, each below 256.
abbrev pub Bytes : Type 0
Bytes = List ℕ
