-- ===== src/Prelude.antt =====
-- The names that every module shares: the libraries', passed on, and those of the children. Python's
-- `int` is the native ℕ where it cannot be negative, `list` is `List`, `dict` is `Dict`.
mod Tests
mod Lists
mod Keys
pub mod Dict
pub mod Members
pub mod Once
unfoldable pub use Tests.*
unfoldable pub use Lists.*
unfoldable pub use Keys.*
pub use Prim.Native.Nat.{ℕ, zero, suc, ◌+◌, ◌-◌, ◌*◌, ◌/◌, ◌%◌, ◌^◌, ◌≤◌, ◌<◌, min, max}
pub use Prim.Native.String.{String}
pub use mathlib.Core.Path.{◌≡◌, refl, sym, ap, ◌∙◌, subst}
pub use mathlib.Core.Logic.{◌≢◌, ◌↔◌, ◌⊎◌, inl, inr}
pub use mathlib.Core.Bool.{Bool, true, false, not, ◌&&◌, ◌||◌}
pub use mathlib.Core.Option.{Option, none, some}
pub use mathlib.Core.List.{List, [], ◌∷◌, ◌++◌, map}
pub use native.Mathlib.Omega.{arith}
