-- ===== src/Base.antt =====
-- What the modules share: the libraries' names, passed on, and those of the children.
mod Equality
mod Tests
mod Lists
mod Members
pub mod Result
pub mod Dict
pub mod Int
pub mod Sort
pub mod Text
pub mod Pigeonhole
pub mod Distinct
pub mod Decimal
pub mod Maybe
pub mod Lines
unfoldable pub use Equality.*
pub use Tests.*
pub use Lists.*
pub use Members.*
pub use Prim.Native.Nat.{ℕ, zero, suc, ◌+◌, ◌-◌, ◌*◌, ◌/◌, ◌%◌, ◌^◌, ◌≤◌, ◌<◌}
pub use Prim.Native.String.{String, ◌++◌ as ◌<>◌}
pub use mathlib.Core.Path.{◌≡◌, refl, sym, ap, ◌∙◌}
pub use mathlib.Core.Logic.{◌≢◌, ◌↔◌, ◌⊎◌, inl, inr, ite}
pub use mathlib.Core.Bool.{Bool, true, false, not, ◌&&◌, ◌||◌}
pub use mathlib.Core.Option.{Option, none, some}
pub use mathlib.Core.List.{List, [], ◌∷◌, ◌++◌, map}
pub use native.Mathlib.Omega.{arith}
