-- ===== src/Base.antt =====
-- The names that every module shares: the libraries', passed on, and those of the children below.
-- The children stand for what the Go code takes from its language: Boolean tests, slices, strings,
-- 64-bit integers and sentinel errors.
mod Tests
mod Lists
mod Strings
mod Cases
mod Int64
mod Errors
mod Trees
mod Trim
mod Decimal
unfoldable pub use Tests.*
unfoldable pub use Lists.*
unfoldable pub use Strings.*
unfoldable pub use Cases.*
unfoldable pub use Int64.*
unfoldable pub use Errors.*
unfoldable pub use Trees.*
pub use Trim.*
unfoldable pub use Decimal.*
pub use Prim.Native.Nat.{ℕ, zero, suc, ◌+◌, ◌-◌, ◌*◌, ◌/◌, ◌%◌, ◌^◌, ◌≤◌, ◌<◌}
pub use mathlib.Core.Path.{◌≡◌, refl, sym, ap, ◌∙◌, subst}
pub use mathlib.Core.Logic.{◌≢◌, ◌↔◌, ◌⊎◌, inl, inr}
pub use mathlib.Core.Bool.{Bool, true, false, not, ◌&&◌, ◌||◌}
pub use mathlib.Core.Option.{Option, none, some}
pub use mathlib.Core.List.{List, [], ◌∷◌, ◌++◌, map}
pub use native.Mathlib.Omega.{arith}
