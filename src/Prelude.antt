-- ===== src/Prelude.antt =====
-- The names that every module shares: the libraries' own, and those of the children, passed on.
mod Tests
mod Lists
mod Text
mod Errors
mod Int
mod Decimal
pub mod Search
pub mod Actions
pub use Tests.*
pub use Lists.*
unfoldable pub use Text.*
pub use Errors.*
unfoldable pub use Int.*
pub use Decimal.*
pub use Prim.Native.Nat.{ℕ, zero, suc, ◌+◌, ◌-◌, ◌*◌, ◌/◌, ◌%◌, ◌^◌, ◌≤◌, ◌<◌}
pub use mathlib.Core.Path.{◌≡◌, refl, sym, ap, ◌∙◌}
pub use mathlib.Core.Logic.{◌≢◌, ◌↔◌, ◌⊎◌, inl, inr}
pub use mathlib.Core.Bool.{Bool, true, false, not, ◌&&◌, ◌||◌}
pub use mathlib.Core.Option.{Option, none, some}
pub use mathlib.Core.List.{List, [], ◌∷◌, ◌++◌, map, append_assoc, append-nil}
pub use native.Mathlib.Omega.{arith}
