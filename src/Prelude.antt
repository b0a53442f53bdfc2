-- ===== src/Prelude.antt =====
-- The names that every module shares: the library's, passed on, the Boolean tests on numbers, and
-- lists measured by native numbers. Durations, instants, levels and sizes are such numbers.
mod Tests
mod Lists
mod Bytes
mod Text
mod Int
mod Decimal
pub use Tests.*
pub use Lists.*
unfoldable pub use Bytes.*
unfoldable pub use Text.*
pub use Int.*
unfoldable pub use Decimal.*
pub use Prim.Native.Nat.{ℕ, zero, suc, ◌+◌, ◌-◌, ◌*◌, ◌/◌, ◌%◌, ◌^◌, ◌≤◌, ◌<◌, min, max}
pub use mathlib.Core.Path.{◌≡◌, refl, sym, ap, ◌∙◌, subst}
pub use mathlib.Core.Logic.{◌≢◌, ◌↔◌, ◌⊎◌, inl, inr}
pub use mathlib.Core.Bool.{Bool, true, false, not, ◌&&◌, ◌||◌}
pub use mathlib.Core.Option.{Option, none, some}
pub use mathlib.Core.List.{List, [], ◌∷◌, ◌++◌, map, append_assoc, append-nil}
pub use native.Mathlib.Omega.{arith}
