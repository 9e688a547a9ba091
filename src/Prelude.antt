-- ===== src/Prelude.antt =====
-- Names that every module shares: the library's, passed on, the tests, lists, integers and the
-- outcome of code that may leave the bounds of an object.
mod Tests
mod Lists
mod Faults
mod Dict
mod Tables
pub mod Multisets
pub mod Single
pub use Tests.*
pub use Lists.*
unfoldable pub use Tables.*
pub use Faults.*
unfoldable pub use Dict.*
pub use Prim.Native.Nat.{ℕ, zero, suc, ◌+◌, ◌-◌, ◌*◌, ◌/◌, ◌%◌, ◌^◌, ◌≤◌, ◌<◌}
pub use mathlib.Core.Path.{◌≡◌, refl, sym, ap, ◌∙◌}
pub use mathlib.Core.Logic.{◌≢◌, ◌↔◌, ◌⊎◌, inl, inr}
pub use mathlib.Core.Bool.{Bool, true, false, ◌&&◌, ◌||◌, not}
pub use mathlib.Core.Option.{Option, none, some}
pub use mathlib.Core.List.{Perm, List, [], ◌∷◌, ◌++◌, map, append-nil, append_assoc, map-append}
pub use native.Mathlib.Omega.{arith}
