-- ===== src/Prelude.antt =====
-- The names that the modules of the library share: those of the libraries, passed on, and those of
-- the children: Boolean tests, lists over the native numbers, equality of keys, error results.
mod Tests
mod Lists
mod Equality
mod Errors
pub mod Map
pub mod Int
pub use Tests.*
pub use Lists.*
pub use Equality.*
pub use Errors.*
pub use Prim.Native.Nat.{ℕ, zero, suc, ◌+◌, ◌-◌, ◌*◌, ◌/◌, ◌%◌, ◌^◌, ◌≤◌, ◌<◌}
pub use mathlib.Core.Path.{◌≡◌, refl, sym, ap, ◌∙◌}
pub use mathlib.Core.Logic.{◌≢◌, ◌↔◌, ◌⊎◌, inl, inr}
pub use mathlib.Core.Bool.{Bool, true, false, not, ◌&&◌, ◌||◌}
pub use mathlib.Core.Option.{Option, none, some}
pub use mathlib.Core.List.{List, [], ◌∷◌, ◌++◌, append-nil, append_assoc}
pub use native.Mathlib.Omega.{arith}
