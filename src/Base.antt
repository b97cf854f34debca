-- ===== src/Base.antt =====
-- The names that the other modules share: the libraries', passed on, and those of four children, and `Int` beside them.
-- `Words` has the source's `size_t` arithmetic and `Outcome` its fatal exits; the rest models no code.
mod Tests
mod Lists
mod Words
mod Outcome
pub mod Int
pub use Tests.*
pub use Lists.*
pub use Words.*
pub use Outcome.*
pub use Prim.Native.Nat.{ℕ, zero, suc, ◌+◌, ◌-◌, ◌*◌, ◌/◌, ◌%◌, ◌^◌, ◌≤◌, ◌<◌, compare, Ordering}
pub use mathlib.Core.Path.{◌≡◌, refl, sym, ap, subst, ◌∙◌}
pub use mathlib.Core.Logic.{◌≢◌, ◌↔◌, ◌⊎◌, inl, inr}
pub use mathlib.Core.Bool.{Bool, true, false, ◌&&◌, ◌||◌, not}
pub use mathlib.Core.Option.{Option, none, some}
pub use mathlib.Core.List.{List, [], ◌∷◌, ◌++◌, map}
pub use native.Mathlib.Omega.{arith}
