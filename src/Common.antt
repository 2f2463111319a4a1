-- ===== src/Common.antt =====
-- The names that the other modules share: the libraries' names, passed on, the Boolean tests on
-- native numbers, lists measured by them, and the small predicates on lists and functions that the
-- models of the kernel's tables and linked lists use. It models no code of its own.
mod Tests
mod Lists
mod Maps
mod Counting
mod Loops
mod Slots
pub mod Int
pub use Tests.*
pub use Lists.*
pub use Maps.*
unfoldable pub use Loops.{for_below}
pub use Loops.*
unfoldable pub use Slots.{first_slot}
pub use Slots.*
pub use Counting.*
pub use Prim.Native.Nat.{ℕ, zero, suc, ◌+◌, ◌-◌, ◌*◌, ◌/◌, ◌%◌, ◌^◌, ◌≤◌, ◌<◌, min}
pub use mathlib.Core.Path.{◌≡◌, refl, sym, ap, ◌∙◌, subst}
pub use mathlib.Core.Logic.{◌≢◌, ◌↔◌, ◌⊎◌, inl, inr}
pub use mathlib.Core.Bool.{Bool, true, false, not, ◌&&◌, ◌||◌}
pub use mathlib.Core.Option.{Option, none, some}
pub use mathlib.Core.List.{List, [], ◌∷◌, ◌++◌, map, append_assoc, append-nil}
pub use native.Mathlib.Omega.{arith}
unfoldable pub use native.Mathlib.Decide.{dec_lt, dec_le, ℕ_discrete}
