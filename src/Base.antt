-- ===== src/Base.antt =====
-- The names that all parts share: those of the libraries, passed on, Boolean tests, C arrays as
-- lists with native indices, and the fixed-width arithmetic of C.
mod Compare
mod Order
pub mod Lists
pub mod Bits
pub mod Words
pub mod Fields
pub mod Text
mod Integers
pub use Compare.*
pub use Order.{lt_wf}
pub use Lists.*
pub use Words.*
pub use Integers.*
pub use Prim.Native.Nat.{ℕ, zero, suc, ◌+◌, ◌-◌, ◌*◌, ◌/◌, ◌%◌, ◌^◌, ◌≤◌, ◌<◌, min, bit_and, bit_or}
pub use mathlib.Core.Path.{◌≡◌, refl, sym, ap, ap₂, subst, ◌∙◌}
pub use mathlib.Core.Logic.{◌≢◌, ◌↔◌, ◌⊎◌, inl, inr}
pub use mathlib.Core.Bool.{Bool, true, false, not, ◌&&◌, ◌||◌}
pub use mathlib.Core.Option.{Option, none, some}
pub use mathlib.Core.List.{List, [], ◌∷◌, ◌++◌, append-nil, append_assoc}
pub use native.Mathlib.Omega.{arith}
