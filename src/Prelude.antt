-- ===== src/Prelude.antt =====
-- The names that the other modules share: the libraries', passed on, the Boolean tests on native
-- numbers, lists measured by them, and predicates on the elements of a list.
mod Tests
mod Lists
mod Elements
mod Table
mod Bits
pub use Tests.*
pub use Lists.*
pub use Elements.*
pub use Bits.{bit_xor_zero, bit_xor_lt, bit_or_zero, bit_or_lt}
unfoldable pub use Bits.{bit_xor, bit_or}
pub use Table.{all_below_sound}
unfoldable pub use Table.{all_below}
pub use Prim.Native.Nat.{ℕ, zero, suc, ◌+◌, ◌-◌, ◌*◌, ◌/◌, ◌%◌, ◌^◌, ◌≤◌, ◌<◌}
pub use mathlib.Core.Path.{◌≡◌, refl, sym, ap, ap₂, ◌∙◌, subst}
pub use mathlib.Core.Logic.{◌≢◌, ◌↔◌, ◌⊎◌, inl, inr}
pub use mathlib.Core.Bool.{Bool, true, false, not, ◌&&◌, ◌||◌}
pub use mathlib.Core.Option.{Option, none, some}
pub use mathlib.Core.List.{List, [], ◌∷◌, ◌++◌, map, append-nil, append_assoc}
pub use native.Mathlib.Omega.{arith}
