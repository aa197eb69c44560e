-- ===== src/Prelude/Bits.antt =====
-- The bit operators of a machine word of `w` bits.
use mathlib.Core.Path.{◌≡◌}
use mathlib.Core.Logic.{◌↔◌}
use iedsync_together.Prelude.Tests.{◌==◌, ==_iff, if◌then◌else◌}
use Prim.Native.Nat.{ℕ, zero, suc, ◌+◌, ◌*◌, ◌/◌, ◌%◌, ◌^◌, ◌<◌}
use native.Mathlib.Omega.{arith}

-- `x ^ y`.
unfoldable pub bit_xor : ℕ → ℕ → ℕ → ℕ
bit_xor zero x y = 0
bit_xor (suc w) x y = (x % 2 + y % 2) % 2 + 2 * bit_xor w (x / 2) (y / 2)

-- `x | y`.
unfoldable pub bit_or : ℕ → ℕ → ℕ → ℕ
bit_or zero x y = 0
bit_or (suc w) x y = (if x % 2 + y % 2 == 0 then 0 else 1) + 2 * bit_or w (x / 2) (y / 2)

half_lt : (w x : ℕ) → x < 2 ^ suc w → x / 2 < 2 ^ w
half_lt w x h = grind arith

pub bit_xor_zero : (w x y : ℕ) → x < 2 ^ w → y < 2 ^ w → (bit_xor w x y ≡ 0) ↔ (x ≡ y)
unfolding bit_xor
bit_xor_zero zero x y p q = grind arith
bit_xor_zero (suc w) x y p q =
    grind (arith, bit_xor_zero w (x / 2) (y / 2) (half_lt w x p) (half_lt w y q))

pub bit_xor_lt : (w x y : ℕ) → bit_xor w x y < 2 ^ w
unfolding bit_xor
bit_xor_lt zero x y = omega arith
bit_xor_lt (suc w) x y = grind (arith, bit_xor_lt w (x / 2) (y / 2))

pub bit_or_zero : (w x y : ℕ) → x < 2 ^ w → y < 2 ^ w → (bit_or w x y ≡ 0) ↔ ((x ≡ 0) × (y ≡ 0))
unfolding bit_or
bit_or_zero zero x y p q = grind arith
bit_or_zero (suc w) x y p q =
    grind (
      arith,
      ==_iff (x % 2 + y % 2) 0,
      bit_or_zero w (x / 2) (y / 2) (half_lt w x p) (half_lt w y q),
    )

pub bit_or_lt : (w x y : ℕ) → bit_or w x y < 2 ^ w
unfolding bit_or
bit_or_lt zero x y = omega arith
bit_or_lt (suc w) x y = grind (arith, bit_or_lt w (x / 2) (y / 2))
