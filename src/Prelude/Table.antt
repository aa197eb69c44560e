-- ===== src/Prelude/Table.antt =====
-- Facts about a small range of numbers, by evaluation at each.
use mathlib.Core.Bool.{◌&&◌}
use Prim.Native.Nat.{ℕ, zero, suc, ◌<◌}
use mathlib.Core.Path.{◌≡◌}
use mathlib.Core.Bool.{Bool, true}
use native.Mathlib.Omega.{arith}

unfoldable pub all_below : ℕ → (ℕ → Bool) → Bool
all_below zero p = true
all_below (suc n) p = p n && all_below n p

pub all_below_sound :
    (bound : ℕ) (test : ℕ → Bool) (i : ℕ) → all_below bound test ≡ true → i < bound → test i ≡ true
unfolding all_below
all_below_sound zero test i passed lt = absurd (omega arith)
all_below_sound (suc k) test i passed lt = ground (arith, all_below_sound k test i)
