-- ===== src/Common/Order.antt =====
-- Remainders at a ring's size: indices that differ, and index arithmetic that wraps at 2 ^ 64.
use Prim.Native.Nat.{ℕ, ◌+◌, ◌%◌, ◌<◌}
use mathlib.Core.Logic.{◌≢◌}
use native.Mathlib.Nat.{mod-add-mod, mod-eq_of_lt, mod-eq-sub-mod}
use native.Mathlib.Omega.{arith}

-- Two offsets below `n` that differ stay apart when both are added to `a` and reduced.
pub add-mod-ne : (a n i j : ℕ) → i < n → j < n → i ≢ j → (a + i) % n ≢ (a + j) % n
add-mod-ne a n i j hi hj ne e =
    grind (arith, mod-add-mod a n i, mod-add-mod a n j, mod-eq_of_lt, mod-eq-sub-mod)
