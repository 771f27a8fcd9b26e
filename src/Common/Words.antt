-- ===== src/Common/Words.antt =====
-- `u32` arithmetic of a release build, which wraps.
use Prim.Native.Nat.{ℕ, ◌+◌, ◌-◌, ◌%◌, ◌^◌, ◌≤◌, ◌<◌}
use mathlib.Core.Path.{◌≡◌}
use native.Mathlib.Omega.{arith}

unfoldable pub add32 : ℕ → ℕ → ℕ
add32 a b = (a + b) % 2 ^ 32

unfoldable pub sub32 : ℕ → ℕ → ℕ
sub32 a b = (a + 2 ^ 32 - b) % 2 ^ 32

pub add32_fits : (a b : ℕ) → a + b < 2 ^ 32 → add32 a b ≡ a + b
unfolding add32
add32_fits a b h = omega arith

pub sub32_fits : (a b : ℕ) → a < 2 ^ 32 → b ≤ a → sub32 a b ≡ a - b
unfolding sub32
sub32_fits a b h k = omega arith
