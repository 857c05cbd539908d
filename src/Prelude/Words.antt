-- ===== src/Prelude/Words.antt =====
-- Arithmetic of the source's unsigned words.
use Prim.Native.Nat.{ℕ, ◌+◌, ◌-◌, ◌%◌, ◌<◌}
use mathlib.Core.Path.{◌≡◌}
use native.Mathlib.Omega.{arith}

-- A word of `n` values taken down by one.
pub mod_pred : (x n : ℕ) → 0 < x → x < n → (x + (n - 1)) % n ≡ x - 1
mod_pred x n h k = grind arith
