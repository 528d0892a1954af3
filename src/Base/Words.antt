-- ===== src/Base/Words.antt =====
-- `uint64_t` (and `size_t` on the supported targets) as numbers below 2 ^ 64, with the wrap-around
-- of the C++ operators written out.
use Prim.Native.Nat.{ℕ, ◌+◌, ◌-◌, ◌*◌, ◌%◌, ◌^◌, ◌≤◌, ◌<◌}
use mathlib.Core.Path.{◌≡◌}
use native.Mathlib.Omega.{arith}

abbrev pub u64 : ℕ → ℕ
u64 a = a % 2 ^ 64

abbrev pub add64 : ℕ → ℕ → ℕ
add64 a b = u64 (a + b)

abbrev pub mul64 : ℕ → ℕ → ℕ
mul64 a b = u64 (a * b)

-- `-` on ℕ stops at 0, so the modulus is added first.
abbrev pub sub64 : ℕ → ℕ → ℕ
sub64 a b = u64 (a + 2 ^ 64 - b)

-- The difference of two running counts, however often the words have wrapped.
pub sub64-u64 : (a b : ℕ) → b ≤ a → a - b < 2 ^ 64 → sub64 (u64 a) (u64 b) ≡ a - b
sub64-u64 a b h k = omega arith

pub add64-u64 : (a b : ℕ) → add64 (u64 a) b ≡ u64 (a + b)
add64-u64 a b = omega arith
