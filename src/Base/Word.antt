-- ===== src/Base/Word.antt =====
-- Unsigned 64-bit sums and differences, with their wrap-around.
use Prim.Native.Nat.{ℕ, ◌+◌, ◌-◌, ◌%◌, ◌^◌, ◌≤◌, ◌<◌}
use mathlib.Core.Path.{◌≡◌}
use native.Mathlib.Omega.{arith}

abbrev pub word_limit : ℕ
word_limit = 2 ^ 64

-- uint64_t a + b.
abbrev pub add64 : ℕ → ℕ → ℕ
add64 a b = (a + b) % 2 ^ 64

-- uint64_t a - b; the modulus is added first since `-` stops at 0.
abbrev pub sub64 : ℕ → ℕ → ℕ
sub64 a b = (a + 2 ^ 64 - b) % 2 ^ 64

-- A counter kept modulo 2 ^ 64 follows the exact number through an addition.
pub add64_mod : (c exact n : ℕ) → c ≡ exact % 2 ^ 64 → add64 c n ≡ (exact + n) % 2 ^ 64
add64_mod c exact n h = omega arith

-- And through a subtraction that the exact number allows.
pub sub64_mod :
    (c exact n : ℕ) → c ≡ exact % 2 ^ 64 → n ≤ exact → n ≤ 2 ^ 64 → sub64 c n ≡ (exact - n) % 2 ^ 64
sub64_mod c exact n h le small = omega arith

-- `a + p - 1` is exact when the sum passes 2 ^ 64 by nothing.
pub sub64-add64 : (a p : ℕ) → 0 < p → a + p ≤ 2 ^ 64 → sub64 (add64 a p) 1 ≡ a + p - 1
sub64-add64 a p pos room = omega arith
