-- ===== src/Bitmap/Byte.antt =====
-- src/core/PageBitmap.h: the tests and masks on one byte of the vector. Their laws are checked over
-- every byte and every pair of bit positions.
use Prim.Native.Nat.{bit_and, bit_or, bit_and-bitwise}
use xrd_ucache.Base.{
  ℕ, zero, suc, ◌-◌, ◌^◌, ◌<◌, ◌≡◌, refl, Bool, true, false, not, ◌&&◌, arith, ◌==◌, if◌then◌else◌,
  ltb, ltb→lt,
}

-- `byte & (1u << k)` as a truth value.
unfoldable pub bit_of : ℕ → ℕ → Bool
bit_of b k = not (bit_and b (2 ^ k) == 0)

-- `byte |= (1u << k)`.
unfoldable pub with_bit : ℕ → ℕ → ℕ
with_bit b k = bit_or b (2 ^ k)

-- `byte &= ~(1u << k)`, the mask being a uint8_t.
unfoldable pub without_bit : ℕ → ℕ → ℕ
without_bit b k = bit_and b (255 - 2 ^ k)

-- Does a test hold at each of the positions under a limit?
holds_under : (ℕ → Bool) → ℕ → Bool
holds_under test zero = true
holds_under test (suc limit) = if test limit then holds_under test limit else false

holds_under_at :
    (test : ℕ → Bool) (limit at : ℕ) → at < limit → holds_under test limit ≡ true → test at ≡ true
unfolding holds_under
holds_under_at test zero at inside every = absurd (omega arith)
holds_under_at test (suc limit) at inside every = ground (arith, holds_under_at test limit at)

same : Bool → Bool → Bool
same true c = c
same _ c = not c

same→eq : (b c : Bool) → same b c ≡ true → b ≡ c
unfolding same
same→eq b c h = ground arith

-- A property of a byte and two bit positions, at every value.
abbrev everywhere : (ℕ → ℕ → ℕ → Bool) → Bool
everywhere p = holds_under (λ b. holds_under (λ k. holds_under (p b k) 8) 8) 256

everywhere_sound :
    (p : ℕ → ℕ → ℕ → Bool) (b k j : ℕ)
    → everywhere p ≡ true
    → b < 256
    → k < 8
    → j < 8
    → p b k j ≡ true
everywhere_sound p b k j h hb hk hj = holds_under_at (p b k) 8 j hj (
    holds_under_at (λ i. holds_under (p b i) 8) 8 k hk
      (holds_under_at (λ x. holds_under (λ i. holds_under (p x i) 8) 8) 256 b hb h))

abbrev with_bit_test : ℕ → ℕ → ℕ → Bool
with_bit_test b k j =
    same (bit_of (with_bit b k) j) (if k == j then true else bit_of b j) && ltb (with_bit b k) 256

abbrev without_bit_test : ℕ → ℕ → ℕ → Bool
without_bit_test b k j =
    same (bit_of (without_bit b k) j) (if k == j then false else bit_of b j)
    && ltb (without_bit b k) 256

with_bit_table : everywhere with_bit_test ≡ true
unfolding holds_under same bit_of with_bit
with_bit_table = refl

without_bit_table : everywhere without_bit_test ≡ true
unfolding holds_under same bit_of without_bit
without_bit_table = refl

and_parts : (b c : Bool) → (b && c) ≡ true → (b ≡ true) × (c ≡ true)
and_parts b c h = ground arith

-- Setting bit k of a byte sets that bit and keeps the others; the result is a byte.
pub bit_of-with_bit :
    (b k j : ℕ)
    → b < 256
    → k < 8
    → j < 8
    → (bit_of (with_bit b k) j ≡ (if k == j then true else bit_of b j)) × (with_bit b k < 256)
bit_of-with_bit b k j hb hk hj =
    let both = and_parts _ _ (everywhere_sound with_bit_test b k j with_bit_table hb hk hj) in
    (same→eq _ _ both.0, ltb→lt _ _ both.1)

-- Clearing bit k of a byte clears that bit and keeps the others; the result is a byte.
pub bit_of-without_bit :
    (b k j : ℕ)
    → b < 256
    → k < 8
    → j < 8
    → (bit_of (without_bit b k) j ≡ (if k == j then false else bit_of b j))
      × (without_bit b k < 256)
bit_of-without_bit b k j hb hk hj =
    let both = and_parts _ _ (everywhere_sound without_bit_test b k j without_bit_table hb hk hj) in
    (same→eq _ _ both.0, ltb→lt _ _ both.1)

-- The zero byte has no bit set.
pub bit_of-zero : (j : ℕ) → bit_of 0 j ≡ false
unfolding bit_of
bit_of-zero j = rw (bit_and-bitwise 0 (2 ^ j))
