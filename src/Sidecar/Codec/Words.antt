-- ===== src/Sidecar/Codec/Words.antt =====
-- src/core/MetaFile.cc: `put` and `get` of little-endian words, and the table of checksums.
use xrd_ucache.Base.{
  ℕ, zero, suc, ◌+◌, ◌-◌, ◌*◌, ◌/◌, ◌^◌, ◌<◌, ◌≡◌, refl, arith, List, [], ◌∷◌, ◌++◌, length, All,
  Content, slice, sym, ap, ◌∙◌, length-append, take, drop, take-slice, drop-slice,
}
use mathlib.Core.Path.{ap₂}
use xrd_ucache.Sidecar.Codec.{le, from_le, get, crc_table, parse_table}

pub length-le : (n v : ℕ) → length (le n v) ≡ n
unfolding le
length-le zero v = refl
length-le (suc n) v = ap suc (length-le n (v / 256))

pub from_le-le : (n v : ℕ) → v < 256 ^ n → from_le (le n v) ≡ v
unfolding le from_le
from_le-le zero v h = omega arith
from_le-le (suc n) v h = let rest = from_le-le n (v / 256) (omega arith) in omega (arith, rest)

-- A word that was put down is got back.
pub get-le : (p : Content) (off n v : ℕ) → v < 256 ^ n → slice p off n ≡ le n v → get p off n ≡ v
unfolding get
get-le p off n v h e = ap from_le e ∙ from_le-le n v h

pub length-crc_table : (l : List ℕ) → length (crc_table l) ≡ 4 * length l
unfolding crc_table
length-crc_table [] = omega arith
length-crc_table (c ∷ l) =
    length-append (le 4 c) (crc_table l) ∙ omega (arith, length-le 4 c, length-crc_table l)

-- The two parts of a span whose first part has a known length.
split_append {ℓ} :
    {A : Type ℓ} (n : ℕ) (front back l : List A)
    → length front ≡ n
    → front ++ back ≡ l
    → (take n l ≡ front) × (drop n l ≡ back)
split_append zero [] back l e h = (refl, sym h)
split_append zero (x ∷ front) back l e h = absurd (omega arith)
split_append (suc n) [] back l e h = absurd (omega arith)
split_append (suc n) (x ∷ front) back l e h =
    let (a, b) = split_append n front back (front ++ back) (omega arith) refl in
    (ap (take (suc n)) (sym h) ∙ ap (λ k. x ∷ k) a, ap (drop (suc n)) (sym h) ∙ b)

pub parse_table-crc_table :
    (p : Content) (off : ℕ) (l : List ℕ)
    → All (λ c. c < 2 ^ 32) l
    → slice p off (4 * length l) ≡ crc_table l
    → parse_table p off (length l) ≡ l
unfolding parse_table crc_table
parse_table-crc_table p off [] a e = refl
parse_table-crc_table p off (c ∷ l) a e =
    let size = 4 * length (c ∷ l) in
    let (first, rest) =
      split_append 4 (le 4 c) (crc_table l) (slice p off size) (length-le 4 c) (sym e) in
    let front : slice p off 4 ≡ le 4 c = sym (take-slice p off size 4 (omega arith)) ∙ first in
    let count : size - 4 ≡ 4 * length l = omega arith in
    let back : slice p (off + 4) (4 * length l) ≡ crc_table l =
      sym (drop-slice p off size 4 (omega arith) ∙ ap (slice p (off + 4)) count) ∙ rest in
    ap₂ ◌∷◌ (get-le p off 4 c (omega (arith, a.0)) front)
      (parse_table-crc_table p (off + 4) l a.1 back)
