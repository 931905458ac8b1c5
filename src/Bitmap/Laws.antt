-- ===== src/Bitmap/Laws.antt =====
-- src/core/PageBitmap.h: what a member changes, read through `get`.
use xrd_ucache.Base.{
  ℕ, zero, suc, ◌+◌, ◌/◌, ◌%◌, ◌<◌, ◌≡◌, ◌≢◌, refl, ap, inl, inr, true, false, List, [], ◌∷◌, arith,
  if◌then◌else◌, ◌==◌, ==_iff, length, get_or, replicate, Bool-cases,
}
use xrd_ucache.Base.{set as write}
use xrd_ucache.Bitmap.Byte.{with_bit, without_bit, bit_of-with_bit, bit_of-without_bit, bit_of-zero}
use xrd_ucache.Bitmap.{PageBitmap, IsValid, reset, get, set, clear, clear_all}

get_or-write_self : (l : List ℕ) (k v : ℕ) → k < length l → get_or (write l k v) k 0 ≡ v
get_or-write_self [] k v h = absurd (omega arith)
get_or-write_self (x ∷ l) zero v h = refl
get_or-write_self (x ∷ l) (suc k) v h = get_or-write_self l k v (omega arith)

get_or-write_ne : (l : List ℕ) (k j v : ℕ) → k ≢ j → get_or (write l k v) j 0 ≡ get_or l j 0
get_or-write_ne [] k j v h = refl
get_or-write_ne (x ∷ l) zero zero v h = absurd (h refl)
get_or-write_ne (x ∷ l) zero (suc j) v h = refl
get_or-write_ne (x ∷ l) (suc k) zero v h = refl
get_or-write_ne (x ∷ l) (suc k) (suc j) v h = get_or-write_ne l k j v (λ e. h (ap suc e))

pub get_or-replicate : (n k : ℕ) → get_or (replicate {A = ℕ} n 0) k 0 ≡ 0
get_or-replicate zero k = refl
get_or-replicate (suc n) zero = refl
get_or-replicate (suc n) (suc k) = get_or-replicate n k

pub get_or-write :
    (l : List ℕ) (k j v : ℕ)
    → k < length l
    → get_or (write l k v) j 0 ≡ (if k == j then v else get_or l j 0)
get_or-write l k j v h = elim (Bool-cases (k == j)) [
  | inl e ↦ rw (e, ← (==_iff k j).0 e) (get_or-write_self l k v h)
  | inr e ↦ rw e (get_or-write_ne l k j v (λ p. ground arith))
]

pub in_vector : (m : PageBitmap) (i : ℕ) → IsValid m → i < m.npages → i / 8 < length m.bits
in_vector m i v h = omega (arith, v.sized)

-- Setting a page sets it and no other.
pub get-set :
    (m : PageBitmap) (i j : ℕ)
    → IsValid m
    → i < m.npages
    → get (set m i) j ≡ (if i == j then true else get m j)
unfolding get set
get-set m i j v h = ground (
  arith,
  get_or-write m.bits (i / 8) (j / 8) (with_bit (get_or m.bits (i / 8) 0) (i % 8))
      (in_vector m i v h),
  bit_of-with_bit (get_or m.bits (i / 8) 0) (i % 8) (j % 8) (v.bytes (i / 8)),
)

-- Clearing a page clears it and no other.
pub get-clear :
    (m : PageBitmap) (i j : ℕ)
    → IsValid m
    → i < m.npages
    → get (clear m i) j ≡ (if i == j then false else get m j)
unfolding get clear
get-clear m i j v h = ground (
  arith,
  get_or-write m.bits (i / 8) (j / 8) (without_bit (get_or m.bits (i / 8) 0) (i % 8))
      (in_vector m i v h),
  bit_of-without_bit (get_or m.bits (i / 8) 0) (i % 8) (j % 8) (v.bytes (i / 8)),
)

-- After `reset` no page is set.
pub get-reset : (n i : ℕ) → get (reset n) i ≡ false
unfolding get reset
get-reset n i = rw (get_or-replicate ((n + 7) / 8) (i / 8)) (bit_of-zero (i % 8))

-- After `clear_all` no page is set.
pub get-clear_all : (m : PageBitmap) (i : ℕ) → get (clear_all m) i ≡ false
unfolding get clear_all
get-clear_all m i = rw (get_or-replicate (length m.bits) (i / 8)) (bit_of-zero (i % 8))
