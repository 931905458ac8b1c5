-- ===== src/Bitmap/Counts.antt =====
-- src/core/PageBitmap.h: the running count is exact, and `rangeSet` tests every page of a range.
use xrd_ucache.Base.{
  ℕ, zero, suc, ◌+◌, ◌-◌, ◌/◌, ◌%◌, ◌≤◌, ◌<◌, ◌≡◌, ◌↔◌, refl, sym, ◌∙◌, true, false, ◌&&◌, not,
  arith, if◌then◌else◌, length, get_or, length-set, length-replicate, ltb, add64, sub64, word_limit,
}
use mathlib.Core.Path.{subst}
use xrd_ucache.Bitmap.Byte.{with_bit, without_bit, bit_of-with_bit, bit_of-without_bit}
use xrd_ucache.Bitmap.Laws.{
  get-set, get-clear, get-reset, get-clear_all, get_or-write, get_or-replicate, in_vector,
}
use xrd_ucache.Bitmap.{
  PageBitmap, IsValid, reset, get, set, clear, clear_all, count_below, recount, range_set,
  range_set_from,
}

-- Setting page i adds one to the count below n, if i lies below n and was absent.
count_below-set :
    (n : ℕ) (m : PageBitmap) (i : ℕ)
    → IsValid m
    → i < m.npages
    → count_below n (set m i) ≡ count_below n m + (if ltb i n && not (get m i) then 1 else 0)
unfolding count_below
count_below-set zero m i v h = ground arith
count_below-set (suc n) m i v h = ground (arith, get-set m i n v h, count_below-set n m i v h)

-- Clearing page i takes one from the count below n, if i lies below n and was present.
count_below-clear :
    (n : ℕ) (m : PageBitmap) (i : ℕ)
    → IsValid m
    → i < m.npages
    → count_below n (clear m i) + (if ltb i n && get m i then 1 else 0) ≡ count_below n m
unfolding count_below
count_below-clear zero m i v h = ground arith
count_below-clear (suc n) m i v h = ground (arith, get-clear m i n v h, count_below-clear n m i v h)

pub count_below-le : (n : ℕ) (m : PageBitmap) → count_below n m ≤ n
unfolding count_below
count_below-le zero m = omega arith
count_below-le (suc n) m = ground (arith, count_below-le n m)

count_below-eq_zero : (n : ℕ) (m : PageBitmap) → ((i : ℕ) → get m i ≡ false) → count_below n m ≡ 0
unfolding count_below
count_below-eq_zero zero m h = refl
count_below-eq_zero (suc n) m h = ground (arith, h n, count_below-eq_zero n m h)

-- All the first n pages are present exactly when n of them are counted.
pub count_below_full :
    (n : ℕ) (m : PageBitmap) → count_below n m ≡ n → (i : ℕ) → i < n → get m i ≡ true
unfolding count_below
count_below_full zero m h i lt = absurd (omega arith)
count_below_full (suc n) m h i lt =
    ground (arith, count_below-le n m, λ (e : count_below n m ≡ n). count_below_full n m e i)

length-set_page : (m : PageBitmap) (i : ℕ) → length (set m i).bits ≡ length m.bits
unfolding set
length-set_page m i =
    ground (arith, length-set m.bits (i / 8) (with_bit (get_or m.bits (i / 8) 0) (i % 8)))

length-clear : (m : PageBitmap) (i : ℕ) → length (clear m i).bits ≡ length m.bits
unfolding clear
length-clear m i =
    ground (arith, length-set m.bits (i / 8) (without_bit (get_or m.bits (i / 8) 0) (i % 8)))

bytes-set : (m : PageBitmap) (i k : ℕ) → IsValid m → i < m.npages → get_or (set m i).bits k 0 < 256
unfolding set
bytes-set m i k v h = ground (
  arith,
  v.bytes k,
  get_or-write m.bits (i / 8) k (with_bit (get_or m.bits (i / 8) 0) (i % 8)) (in_vector m i v h),
  bit_of-with_bit (get_or m.bits (i / 8) 0) (i % 8) 0 (v.bytes (i / 8)),
)

bytes-clear :
    (m : PageBitmap) (i k : ℕ) → IsValid m → i < m.npages → get_or (clear m i).bits k 0 < 256
unfolding clear
bytes-clear m i k v h = ground (
  arith,
  v.bytes k,
  get_or-write m.bits (i / 8) k (without_bit (get_or m.bits (i / 8) 0) (i % 8)) (in_vector m i v h),
  bit_of-without_bit (get_or m.bits (i / 8) 0) (i % 8) 0 (v.bytes (i / 8)),
)

pub npages-set : (m : PageBitmap) (i : ℕ) → (set m i).npages ≡ m.npages
unfolding set
npages-set m i = ground arith

pub npages-clear : (m : PageBitmap) (i : ℕ) → (clear m i).npages ≡ m.npages
unfolding clear
npages-clear m i = ground arith

-- The running count after `set`.
count-set :
    (m : PageBitmap) (i : ℕ) → (set m i).count ≡ (if get m i then m.count else add64 m.count 1)
unfolding set
count-set m i = ground arith

count-clear :
    (m : PageBitmap) (i : ℕ) → (clear m i).count ≡ (if get m i then sub64 m.count 1 else m.count)
unfolding clear
count-clear m i = ground arith

counted_at :
    (m : PageBitmap) (n : ℕ)
    → m.npages ≡ n
    → m.count ≡ count_below n m
    → m.count ≡ count_below m.npages m
counted_at m n e h = subst (λ k. m.count ≡ count_below k m) (sym e) h

-- `set` keeps the vector's size, the bytes and the exact count.
pub set-IsValid : (m : PageBitmap) (i : ℕ) → IsValid m → i < m.npages → IsValid (set m i)
set-IsValid m i v h = record {
  sized = ground (arith, length-set_page m i, npages-set m i, v.sized);
  bytes = λ k. bytes-set m i k v h;
  counted = counted_at (set m i) m.npages (npages-set m i) (
      ground (
        arith,
        count-set m i,
        count_below-set m.npages m i v h,
        count_below-le m.npages (set m i),
        v.counted,
        v.fits,
      ));
  fits = rw (npages-set m i) v.fits;
}

-- `clear` keeps the vector's size, the bytes and the exact count.
pub clear-IsValid : (m : PageBitmap) (i : ℕ) → IsValid m → i < m.npages → IsValid (clear m i)
clear-IsValid m i v h = record {
  sized = ground (arith, length-clear m i, npages-clear m i, v.sized);
  bytes = λ k. bytes-clear m i k v h;
  counted = counted_at (clear m i) m.npages (npages-clear m i) (
      ground (
        arith,
        count-clear m i,
        count_below-clear m.npages m i v h,
        count_below-le m.npages m,
        v.counted,
        v.fits,
      ));
  fits = rw (npages-clear m i) v.fits;
}

pub reset-IsValid : (n : ℕ) → n < word_limit → IsValid (reset n)
unfolding reset
reset-IsValid n h = record {
  sized = length-replicate ((n + 7) / 8) 0;
  bytes = λ k. rw (get_or-replicate ((n + 7) / 8) k) (omega arith);
  counted = sym (count_below-eq_zero n (reset n) (get-reset n));
  fits = h;
}

pub clear_all-IsValid : (m : PageBitmap) → IsValid m → IsValid (clear_all m)
unfolding clear_all
clear_all-IsValid m v = record {
  sized = length-replicate (length m.bits) 0 ∙ v.sized;
  bytes = λ k. rw (get_or-replicate (length m.bits) k) (omega arith);
  counted = sym (count_below-eq_zero m.npages (clear_all m) (get-clear_all m));
  fits = v.fits;
}

count_below-recount :
    (n : ℕ) (m : PageBitmap) (k : ℕ) → count_below n (record m { count = k }) ≡ count_below n m
unfolding count_below get
count_below-recount zero m k = refl
count_below-recount (suc n) m k = ground (arith, count_below-recount n m k)

-- Bytes of the right number that were loaded from outside, counted again, make a valid bitmap.
pub recount-IsValid :
    (m : PageBitmap)
    → length m.bits ≡ (m.npages + 7) / 8
    → ((k : ℕ) → get_or m.bits k 0 < 256)
    → m.npages < word_limit
    → IsValid (recount m)
unfolding recount
recount-IsValid m s b f = record {
  sized = s;
  bytes = b;
  counted = sym (count_below-recount m.npages m (count_below m.npages m));
  fits = f;
}

-- The count equals the number of pages exactly when every page is present.
pub count_full :
    (m : PageBitmap) → IsValid m → m.count ≡ m.npages → (i : ℕ) → i < m.npages → get m i ≡ true
count_full m v h = count_below_full m.npages m (sym v.counted ∙ h)

range_set_from_sound :
    (rounds i : ℕ) (m : PageBitmap) (j : ℕ)
    → range_set_from rounds i m ≡ true
    → i ≤ j
    → j < i + rounds
    → get m j ≡ true
unfolding range_set_from
range_set_from_sound zero i m j h p q = absurd (omega arith)
range_set_from_sound (suc rounds) i m j h p q = ground (
  arith,
  λ (r : range_set_from rounds (i + 1) m ≡ true) (a : i + 1 ≤ j).
      range_set_from_sound rounds (i + 1) m j r a (omega arith),
)

range_set_from_complete :
    (rounds i : ℕ) (m : PageBitmap)
    → ((j : ℕ) → i ≤ j → j < i + rounds → get m j ≡ true)
    → range_set_from rounds i m ≡ true
unfolding range_set_from
range_set_from_complete zero i m h = refl
range_set_from_complete (suc rounds) i m h = ground (
  arith,
  h i (omega arith) (omega arith),
  range_set_from_complete rounds (i + 1) m (λ j p q. h j (omega arith) (omega arith)),
)

-- `rangeSet` answers true exactly when every page from the first to the last is present.
pub range_set_iff :
    (m : PageBitmap) (first last : ℕ)
    → (range_set m first last ≡ true) ↔ ((j : ℕ) → first ≤ j → j ≤ last → get m j ≡ true)
unfolding range_set
range_set_iff m first last = (
  λ h j p q. range_set_from_sound (last + 1 - first) first m j h p (omega arith),
  λ h. range_set_from_complete (last + 1 - first) first m (λ j p q. h j p (omega arith)),
)

pub npages-clear_all : (m : PageBitmap) → (clear_all m).npages ≡ m.npages
unfolding clear_all
npages-clear_all m = refl
