-- ===== src/Bitmap.antt =====
-- src/core/PageBitmap.h: presence bits, one for a page, with a running count. An index past the
-- vector reads as an absent bit here and writes nothing; the source indexes the vector unchecked.
pub mod Byte
pub mod Laws
pub mod Counts
mod Tests
use xrd_ucache.Base.{
  ℕ, zero, suc, ◌+◌, ◌-◌, ◌/◌, ◌%◌, Bool, true, false, ◌&&◌, List, if◌then◌else◌, get_or, replicate,
  add64, sub64,
}
use xrd_ucache.Base
use xrd_ucache.Base.{set as write, word_limit, ◌≡◌, ◌<◌}
use Byte.{bit_of, with_bit, without_bit}

-- The vector of bytes, the number of pages and the running number of set bits.
pub record PageBitmap : Type 0 where
  pub bits : List ℕ
  pub npages : ℕ
  pub count : ℕ

-- `reset`: all bits clear.
unfoldable pub reset : ℕ → PageBitmap
reset npages = record { bits = replicate ((npages + 7) / 8) 0; npages = npages; count = 0 }

-- `i >> 3` is the byte, `i & 7` the bit in it.
unfoldable pub get : PageBitmap → ℕ → Bool
get m i = bit_of (get_or m.bits (i / 8) 0) (i % 8)

unfoldable pub set : PageBitmap → ℕ → PageBitmap
unfolding get
set m i = if get m i then m else record m {
  bits = write m.bits (i / 8) (with_bit (get_or m.bits (i / 8) 0) (i % 8));
  count = add64 m.count 1;
}

pub clear : PageBitmap → ℕ → PageBitmap
unfolding get
clear m i =
    if get m i
    then record m {
      bits = write m.bits (i / 8) (without_bit (get_or m.bits (i / 8) 0) (i % 8));
      count = sub64 m.count 1;
    }
    else m

zeros : List ℕ → List ℕ
zeros l = replicate (Base.length l) 0

-- `clearAll`.
pub clear_all : PageBitmap → PageBitmap
unfolding zeros
clear_all m = record m { bits = zeros m.bits; count = 0 }

-- The loop of `rangeSet` at page `i`, with `rounds` pages left.
pub range_set_from : ℕ → ℕ → PageBitmap → Bool
range_set_from zero i m = true
range_set_from (suc rounds) i m = get m i && range_set_from rounds (i + 1) m

-- `rangeSet`: all pages of [first, last] present.
pub range_set : PageBitmap → ℕ → ℕ → Bool
unfolding range_set_from
range_set m first last = range_set_from (last + 1 - first) first m

-- The loop of `recount`: the set bits among the first `n` pages.
unfoldable pub count_below : ℕ → PageBitmap → ℕ
count_below zero m = 0
count_below (suc n) m = (if get m n then 1 else 0) + count_below n m

-- `recount`, after the bytes were loaded from outside.
unfoldable pub recount : PageBitmap → PageBitmap
unfolding count_below
recount m = record m { count = count_below m.npages m }

-- What the members keep true: as many bytes as the pages need, each a byte, and the running count
-- exact.
pub record IsValid (m : PageBitmap) : Type 0 where
  pub sized : Base.length m.bits ≡ (m.npages + 7) / 8
  pub bytes : (k : ℕ) → get_or m.bits k 0 < 256
  pub counted : m.count ≡ count_below m.npages m
  pub fits : m.npages < word_limit
