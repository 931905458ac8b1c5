-- ===== src/Bitmap/Tests.antt =====
-- Runs of the bitmap on three pages.
use xrd_ucache.Base.{◌≡◌, true, false, refl}
use xrd_ucache.Bitmap.{PageBitmap, reset, set, clear, get, range_set}
use xrd_ucache.Bitmap.Byte.{bit_of, with_bit, without_bit}

abbrev three : PageBitmap
three = reset 3

all_three : range_set (set (set (set three 0) 1) 2) 0 2 ≡ true
unfolding range_set set get reset bit_of with_bit
all_three = refl

one_missing : range_set (clear (set (set (set three 0) 1) 2) 1) 0 2 ≡ false
unfolding range_set set get reset clear bit_of with_bit without_bit
one_missing = refl
