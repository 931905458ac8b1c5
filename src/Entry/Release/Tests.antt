-- ===== src/Entry/Release/Tests.antt =====
-- A release of the first of two pages, which is a prediction in the buffer.
use xrd_ucache.Base.{ℕ, ◌≡◌, refl, Bool, true, false, List, [], ◌∷◌, ◌&&◌, not, ◌∙◌, arith, All}
use xrd_ucache.Bitmap
use xrd_ucache.Bitmap.Byte.{bit_of, with_bit}
use xrd_ucache.Sidecar.{fresh}
use xrd_ucache.Entry.{Entry}
use xrd_ucache.Entry.Intact.{IsIntact}
use xrd_ucache.Entry.Read.Tests.{origin, sum_of, half_entry, half_entry-IsIntact}
use xrd_ucache.Entry.Release.{release_begin, release_end}
use xrd_ucache.Entry.Release.Whole.{released, IsWords}
use xrd_ucache.Entry.Release.Pages.{Frees}
use xrd_ucache.Entry.Release.Intact.{release_begin-Frees}
use xrd_ucache.Entry.Release.Punch.{release_end-IsIntact}

-- The second range has no page whole, the third wraps.
abbrev three_ranges : List (ℕ × ℕ)
three_ranges = (0, 5) ∷ (4, 1) ∷ (2, 18446744073709551615) ∷ []

words : All IsWords three_ranges
words = ((omega arith, omega arith), ((omega arith, omega arith), ((omega arith, omega arith), tt)))

abbrev released_entry : Entry
released_entry = (release_begin three_ranges half_entry).0

one_span :
    (release_begin three_ranges half_entry).1 ≡ record { off = 0; len = 4; resident = 0 } ∷ []
unfolding release_begin fresh Bitmap.get bit_of Bitmap.set Bitmap.reset with_bit
one_span = refl

release_begin-Frees_example :
    Frees sum_of origin
      (released half_entry three_ranges)
      half_entry
      (release_begin three_ranges half_entry).0
release_begin-Frees_example =
    release_begin-Frees sum_of origin three_ranges half_entry half_entry-IsIntact words

after : Frees sum_of origin (released half_entry three_ranges) half_entry released_entry
after = release_begin-Frees sum_of origin three_ranges half_entry half_entry-IsIntact words

gone_there :
    (j : ℕ)
    → released half_entry three_ranges j ≡ true
    → Bitmap.get released_entry.meta.bitmap j ≡ false
gone_there j in_some =
    let left = after.bits j in left ∙ no_bit (Bitmap.get half_entry.meta.bitmap j) _ in_some
  where
    no_bit : (b c : Bool) → c ≡ true → (b && not c) ≡ false
    no_bit b c h = ground (arith, h)

release_end-IsIntact_example :
    IsIntact sum_of origin
      (release_end (λ k. true) 0 (release_begin three_ranges half_entry).1 released_entry).0
release_end-IsIntact_example =
    release_end-IsIntact sum_of origin three_ranges (λ k. true) half_entry released_entry
      half_entry-IsIntact (after.intact) words (after.same) gone_there
