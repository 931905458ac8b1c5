-- ===== src/Sidecar/Tests.antt =====
-- Runs on the metadata of a file of three pages, of which the first and the short last are present.
use xrd_ucache.Base.{◌≡◌, refl, arith, []}
use xrd_ucache.Bitmap
use xrd_ucache.Bitmap.Byte.{bit_of, with_bit}
use xrd_ucache.Bitmap.Counts.{reset-IsValid, set-IsValid}
use xrd_ucache.Sidecar.{MetaData, npages, npages_of, page_bytes, fresh, cached_bytes, IsSized}
use xrd_ucache.Sidecar.Fresh.{bytes_below, cached_bytes_lem}

abbrev three_pages : MetaData
three_pages = record (fresh 0 [] 10000 4096) {
  bitmap = Bitmap.set (Bitmap.set (Bitmap.reset 3) 0) 2;
}

three_pages-IsSized : IsSized three_pages
unfolding fresh npages npages_of Bitmap.reset Bitmap.set bit_of with_bit
three_pages-IsSized = record {
  valid =
      set-IsValid (Bitmap.set (Bitmap.reset 3) 0) 2
        (set-IsValid (Bitmap.reset 3) 0 (reset-IsValid 3 (omega arith)) (omega arith))
        (omega arith);
  bits = refl;
  crcs = refl;
}

-- A whole page and one of 1808 bytes.
two_present : cached_bytes three_pages ≡ 5904
unfolding cached_bytes fresh npages npages_of page_bytes Bitmap.reset Bitmap.set Bitmap.get bit_of
    with_bit
two_present = refl

cached_bytes_lem_example : cached_bytes three_pages ≡ bytes_below (npages three_pages) three_pages
cached_bytes_lem_example =
    cached_bytes_lem three_pages three_pages-IsSized (unfold fresh in omega arith)
