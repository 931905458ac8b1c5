-- ===== src/Sidecar/Fresh.antt =====
-- src/core/MetaFile.cc: what `fresh` starts from, and `cachedBytes` against a sum over the pages.
use xrd_ucache.Base.{
  ℕ, zero, suc, ◌+◌, ◌-◌, ◌*◌, ◌/◌, ◌≤◌, ◌<◌, ◌≡◌, refl, ap, ◌∙◌, List, if◌then◌else◌, arith,
  word_limit, length-replicate, div_mul_bounds,
}
use xrd_ucache.Bitmap
use xrd_ucache.Bitmap.{PageBitmap, count_below}
use xrd_ucache.Bitmap.Counts.{reset-IsValid, count_below-le}
use xrd_ucache.Sidecar.{MetaData, npages, npages_of, page_bytes, cached_bytes, IsSized, fresh}

-- A new entry's metadata has a clear bitmap and a checksum for each page.
pub fresh-IsSized :
    (now : ℕ) (key : List ℕ) (file_size page_size : ℕ)
    → npages_of page_size file_size < word_limit
    → IsSized (fresh now key file_size page_size)
unfolding fresh npages
fresh-IsSized now key file_size page_size h = record {
  valid = reset-IsValid (npages_of page_size file_size) h;
  bits = unfold Bitmap.reset in refl;
  crcs = length-replicate (npages_of page_size file_size) 0;
}

-- The bytes of the present pages among the first n.
abbrev pub bytes_below : ℕ → MetaData → ℕ
bytes_below zero m = 0
bytes_below (suc n) m = (if Bitmap.get m.bitmap n then page_bytes m n else 0) + bytes_below n m

-- Every page but the last is a whole one.
bytes_below_whole :
    (n : ℕ) (m : MetaData)
    → n * m.page_size ≤ m.file_size
    → bytes_below n m ≡ count_below n m.bitmap * m.page_size
unfolding count_below page_bytes
bytes_below_whole zero m h = omega arith
bytes_below_whole (suc n) m h = ground (arith, bytes_below_whole n m (omega arith))

-- The pages of a file: every one but the last is inside it, and the last one reaches its end.
last_page :
    (k : ℕ) (m : MetaData)
    → 0 < m.page_size
    → npages m ≡ suc k
    → (k * m.page_size < m.file_size) × (m.file_size ≤ suc k * m.page_size)
unfolding npages npages_of
last_page k m pos e =
    let n : (m.file_size + m.page_size - 1) / m.page_size ≡ suc k = ground arith in
    let b : (suc k * m.page_size ≤ m.file_size + m.page_size - 1)
        × (m.file_size + m.page_size - 1 < suc k * m.page_size + m.page_size) =
      rw (← n) (div_mul_bounds (m.file_size + m.page_size - 1) m.page_size pos) in
    (omega (arith, b), omega (arith, b))

cached_bytes_at :
    (n : ℕ) (m : MetaData)
    → IsSized m
    → 0 < m.page_size
    → npages m ≡ n
    → cached_bytes m ≡ bytes_below n m
unfolding cached_bytes count_below
cached_bytes_at zero m v pos e = ground (arith, v.valid.counted, v.bits, count_below-le 0 m.bitmap)
cached_bytes_at (suc k) m v pos e =
    let b = last_page k m pos e in
    let c : m.bitmap.count ≡ count_below (suc k) m.bitmap =
      v.valid.counted ∙ ap (λ n. count_below n m.bitmap) (v.bits ∙ e) in
    rw (e, c) (ground (arith, b, bytes_below_whole k m (omega (arith, b))))

-- `cachedBytes`, from the running count and the last page alone, is the sum of the bytes of the
-- pages that are present.
pub cached_bytes_lem :
    (m : MetaData) → IsSized m → 0 < m.page_size → cached_bytes m ≡ bytes_below (npages m) m
cached_bytes_lem m v pos = cached_bytes_at (npages m) m v pos refl
