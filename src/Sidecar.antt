-- ===== src/Sidecar.antt =====
-- src/core/MetaFile.h, src/core/MetaFile.cc: the metadata of a cache entry. The flag word is kept as
-- its two flags and the bits that nothing reads. Text is a list of bytes.
pub mod Fresh
pub mod Codec
mod Tests
use xrd_ucache.Base.{
  ℕ, zero, suc, ◌+◌, ◌-◌, ◌*◌, ◌/◌, ◌%◌, ◌^◌, Bool, true, false, List, if◌then◌else◌, ◌==◌, min,
  replicate, ◌≡◌, length,
}
use xrd_ucache.Bitmap
use xrd_ucache.Bitmap.{PageBitmap}

-- `MetaData`; `pinned` and `complete` are kFlagPinned and kFlagComplete of `flags`.
pub record MetaData : Type 0 where
  pub page_size : ℕ
  pub pinned : Bool
  pub complete : Bool
  pub other_flags : ℕ
  pub file_size : ℕ
  pub atime : ℕ
  pub origin_mtime : ℕ
  pub cksum_kind : ℕ
  pub origin_cksum : ℕ
  pub key : List ℕ
  pub bitmap : PageBitmap
  pub page_crcs : List ℕ

-- `npages`, for a page size and a file size.
unfoldable pub npages_of : ℕ → ℕ → ℕ
npages_of page_size file_size =
    if page_size == 0 then 0 else (file_size + page_size - 1) / page_size

unfoldable pub npages : MetaData → ℕ
unfolding npages_of
npages m = npages_of m.page_size m.file_size

-- The bitmap is valid and there is a bit and a checksum for each page.
pub record IsSized (m : MetaData) : Type 0 where
  pub valid : Bitmap.IsValid m.bitmap
  pub bits : m.bitmap.npages ≡ npages m
  pub crcs : length m.page_crcs ≡ npages m

-- `pageBytes`: what page i covers, the file's last page being short.
unfoldable pub page_bytes : MetaData → ℕ → ℕ
page_bytes m i = min (i * m.page_size + m.page_size) m.file_size - i * m.page_size

-- `cachedBytes`.
unfoldable pub cached_bytes : MetaData → ℕ
unfolding npages page_bytes
cached_bytes m =
    let n = m.bitmap.count in
    let last = npages m - 1 in
    let whole = n * m.page_size in
    if n == 0
    then 0
    else if Bitmap.get m.bitmap last
    then whole - (m.page_size - page_bytes m last)
    else whole

-- `fresh`, at a time.
unfoldable pub fresh : ℕ → List ℕ → ℕ → ℕ → MetaData
unfolding npages_of
fresh now key file_size page_size = record {
  page_size = page_size;
  pinned = false;
  complete = false;
  other_flags = 0;
  file_size = file_size;
  atime = now;
  origin_mtime = 0;
  cksum_kind = 0;
  origin_cksum = 0;
  key = key;
  bitmap = Bitmap.reset (npages_of page_size file_size);
  page_crcs = replicate (npages_of page_size file_size) 0;
}
