-- ===== src/Entry.antt =====
-- src/core/FileEntry.h, src/core/FileEntry.cc: the state of a cache entry and the transitions that
-- its operations share. Pages of the fill buffer, the bitmap and the data file are kept as the
-- source keeps them; statistics, observation records and the trace are left out.
pub mod Stage
pub mod Flush
pub mod Commit
pub mod Intact
pub mod Read
pub mod Flight
pub mod Range
pub mod Release
use xrd_ucache.Base.{
  ℕ, zero, suc, ◌+◌, ◌-◌, ◌*◌, ◌/◌, ◌%◌, Bool, true, false, ◌&&◌, ◌||◌, not, List, [], ◌∷◌, Option,
  none, some, if◌then◌else◌, ltb, leb, ◌==◌, min, Content, add64, sub64, length, get_or, ◌≡◌,
}
use xrd_ucache.Base.{set as write}
use xrd_ucache.Base.PageMap.{PageMap, find, holds, emplace, assign, erase}
use xrd_ucache.Bitmap
use xrd_ucache.Bitmap.{PageBitmap}
use xrd_ucache.Sidecar.{MetaData, npages, page_bytes, IsSized}

-- `FileEntry::BufPage`: a staged page, its checksum and its two speculative marks.
pub record BufPage : Type 0 where
  pub bytes : List ℕ
  pub crc : ℕ
  pub spec : Bool
  pub touched : Bool

pub data FsyncMode : Type 0 where
  sync_off sync_data sync_all : FsyncMode

pub data ValidateMode : Type 0 where
  no_check by_size by_size_mtime by_cksum : ValidateMode

-- The settings that an entry reads.
pub record Config : Type 0 where
  pub fill_buffer_mb : ℕ
  pub fill_buffer_total_mb : ℕ
  pub meta_flush_seconds : ℕ
  pub fsync : FsyncMode
  pub validate : ValidateMode

-- The process-wide pools: `g_bufTotal_`, `g_specTotal_`, `g_specDropped_`.
pub record Pools : Type 0 where
  pub buf_total : ℕ
  pub spec_total : ℕ
  pub spec_dropped : ℕ

-- The members under the entry's mutex, the pools, the data file's bytes and the sidecar as
-- `MetaFile::load` would give it (none when absent, torn or corrupt).
pub record Entry : Type 0 where
  pub meta : MetaData
  pub dirty : Bool
  pub last_flush : ℕ
  pub set_since : PageBitmap
  pub cleared_since : PageBitmap
  pub pin_touched : Bool
  pub buf : PageMap BufPage
  pub flushing : PageMap BufPage
  pub buf_bytes : ℕ
  pub spec_bytes : ℕ
  pub last_buf_flush : ℕ
  pub flush_in_progress : Bool
  pub pools : Pools
  pub data_file : Content
  pub sidecar : Option MetaData

-- The three bitmaps are valid, with a bit for each page.
pub record IsConsistent (e : Entry) : Type 0 where
  pub sized : IsSized e.meta
  pub set_valid : Bitmap.IsValid e.set_since
  pub set_bits : e.set_since.npages ≡ npages e.meta
  pub cleared_valid : Bitmap.IsValid e.cleared_since
  pub cleared_bits : e.cleared_since.npages ≡ npages e.meta

-- `publishPage`: the bit, its checksum, and the change the next commit carries.
pub publish_page : Entry → ℕ → ℕ → Entry
publish_page e page crc = record e {
  meta = record meta {
    bitmap = Bitmap.set meta.bitmap page;
    page_crcs = write meta.page_crcs page crc;
  };
  set_since = Bitmap.set e.set_since page;
  cleared_since = Bitmap.clear e.cleared_since page;
}
  where
    open e use {meta}

-- `retractPage`.
pub retract_page : Entry → ℕ → Entry
retract_page e page = record e {
  meta = record meta {
    bitmap = Bitmap.clear meta.bitmap page;
    page_crcs = write meta.page_crcs page 0;
  };
  cleared_since = Bitmap.set e.cleared_since page;
  set_since = Bitmap.clear e.set_since page;
}
  where
    open e use {meta}

-- `pageHere`: present, staged, or being written.
pub page_here : Entry → ℕ → Bool
page_here e i = Bitmap.get e.meta.bitmap i || holds i e.buf || holds i e.flushing

-- The loop of `hasRange` with `rounds` pages left.
pub all_here : ℕ → ℕ → Entry → Bool
unfolding page_here
all_here zero i e = true
all_here (suc rounds) i e = page_here e i && all_here rounds (i + 1) e

pub is_empty {ℓ} : {A : Type ℓ} → List A → Bool
is_empty [] = true
is_empty (x ∷ xs) = false

-- `hasRange`. The first test refuses a request that wraps or leaves the file; with nothing staged
-- the bitmap alone answers.
pub has_range : Entry → ℕ → ℕ → Bool
unfolding all_here is_empty
has_range e off len =
    let first = off / e.meta.page_size in
    let last = (off + len - 1) / e.meta.page_size in
    if len == 0 || ltb (add64 off len) off || ltb e.meta.file_size (add64 off len)
    then false
    else if is_empty e.buf && is_empty e.flushing
    then Bitmap.range_set e.meta.bitmap first last
    else all_here (last + 1 - first) first e

-- `touchAtime`: at most one update a minute.
unfoldable pub touch_atime : ℕ → Entry → Entry
touch_atime now e =
    if leb (add64 e.meta.atime 60) now
    then record e { meta = record meta { atime = now }; dirty = true }
    else e
  where
    open e use {meta}
