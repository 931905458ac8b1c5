-- ===== src/Entry/Intact.antt =====
-- src/core/FileEntry.h, src/core/FileEntry.cc: what an entry keeps true of its pages, for the origin's
-- bytes and the checksum function: every staged page has the origin's bytes, and every page that is
-- marked present has them in the data file, with their checksum. The file ends a page below 2 ^ 64, so
-- that the sums which round an offset up to a page do not wrap.
pub mod Stage
pub mod Drop
pub mod Runs
pub mod Writes
pub mod Flush
pub mod Publish
pub mod Demote
pub mod Steps
mod Tests
use xrd_ucache.Base.{
  ℕ, zero, suc, ◌+◌, ◌-◌, ◌*◌, ◌/◌, ◌%◌, ◌≤◌, ◌<◌, ◌≡◌, Bool, true, false, List, Content, slice,
  get_or, arith, div_mul_bounds, lt_of_mul, mul_mono, ◌==◌, if◌then◌else◌, min, ◌^◌,
}
use xrd_ucache.Base.PageMap.{PageMap, Each, SortedFrom}
use xrd_ucache.Bitmap
use xrd_ucache.Sidecar.{MetaData, npages, npages_of, page_bytes}
use xrd_ucache.Entry.{Entry, BufPage, IsConsistent}

module _ (crc : List ℕ → ℕ) (origin : Content) where
  -- The origin's bytes of page i.
  abbrev pub origin_page : MetaData → ℕ → List ℕ
  origin_page m i = slice origin (i * m.page_size) (page_bytes m i)

  pub record IsGood (m : MetaData) (i : ℕ) (p : BufPage) : Type 0 where
    pub inside : i < npages m
    pub bytes : p.bytes ≡ origin_page m i
    pub sum : p.crc ≡ crc (origin_page m i)

  -- A page that a flush writes is not a prediction.
  pub record IsReal (m : MetaData) (i : ℕ) (p : BufPage) : Type 0 where
    pub good : IsGood m i p
    pub demanded : p.spec ≡ false

  -- A file has the origin's bytes of page i.
  abbrev pub HasPage : MetaData → Content → ℕ → Type 0
  HasPage m file i =
      (x : ℕ) → i * m.page_size ≤ x → x < i * m.page_size + page_bytes m i → file x ≡ origin x

  -- A page that a sidecar may mark present: its checksum, and its bytes in the file.
  pub record IsStored (m : MetaData) (file : Content) (i c : ℕ) : Type 0 where
    pub inside : i < npages m
    pub sum : c ≡ crc (origin_page m i)
    pub bytes : HasPage m file i

  pub record IsIntact (e : Entry) : Type 0 where
    pub consistent : IsConsistent e
    pub page : 0 < e.meta.page_size
    pub fits : e.meta.file_size + e.meta.page_size ≤ 2 ^ 64
    pub staged : Each (IsGood e.meta) e.buf
    pub staged_sorted : SortedFrom 0 e.buf
    pub writing : Each (IsReal e.meta) e.flushing
    pub present :
        (i : ℕ)
        → i < npages e.meta
        → Bitmap.get e.meta.bitmap i ≡ true
        → IsStored e.meta e.data_file i (get_or e.meta.page_crcs i 0)

-- Two metadata with pages in the same places.
pub record SameShape (m m' : MetaData) : Type 0 where
  pub page : m'.page_size ≡ m.page_size
  pub size : m'.file_size ≡ m.file_size

module _ (crc : List ℕ → ℕ) (origin : Content) (m m' : MetaData) (same : SameShape m m') where
  pub IsGood-shape : (i : ℕ) (p : BufPage) → IsGood crc origin m i p → IsGood crc origin m' i p
  unfolding npages page_bytes
  IsGood-shape i p g = record {
    inside = rw (same.page, same.size) (g.inside);
    bytes = rw (same.page, same.size) (g.bytes);
    sum = rw (same.page, same.size) (g.sum);
  }

  pub IsReal-shape : (i : ℕ) (p : BufPage) → IsReal crc origin m i p → IsReal crc origin m' i p
  IsReal-shape i p g = record { good = IsGood-shape i p g.good; demanded = g.demanded }

  pub IsStored-shape :
      (file : Content) (i c : ℕ) → IsStored crc origin m file i c → IsStored crc origin m' file i c
  unfolding npages page_bytes
  IsStored-shape file i c s = record {
    inside = rw (same.page, same.size) (s.inside);
    sum = rw (same.page, same.size) (s.sum);
    bytes = rw (same.page, same.size) (s.bytes);
  }

-- A page that starts before the end of the file is one of its pages.
pub page_of_file :
    (m : MetaData) (i : ℕ) → 0 < m.page_size → i * m.page_size < m.file_size → i < npages m
unfolding npages npages_of
page_of_file m i pos h =
    let b = div_mul_bounds (m.file_size + m.page_size - 1) m.page_size pos in
    let l : i < (m.file_size + m.page_size - 1) / m.page_size =
      lt_of_mul i ((m.file_size + m.page_size - 1) / m.page_size) m.page_size (omega (arith, b)) in
    ground arith

-- A page of the file starts before its end.
pub page_starts :
    (m : MetaData) (i : ℕ) → 0 < m.page_size → i < npages m → i * m.page_size < m.file_size
unfolding npages npages_of
page_starts m i pos h =
    let b = div_mul_bounds (m.file_size + m.page_size - 1) m.page_size pos in
    let l : i < (m.file_size + m.page_size - 1) / m.page_size = ground arith in
    omega (arith, b, mul_mono (suc i) ((m.file_size + m.page_size - 1) / m.page_size) m.page_size l)
