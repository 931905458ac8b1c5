-- ===== src/Entry/Commit/Merge.antt =====
-- src/core/FileEntry.cc: the merge of `flushMeta`, page by page.
use xrd_ucache.Base.{
  ℕ, zero, suc, ◌+◌, ◌≤◌, ◌<◌, ◌≡◌, refl, ◌∙◌, Bool, true, false, ◌&&◌, if◌then◌else◌, ltb, leb,
  ◌==◌, get_or, arith, inl, inr, Bool-cases, length-set, ==_iff,
}
use xrd_ucache.Bitmap
use xrd_ucache.Bitmap.{PageBitmap}
use xrd_ucache.Bitmap.Laws.{get-set, get-clear, get_or-write}
use xrd_ucache.Bitmap.Counts.{set-IsValid, clear-IsValid, npages-set, npages-clear}
use xrd_ucache.Sidecar.{MetaData, npages, IsSized}
use xrd_ucache.Entry.Commit.{Snapshot, merge_page, merge_pages, merged_image, with_complete}

-- What page j of the merged image says, from the image on disk and the snapshot.
abbrev pub merged_bit : Snapshot → MetaData → ℕ → Bool
merged_bit s disk j =
    if Bitmap.get s.clears j
    then false
    else if Bitmap.get s.sets j
    then true
    else Bitmap.get disk.bitmap j

abbrev pub merged_crc : Snapshot → MetaData → ℕ → ℕ
merged_crc s disk j =
    if Bitmap.get s.clears j
    then 0
    else if Bitmap.get s.sets j
    then get_or s.image.page_crcs j 0
    else get_or disk.page_crcs j 0

module _ (s : Snapshot) where
  npages-merge_page : (i : ℕ) (m : MetaData) → npages (merge_page s i m) ≡ npages m
  unfolding merge_page npages
  npages-merge_page i m = ground arith

  merge_page-IsSized :
      (i : ℕ) (m : MetaData) → IsSized m → i < npages m → IsSized (merge_page s i m)
  unfolding merge_page npages
  merge_page-IsSized i m v h =
      let inside : i < m.bitmap.npages = omega (arith, v.bits) in
      elim (Bool-cases (Bitmap.get s.clears i)) [
        | inl c ↦ rw c (record {
          valid = clear-IsValid m.bitmap i v.valid inside;
          bits = npages-clear m.bitmap i ∙ v.bits;
          crcs = length-set m.page_crcs i 0 ∙ v.crcs;
        })
        | inr k ↦ elim (Bool-cases (Bitmap.get s.sets i)) [
          | inl c ↦
              rw (k, c)
                (record {
                  valid = set-IsValid m.bitmap i v.valid inside;
                  bits = npages-set m.bitmap i ∙ v.bits;
                  crcs = length-set m.page_crcs i _ ∙ v.crcs;
                })
          | inr c ↦ rw (k, c) v
        ]
      ]

  -- One round changes page i as the merge says, and no other.
  get-merge_page :
      (i j : ℕ) (m : MetaData)
      → IsSized m
      → i < npages m
      → Bitmap.get (merge_page s i m).bitmap j
        ≡ (if i == j then merged_bit s m j else Bitmap.get m.bitmap j)
  unfolding merge_page
  get-merge_page i j m v h =
      let inside : i < m.bitmap.npages = omega (arith, v.bits) in
      elim (Bool-cases (i == j)) [
        | inl e ↦
            rw (e, ← (==_iff i j).0 e)
              (ground (arith, get-set m.bitmap i i v.valid, get-clear m.bitmap i i v.valid))
        | inr e ↦
            rw e (ground (arith, e, get-set m.bitmap i j v.valid, get-clear m.bitmap i j v.valid))
      ]

  crc-merge_page :
      (i j : ℕ) (m : MetaData)
      → IsSized m
      → i < npages m
      → get_or (merge_page s i m).page_crcs j 0
        ≡ (if i == j then merged_crc s m j else get_or m.page_crcs j 0)
  unfolding merge_page
  crc-merge_page i j m v h = elim (Bool-cases (i == j)) [
    | inl e ↦
        rw (e, ← (==_iff i j).0 e)
          (ground (
            arith,
            get_or-write m.page_crcs i i 0,
            get_or-write m.page_crcs i i (get_or s.image.page_crcs i 0),
            v.crcs,
          ))
    | inr e ↦ rw e (
        ground (
          arith,
          e,
          get_or-write m.page_crcs i j 0,
          get_or-write m.page_crcs i j (get_or s.image.page_crcs i 0),
          v.crcs,
        ))
  ]

  npages-merge_pages : (rounds i : ℕ) (m : MetaData) → npages (merge_pages s rounds i m) ≡ npages m
  unfolding merge_pages
  npages-merge_pages zero i m = refl
  npages-merge_pages (suc rounds) i m =
      npages-merge_pages rounds (i + 1) (merge_page s i m) ∙ npages-merge_page i m

  merge_pages-IsSized :
      (rounds i : ℕ) (m : MetaData)
      → IsSized m
      → i + rounds ≤ npages m
      → IsSized (merge_pages s rounds i m)
  unfolding merge_pages
  merge_pages-IsSized zero i m v h = v
  merge_pages-IsSized (suc rounds) i m v h =
      merge_pages-IsSized rounds (i + 1) (merge_page s i m) (merge_page-IsSized i m v (omega arith))
        (omega (arith, npages-merge_page i m))

  -- The loop changes the pages from i on, `rounds` of them, as the merge says.
  get-merge_pages :
      (rounds i j : ℕ) (m : MetaData)
      → IsSized m
      → i + rounds ≤ npages m
      → Bitmap.get (merge_pages s rounds i m).bitmap j
        ≡ (if leb i j && ltb j (i + rounds) then merged_bit s m j else Bitmap.get m.bitmap j)
  unfolding merge_pages
  get-merge_pages zero i j m v h = ground arith
  get-merge_pages (suc rounds) i j m v h = ground (
    arith,
    get-merge_pages rounds (i + 1) j (merge_page s i m) (merge_page-IsSized i m v (omega arith))
        (omega (arith, npages-merge_page i m)),
    get-merge_page i j m v (omega arith),
  )

  crc-merge_pages :
      (rounds i j : ℕ) (m : MetaData)
      → IsSized m
      → i + rounds ≤ npages m
      → get_or (merge_pages s rounds i m).page_crcs j 0
        ≡ (if leb i j && ltb j (i + rounds) then merged_crc s m j else get_or m.page_crcs j 0)
  unfolding merge_pages
  crc-merge_pages zero i j m v h = ground arith
  crc-merge_pages (suc rounds) i j m v h = ground (
    arith,
    crc-merge_pages rounds (i + 1) j (merge_page s i m) (merge_page-IsSized i m v (omega arith))
        (omega (arith, npages-merge_page i m)),
    crc-merge_page i j m v (omega arith),
  )

-- The commit keeps what the other processes stored: each page of the merged image is absent if this
-- handle cleared it, present with this handle's checksum if it set it, and else as on disk; and the
-- sizes agree.
pub merged_image-pages :
    (s : Snapshot) (disk : MetaData)
    → IsSized disk
    → (j : ℕ) → j < npages disk
    → IsSized (merged_image s disk)
      × (Bitmap.get (merged_image s disk).bitmap j ≡ merged_bit s disk j)
      × (get_or (merged_image s disk).page_crcs j 0 ≡ merged_crc s disk j)
unfolding merged_image with_complete npages
merged_image-pages s disk v j h = (
  record { valid = all.valid; bits = all.bits; crcs = all.crcs },
  ground (arith, get-merge_pages s (npages disk) 0 j disk v (omega arith)),
  ground (arith, crc-merge_pages s (npages disk) 0 j disk v (omega arith)),
)
  where
    all : IsSized (merge_pages s (npages disk) 0 disk)
    all = merge_pages-IsSized s (npages disk) 0 disk v (omega arith)
