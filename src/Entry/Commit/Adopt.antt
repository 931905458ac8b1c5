-- ===== src/Entry/Commit/Adopt.antt =====
-- src/core/FileEntry.cc: what `flushMeta` takes over from the image it committed.
use xrd_ucache.Base.{
  ℕ, zero, suc, ◌+◌, ◌≤◌, ◌<◌, ◌≡◌, refl, ◌∙◌, Bool, ◌&&◌, ◌||◌, if◌then◌else◌, ltb, leb, ◌==◌,
  get_or, arith, inl, inr, Bool-cases, length-set, ==_iff,
}
use xrd_ucache.Bitmap
use xrd_ucache.Bitmap.{PageBitmap}
use xrd_ucache.Bitmap.Laws.{get-set, get-clear, get_or-write}
use xrd_ucache.Bitmap.Counts.{set-IsValid, clear-IsValid, npages-set, npages-clear}
use xrd_ucache.Sidecar.{MetaData, npages, IsSized}
use xrd_ucache.Entry.{Entry}
use xrd_ucache.Entry.Commit.{adopt_page, adopt_pages, adopt_image, with_complete}

-- Has this handle changed page j since the snapshot?
abbrev pub is_pending : Entry → ℕ → Bool
is_pending e j = Bitmap.get e.set_since j || Bitmap.get e.cleared_since j

abbrev pub adopted_bit : MetaData → Entry → ℕ → Bool
adopted_bit out e j = if is_pending e j then Bitmap.get e.meta.bitmap j else Bitmap.get out.bitmap j

abbrev pub adopted_crc : MetaData → Entry → ℕ → ℕ
adopted_crc out e j =
    if is_pending e j
    then get_or e.meta.page_crcs j 0
    else if Bitmap.get out.bitmap j
    then get_or out.page_crcs j 0
    else 0

module _ (out : MetaData) where
  npages-adopt_page : (i : ℕ) (e : Entry) → npages (adopt_page out i e).meta ≡ npages e.meta
  unfolding adopt_page npages
  npages-adopt_page i e = ground arith

  pending-adopt_page : (i j : ℕ) (e : Entry) → is_pending (adopt_page out i e) j ≡ is_pending e j
  unfolding adopt_page
  pending-adopt_page i j e = ground arith

  adopt_page-IsSized :
      (i : ℕ) (e : Entry) → IsSized e.meta → i < npages e.meta → IsSized (adopt_page out i e).meta
  unfolding adopt_page npages
  adopt_page-IsSized i e v h =
      let m = e.meta in
      let inside : i < m.bitmap.npages = omega (arith, v.bits) in
      elim (Bool-cases (is_pending e i)) [
        | inl c ↦ rw c v
        | inr k ↦ elim (Bool-cases (Bitmap.get out.bitmap i)) [
          | inl c ↦
              rw (k, c)
                (record {
                  valid = set-IsValid m.bitmap i v.valid inside;
                  bits = npages-set m.bitmap i ∙ v.bits;
                  crcs = length-set m.page_crcs i _ ∙ v.crcs;
                })
          | inr c ↦
              rw (k, c)
                (record {
                  valid = clear-IsValid m.bitmap i v.valid inside;
                  bits = npages-clear m.bitmap i ∙ v.bits;
                  crcs = length-set m.page_crcs i 0 ∙ v.crcs;
                })
        ]
      ]

  get-adopt_page :
      (i j : ℕ) (e : Entry)
      → IsSized e.meta
      → i < npages e.meta
      → Bitmap.get (adopt_page out i e).meta.bitmap j
        ≡ (if i == j then adopted_bit out e j else Bitmap.get e.meta.bitmap j)
  unfolding adopt_page
  get-adopt_page i j e v h =
      let inside : i < e.meta.bitmap.npages = omega (arith, v.bits) in
      elim (Bool-cases (i == j)) [
        | inl c ↦
            rw (c, ← (==_iff i j).0 c)
              (ground
                (arith, get-set e.meta.bitmap i i v.valid, get-clear e.meta.bitmap i i v.valid))
        | inr c ↦ rw c (
            ground
              (arith, c, get-set e.meta.bitmap i j v.valid, get-clear e.meta.bitmap i j v.valid))
      ]

  crc-adopt_page :
      (i j : ℕ) (e : Entry)
      → IsSized e.meta
      → i < npages e.meta
      → get_or (adopt_page out i e).meta.page_crcs j 0
        ≡ (if i == j then adopted_crc out e j else get_or e.meta.page_crcs j 0)
  unfolding adopt_page
  crc-adopt_page i j e v h = elim (Bool-cases (i == j)) [
    | inl c ↦
        rw (c, ← (==_iff i j).0 c)
          (ground (
            arith,
            get_or-write e.meta.page_crcs i i 0,
            get_or-write e.meta.page_crcs i i (get_or out.page_crcs i 0),
            v.crcs,
          ))
    | inr c ↦ rw c (
        ground (
          arith,
          c,
          get_or-write e.meta.page_crcs i j 0,
          get_or-write e.meta.page_crcs i j (get_or out.page_crcs i 0),
          v.crcs,
        ))
  ]

  npages-adopt_pages :
      (rounds i : ℕ) (e : Entry) → npages (adopt_pages out rounds i e).meta ≡ npages e.meta
  unfolding adopt_pages
  npages-adopt_pages zero i e = refl
  npages-adopt_pages (suc rounds) i e =
      npages-adopt_pages rounds (i + 1) (adopt_page out i e) ∙ npages-adopt_page i e

  adopt_pages-IsSized :
      (rounds i : ℕ) (e : Entry)
      → IsSized e.meta
      → i + rounds ≤ npages e.meta
      → IsSized (adopt_pages out rounds i e).meta
  unfolding adopt_pages
  adopt_pages-IsSized zero i e v h = v
  adopt_pages-IsSized (suc rounds) i e v h =
      adopt_pages-IsSized rounds (i + 1) (adopt_page out i e)
        (adopt_page-IsSized i e v (omega arith)) (omega (arith, npages-adopt_page i e))

  get-adopt_pages :
      (rounds i j : ℕ) (e : Entry)
      → IsSized e.meta
      → i + rounds ≤ npages e.meta
      → Bitmap.get (adopt_pages out rounds i e).meta.bitmap j ≡ (
          if leb i j && ltb j (i + rounds) then adopted_bit out e j else Bitmap.get e.meta.bitmap j)
  unfolding adopt_pages
  get-adopt_pages zero i j e v h = ground arith
  get-adopt_pages (suc rounds) i j e v h = ground (
    arith,
    get-adopt_pages rounds (i + 1) j (adopt_page out i e) (adopt_page-IsSized i e v (omega arith))
        (omega (arith, npages-adopt_page i e)),
    get-adopt_page i j e v (omega arith),
    pending-adopt_page i j e,
  )

  crc-adopt_pages :
      (rounds i j : ℕ) (e : Entry)
      → IsSized e.meta
      → i + rounds ≤ npages e.meta
      → get_or (adopt_pages out rounds i e).meta.page_crcs j 0 ≡ (
          if leb i j && ltb j (i + rounds)
          then adopted_crc out e j
          else get_or e.meta.page_crcs j 0)
  unfolding adopt_pages
  crc-adopt_pages zero i j e v h = ground arith
  crc-adopt_pages (suc rounds) i j e v h = ground (
    arith,
    crc-adopt_pages rounds (i + 1) j (adopt_page out i e) (adopt_page-IsSized i e v (omega arith))
        (omega (arith, npages-adopt_page i e)),
    crc-adopt_page i j e v (omega arith),
    pending-adopt_page i j e,
  )

-- After a merged commit the handle's view of a page is the committed one, but for a page that it has
-- changed since the snapshot, which keeps the handle's bit and checksum.
pub adopt_image-pages :
    (out : MetaData) (e : Entry) (j : ℕ)
    → IsSized e.meta
    → j < npages e.meta
    → (Bitmap.get (adopt_image out e).meta.bitmap j ≡ adopted_bit out e j)
      × (get_or (adopt_image out e).meta.page_crcs j 0 ≡ adopted_crc out e j)
unfolding adopt_image with_complete npages
adopt_image-pages out e j v h = (
  ground (arith, get-adopt_pages out (npages e.meta) 0 j e v (omega arith)),
  ground (arith, crc-adopt_pages out (npages e.meta) 0 j e v (omega arith)),
)

pub adopt_image-IsSized :
    (out : MetaData) (e : Entry) → IsSized e.meta → IsSized (adopt_image out e).meta
unfolding adopt_image with_complete npages
adopt_image-IsSized out e v = record { valid = all.valid; bits = all.bits; crcs = all.crcs }
  where
    all : IsSized (adopt_pages out (npages e.meta) 0 e).meta
    all = adopt_pages-IsSized out (npages e.meta) 0 e v (omega arith)
