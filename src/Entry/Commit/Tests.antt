-- ===== src/Entry/Commit/Tests.antt =====
-- Runs of `flushMeta` on a file of three pages.
use xrd_ucache.Base.{
  if◌then◌else◌, ℕ, ◌<◌, ◌≡◌, refl, true, false, [], some, arith, get_or, word_limit,
}
use xrd_ucache.Bitmap
use xrd_ucache.Bitmap.{PageBitmap}
use xrd_ucache.Bitmap.Laws.{get-reset, get-set}
use xrd_ucache.Bitmap.Counts.{reset-IsValid, set-IsValid, npages-set}
use xrd_ucache.Sidecar.{MetaData, npages, IsSized, fresh, npages_of}
use xrd_ucache.Sidecar.Fresh.{fresh-IsSized}
use xrd_ucache.Entry.{Entry, Config, sync_off, no_check}
use xrd_ucache.Entry.Commit.{
  SidecarWrite, snapshot_of, merges, merged_image, flush_meta, adopt_image, adoptable, origin_of,
  same_key, valid_page_size,
}
use xrd_ucache.Entry.Commit.Merge.{merged_bit, merged_crc, merged_image-pages}
use xrd_ucache.Entry.Commit.Adopt.{adopted_bit, adopted_crc, adopt_image-pages}
use xrd_ucache.Entry.Commit.Rearm.{SamePending, AreDisjoint, flush_meta_failed}
use xrd_ucache.Entry.Commit.Stored.{flush_meta_agrees}

abbrev three_pages : MetaData
three_pages = fresh 0 [] 10000 4096

abbrev settings : Config
settings = record {
  fill_buffer_mb = 32;
  fill_buffer_total_mb = 256;
  meta_flush_seconds = 5;
  fsync = sync_off;
  validate = no_check;
}

-- Page 1 was published since the last commit, and page 2 cleared.
abbrev changed_entry : Entry
changed_entry = record {
  meta = three_pages;
  dirty = true;
  last_flush = 0;
  set_since = Bitmap.set (Bitmap.reset 3) 1;
  cleared_since = Bitmap.set (Bitmap.reset 3) 2;
  pin_touched = false;
  buf = [];
  flushing = [];
  buf_bytes = 0;
  spec_bytes = 0;
  last_buf_flush = 0;
  flush_in_progress = false;
  pools = record { buf_total = 0; spec_total = 0; spec_dropped = 0 };
  data_file = λ i. 0;
  sidecar = some three_pages;
}

abbrev writes_well : SidecarWrite
writes_well = record { unlinked = false; stored = true }

abbrev writes_badly : SidecarWrite
writes_badly = record { unlinked = false; stored = false }

fits : npages_of 4096 10000 < word_limit
unfolding npages_of
fits = omega arith

inside : (j : ℕ) → j < 3 → j < npages three_pages
unfolding npages fresh npages_of
inside j h = h

three_pages-IsSized : IsSized three_pages
three_pages-IsSized = fresh-IsSized 0 [] 10000 4096 fits

merged_image-pages_example :
    let s = snapshot_of changed_entry in
    IsSized (merged_image s three_pages)
    × (Bitmap.get (merged_image s three_pages).bitmap 1 ≡ merged_bit s three_pages 1)
    × (get_or (merged_image s three_pages).page_crcs 1 0 ≡ merged_crc s three_pages 1)
merged_image-pages_example =
    merged_image-pages (snapshot_of changed_entry) three_pages three_pages-IsSized 1
      (inside 1 (omega arith))

adopt_image-pages_example :
    (Bitmap.get (adopt_image three_pages changed_entry).meta.bitmap 0
      ≡ adopted_bit three_pages changed_entry 0)
    × (get_or (adopt_image three_pages changed_entry).meta.page_crcs 0 0
        ≡ adopted_crc three_pages changed_entry 0)
adopt_image-pages_example =
    adopt_image-pages three_pages changed_entry 0 three_pages-IsSized (inside 0 (omega arith))

merges_here : merges settings [] (snapshot_of changed_entry) three_pages ≡ true
unfolding merges adoptable origin_of snapshot_of fresh npages npages_of same_key valid_page_size
merges_here = refl

flush_meta_agrees_example :
    let e' = flush_meta settings [] writes_well 100 true changed_entry in
    (e'.sidecar ≡ some (merged_image (snapshot_of changed_entry) three_pages))
    × (Bitmap.get e'.meta.bitmap 2 ≡ merged_bit (snapshot_of changed_entry) three_pages 2)
    × (get_or e'.meta.page_crcs 2 0 ≡ (
        if merged_bit (snapshot_of changed_entry) three_pages 2
        then merged_crc (snapshot_of changed_entry) three_pages 2
        else 0))
    × (Bitmap.get (merged_image (snapshot_of changed_entry) three_pages).bitmap 2
        ≡ merged_bit (snapshot_of changed_entry) three_pages 2)
    × (get_or (merged_image (snapshot_of changed_entry) three_pages).page_crcs 2 0
        ≡ merged_crc (snapshot_of changed_entry) three_pages 2)
flush_meta_agrees_example =
    flush_meta_agrees settings [] writes_well 100 changed_entry three_pages three_pages-IsSized
      three_pages-IsSized refl refl merges_here refl refl 2 (inside 2 (omega arith))

apart : AreDisjoint changed_entry
apart j = ground (
  arith,
  get-reset 3 j,
  get-set (Bitmap.reset 3) 1 j (reset-IsValid 3 (omega arith)) (unfold Bitmap.reset in omega arith),
  get-set (Bitmap.reset 3) 2 j (reset-IsValid 3 (omega arith)) (unfold Bitmap.reset in omega arith),
)

flush_meta_failed_example :
    SamePending changed_entry (flush_meta settings [] writes_badly 100 true changed_entry) 1
flush_meta_failed_example =
    flush_meta_failed settings [] writes_badly 100 true changed_entry
      (record {
        set_valid =
            set-IsValid (Bitmap.reset 3) 1 (reset-IsValid 3 (omega arith))
              (unfold Bitmap.reset in omega arith);
        set_bits = unfold npages fresh npages_of Bitmap.reset in npages-set (Bitmap.reset 3) 1;
        cleared_valid =
            set-IsValid (Bitmap.reset 3) 2 (reset-IsValid 3 (omega arith))
              (unfold Bitmap.reset in omega arith);
        cleared_bits = unfold npages fresh npages_of Bitmap.reset in npages-set (Bitmap.reset 3) 2;
      })
      apart refl refl 1 (inside 1 (omega arith))
