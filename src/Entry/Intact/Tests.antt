-- ===== src/Entry/Intact/Tests.antt =====
-- Runs of the fill buffer and of a flush on a file of two pages, the second one short.
use xrd_ucache.Base.{
  ℕ, ◌%◌, ◌<◌, ◌≡◌, refl, true, false, List, [], Content, slice, some, none, length, arith,
  word_limit,
}
use xrd_ucache.Base.PageMap.{find, holds, emplace}
use xrd_ucache.Bitmap
use xrd_ucache.Bitmap.Byte.{bit_of}
use xrd_ucache.Bitmap.Laws.{get-reset}
use xrd_ucache.Bitmap.Counts.{reset-IsValid}
use xrd_ucache.Sidecar.{MetaData, fresh, npages, npages_of, page_bytes}
use xrd_ucache.Sidecar.Fresh.{fresh-IsSized}
use xrd_ucache.Entry.{Entry, Config, sync_data, no_check}
use xrd_ucache.Entry.Stage.{
  stage_write, staging_loop, page_inside, write_page, new_page, request_end, first_whole_page,
  unmark_speculative,
}
use xrd_ucache.Entry.Flush.{
  DiskWrites, flush_begin, flush_due, snapshot_taken, flush_write, flush_end,
}
use xrd_ucache.Entry.Intact.{IsIntact}
use xrd_ucache.Entry.Intact.Steps.{writes, begins, ends, here, then, Steps-IsIntact}

abbrev origin : Content
origin x = x % 256

-- Any function of the bytes serves as the checksum.
abbrev sum_of : List ℕ → ℕ
sum_of l = length l

abbrev two_pages : MetaData
two_pages = fresh 0 [] 6 4

abbrev new_entry : Entry
new_entry = record {
  meta = two_pages;
  dirty = false;
  last_flush = 0;
  set_since = Bitmap.reset 2;
  cleared_since = Bitmap.reset 2;
  pin_touched = false;
  buf = [];
  flushing = [];
  buf_bytes = 0;
  spec_bytes = 0;
  last_buf_flush = 0;
  flush_in_progress = false;
  pools = record { buf_total = 0; spec_total = 0; spec_dropped = 0 };
  data_file = λ i. 0;
  sidecar = none;
}

abbrev settings : Config
settings = record {
  fill_buffer_mb = 32;
  fill_buffer_total_mb = 256;
  meta_flush_seconds = 5;
  fsync = sync_data;
  validate = no_check;
}

-- A disk on which every write lands whole.
abbrev good_disk : DiskWrites
good_disk = record { lands = λ at n. n; synced = true }

fits : npages_of 4 6 < word_limit
unfolding npages_of
fits = omega arith

new_entry-IsIntact : IsIntact sum_of origin new_entry
unfolding fresh npages npages_of Bitmap.reset
new_entry-IsIntact = record {
  consistent = record {
    sized = fresh-IsSized 0 [] 6 4 fits;
    set_valid = reset-IsValid 2 (omega arith);
    set_bits = refl;
    cleared_valid = reset-IsValid 2 (omega arith);
    cleared_bits = refl;
  };
  page = omega arith;
  fits = omega arith;
  staged = tt;
  staged_sorted = tt;
  writing = tt;
  present = λ i h on. absurd (ground (arith, get-reset (npages_of 4 6) i, on));
}

-- A demand read of the first page, then a whole flush.
abbrev staged_entry : Entry
staged_entry = (stage_write sum_of 0 4 (slice origin 0 4) new_entry).entry

abbrev snapped_entry : Entry
snapped_entry = snapshot_taken staged_entry

abbrev flushed_entry : Entry
flushed_entry = flush_end 7 4 (flush_write settings good_disk snapped_entry) snapped_entry

begins_here :
    flush_begin settings 7 true staged_entry ≡ some (snapped_entry, staged_entry.buf_bytes)
unfolding flush_begin flush_due stage_write staging_loop page_inside write_page new_page request_end
    first_whole_page unmark_speculative fresh page_bytes npages npages_of Bitmap.reset Bitmap.get
    bit_of find holds emplace
begins_here = refl

running : snapped_entry.flush_in_progress ≡ true
unfolding snapshot_taken
running = refl

Steps-IsIntact_example : IsIntact sum_of origin flushed_entry
Steps-IsIntact_example =
    Steps-IsIntact sum_of origin new_entry flushed_entry
      (then new_entry staged_entry flushed_entry (writes 0 4 new_entry) (
        then staged_entry snapped_entry flushed_entry
          (begins settings 7 true staged_entry snapped_entry staged_entry.buf_bytes begins_here)
          (then snapped_entry flushed_entry flushed_entry
            (ends settings good_disk 7 4 snapped_entry running) (here flushed_entry))))
      new_entry-IsIntact
