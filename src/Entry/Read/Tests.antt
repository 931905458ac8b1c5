-- ===== src/Entry/Read/Tests.antt =====
-- A read of a file of two pages, one staged and one on disk.
use xrd_ucache.Base.{
  ℕ, ◌-◌, ◌%◌, ◌/◌, ◌↔◌, ◌≡◌, refl, true, false, List, [], ◌∷◌, Content, slice, none, length, arith,
  get_or,
}
use mathlib.Core.Path.{subst, sym}
use xrd_ucache.Base.PageMap.{find, assign}
use xrd_ucache.Bitmap
use xrd_ucache.Bitmap.Byte.{bit_of, with_bit}
use xrd_ucache.Bitmap.Laws.{get-reset, get-set}
use xrd_ucache.Bitmap.Counts.{reset-IsValid, set-IsValid, npages-set}
use xrd_ucache.Sidecar.{fresh, npages, npages_of, page_bytes}
use xrd_ucache.Entry.{Entry, touch_atime, has_range}
use xrd_ucache.Entry.Range.{IsAsked, IsHere, has_range_iff}
use xrd_ucache.Entry.Stage.{unmark_speculative}
use xrd_ucache.Entry.Intact.{IsIntact, IsStored}
use xrd_ucache.Entry.Read.{
  DiskReads, pread, run_bytes, verify_pages, add_page, serve_staged, confirm, plan_disk, plan_page,
  plan_pages, read_run, read_runs, move_pools, answer, read_cached,
}
use xrd_ucache.Entry.Read.Keeps.{read_cached-IsIntact}
use xrd_ucache.Entry.Read.Right.{read_cached_right}

abbrev pub origin : Content
origin x = x % 256

-- Any function of the bytes serves as the checksum.
abbrev pub sum_of : List ℕ → ℕ
sum_of l = length l

abbrev whole_reads : DiskReads
whole_reads at n = n

-- Page 0 is a prediction in the buffer, page 1 is on disk.
abbrev pub half_entry : Entry
half_entry = record {
  meta = record (fresh 0 [] 6 4) { bitmap = Bitmap.set (Bitmap.reset 2) 1; page_crcs = 0 ∷ 2 ∷ [] };
  dirty = false;
  last_flush = 0;
  set_since = Bitmap.reset 2;
  cleared_since = Bitmap.reset 2;
  pin_touched = false;
  buf = (0, record { bytes = slice origin 0 4; crc = 4; spec = true; touched = false }) ∷ [];
  flushing = [];
  buf_bytes = 0;
  spec_bytes = 4;
  last_buf_flush = 0;
  flush_in_progress = false;
  pools = record { buf_total = 0; spec_total = 4; spec_dropped = 0 };
  data_file = origin;
  sidecar = none;
}

second_page : (i : ℕ) → Bitmap.get (Bitmap.set (Bitmap.reset 2) 1) i ≡ true → i ≡ 1
second_page i on = ground (
  arith,
  on,
  get-reset 2 i,
  get-set (Bitmap.reset 2) 1 i (reset-IsValid 2 (omega arith)) (unfold Bitmap.reset in omega arith),
)

pub half_entry-IsIntact : IsIntact sum_of origin half_entry
unfolding fresh npages npages_of page_bytes Bitmap.reset slice
half_entry-IsIntact = record {
  consistent = record {
    sized = record {
      valid = set-IsValid (Bitmap.reset 2) 1 (reset-IsValid 2 (omega arith)) (omega arith);
      bits = npages-set (Bitmap.reset 2) 1;
      crcs = refl;
    };
    set_valid = reset-IsValid 2 (omega arith);
    set_bits = refl;
    cleared_valid = reset-IsValid 2 (omega arith);
    cleared_bits = refl;
  };
  page = omega arith;
  fits = omega arith;
  staged = (record { inside = omega arith; bytes = refl; sum = refl }, tt);
  staged_sorted = (omega arith, tt);
  writing = tt;
  present = λ i h on.
      subst (λ k. IsStored sum_of origin half_entry.meta origin k (get_or (0 ∷ 2 ∷ []) k 0))
        (sym (second_page i on))
        (record { inside = omega arith; sum = refl; bytes = λ x p q. refl });
}

answers : (read_cached sum_of whole_reads 7 1 5 true (λ k. 0) half_entry).2 ≡ true
unfolding read_cached answer plan_pages plan_page serve_staged confirm unmark_speculative plan_disk
    add_page read_runs read_run verify_pages pread run_bytes move_pools touch_atime fresh npages
    npages_of page_bytes Bitmap.reset Bitmap.set Bitmap.get bit_of with_bit find slice assign
answers = refl

read_cached_right_example :
    (read_cached sum_of whole_reads 7 1 5 true (λ k. 0) half_entry).1 (4 - 1) ≡ origin 4
read_cached_right_example =
    read_cached_right sum_of origin whole_reads 7 1 5 true (λ k. 0) half_entry 4 half_entry-IsIntact
      (omega arith) (omega arith) answers (omega arith) (omega arith)

has_range_iff_example : (has_range half_entry 1 5 ≡ true) ↔ (
    IsAsked half_entry 1 5
    × IsHere half_entry (1 / half_entry.meta.page_size) (5 / half_entry.meta.page_size))
has_range_iff_example =
    has_range_iff half_entry 1 5 (omega arith) (omega arith) (unfold fresh in omega arith)

-- Nothing arrives from the disk, so page 1 is taken back.
abbrev no_reads : DiskReads
no_reads at n = 0

read_cached-IsIntact_example :
    IsIntact sum_of origin ((read_cached sum_of no_reads 7 1 5 true (λ k. 0) half_entry).0)
read_cached-IsIntact_example =
    read_cached-IsIntact sum_of origin no_reads 7 1 5 true (λ k. 0) half_entry half_entry-IsIntact
      (omega arith) (omega arith)
