-- ===== src/Entry/Flush.antt =====
-- src/core/FileEntry.cc: `flushBuffer`, in its three parts: the snapshot taken under the mutex, the
-- writes without it, the publication under it again. What a disk call does is a parameter.
use xrd_ucache.Base.{
  ◌≡◌, ◌⊎◌, arith, ℕ, zero, suc, ◌+◌, ◌*◌, ◌^◌, Bool, true, false, ◌&&◌, ◌||◌, not, List, [], ◌∷◌,
  ◌++◌, Option, none, some, if◌then◌else◌, ltb, leb, ◌==◌, Content, blit, sub64, length, take,
}
use xrd_ucache.Base.PageMap.{PageMap, select}
use xrd_ucache.Sidecar.{MetaData, npages, page_bytes}
use xrd_ucache.Entry.{Entry, BufPage, Config, sync_off, publish_page, is_empty}

-- How many bytes of a write at an offset land, and whether `fdatasync` succeeds.
pub record DiskWrites : Type 0 where
  pub lands : ℕ → ℕ → ℕ
  pub synced : Bool

unfoldable pub is_real : ℕ → BufPage → Bool
is_real i p = not p.spec

unfoldable pub is_guess : ℕ → BufPage → Bool
is_guess i p = p.spec

-- Is a flush due? Unforced, it is when a cap is reached or the interval is over.
unfoldable pub flush_due : Config → ℕ → Bool → Entry → Bool
flush_due cfg now force e =
    force
    || leb (cfg.fill_buffer_mb * 2 ^ 20) e.buf_bytes
    || leb (cfg.fill_buffer_total_mb * 2 ^ 20) e.pools.buf_total
    || leb (e.last_buf_flush + cfg.meta_flush_seconds) now

-- The entry with the snapshot taken.
unfoldable pub snapshot_taken : Entry → Entry
unfolding is_real is_guess
snapshot_taken e = record e {
  flushing = select is_real e.buf;
  buf = select is_guess e.buf;
  buf_bytes = 0;
  flush_in_progress = true;
}

-- The snapshot: real pages move to `flushing_`, speculative pages stay. `none` when there is nothing
-- to do, and while another flush runs (a forced flush waits for it and then starts from here).
unfoldable pub flush_begin : Config → ℕ → Bool → Entry → Option (Entry × ℕ)
unfolding flush_due snapshot_taken
flush_begin cfg now force e =
    if e.flush_in_progress || e.buf_bytes == 0 || not (flush_due cfg now force e)
    then none
    else some (snapshot_taken e, e.buf_bytes)

-- Either there is nothing to do now, or the snapshot is taken.
pub flush_begin_cases :
    (cfg : Config) (now : ℕ) (force : Bool) (e : Entry)
    → (flush_begin cfg now force e ≡ none)
      ⊎ (flush_begin cfg now force e ≡ some (snapshot_taken e, e.buf_bytes))
unfolding flush_begin
flush_begin_cases cfg now force e = ground arith

-- `kMaxRun`.
abbrev pub max_run : ℕ
max_run = 8 * 2 ^ 20

-- The pages that the next write takes: consecutive ones, until the run has `max_run` bytes.
unfoldable pub take_run : MetaData → ℕ → ℕ → PageMap BufPage → PageMap BufPage × PageMap BufPage
take_run m next size [] = ([], [])
take_run m next size ((j, p) ∷ rest) =
    let more = take_run m (next + 1) (size + page_bytes m j) rest in
    if j == next && ltb size max_run then ((j, p) ∷ more.0, more.1) else ([], (j, p) ∷ rest)

-- The bytes of a run.
unfoldable pub run_payload : PageMap BufPage → List ℕ
run_payload [] = []
run_payload ((j, p) ∷ rest) = p.bytes ++ run_payload rest

-- Its pages and their checksums.
unfoldable pub run_pages : PageMap BufPage → List (ℕ × ℕ)
run_pages [] = []
run_pages ((j, p) ∷ rest) = (j, p.crc) ∷ run_pages rest

-- The data file after the writes, the pages whose run was written whole, and their bytes.
pub record Written : Type 0 where
  pub file : Content
  pub published : List (ℕ × ℕ)
  pub bytes : ℕ

-- The walk over the snapshot, one write for each run, with fuel; a short write ends it.
unfoldable pub write_runs : DiskWrites → MetaData → ℕ → PageMap BufPage → Written → Written
unfolding take_run run_payload run_pages
write_runs io m zero pages w = w
write_runs io m (suc fuel) [] w = w
write_runs io m (suc fuel) ((j, p) ∷ pages) w =
    let split = take_run m j 0 ((j, p) ∷ pages) in
    let payload = run_payload split.0 in
    let landed = io.lands (j * m.page_size) (length payload) in
    let file = blit w.file (j * m.page_size) (take landed payload) in
    let next = write_runs io m fuel split.1 (record {
      file = file;
      published = w.published ++ run_pages split.0;
      bytes = w.bytes + length payload;
    }) in
    if landed == length payload then next else record w { file = file }

-- The unlocked part; without a successful sync nothing is published.
unfoldable pub flush_write : Config → DiskWrites → Entry → Written
unfolding write_runs
flush_write cfg io e =
    let w =
      write_runs io e.meta (length e.flushing) e.flushing
        (record { file = e.data_file; published = []; bytes = 0 }) in
    let unsynced = record w { published = []; bytes = 0 } in
    elim cfg.fsync [ sync_off ↦ w | _ ↦ if io.synced || is_empty w.published then w else unsynced ]

unfoldable pub publish_all : List (ℕ × ℕ) → Entry → Entry
publish_all [] e = e
publish_all ((page, crc) ∷ rest) e = publish_all rest (publish_page e page crc)

-- Set kFlagComplete when every page is present.
unfoldable pub mark_complete : Entry → Entry
mark_complete e =
    if e.meta.bitmap.count == npages e.meta
    then record e { meta = record meta { complete = true } }
    else e
  where
    open e use {meta}

-- The publication; the staged copies are freed and the process-wide pool is reduced.
unfoldable pub flush_end : ℕ → ℕ → Written → Entry → Entry
unfolding publish_all mark_complete
flush_end now snap_bytes w e =
    let landed = record e { data_file = w.file } in
    let marked = record (mark_complete (publish_all w.published landed)) { dirty = true } in
    let e' = if is_empty w.published then landed else marked in
    let pools = e'.pools in
    record e' {
      flushing = [];
      flush_in_progress = false;
      last_buf_flush = now;
      pools = record pools { buf_total = sub64 pools.buf_total snap_bytes };
    }

-- `flushBuffer` up to its call of `flushMeta`, with the bytes written, or none when it does nothing.
unfoldable pub flush_data : Config → DiskWrites → ℕ → Bool → Entry → Option (Entry × ℕ)
unfolding flush_begin flush_write flush_end
flush_data cfg io now force e = elim (flush_begin cfg now force e) [
  | none ↦ none
  | some (begun, snap) ↦
      let w = flush_write cfg io begun in some (flush_end now snap w begun, w.bytes)
]
