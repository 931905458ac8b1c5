-- ===== src/Entry/Stage.antt =====
-- src/core/FileEntry.cc: what `writePages` and `stageSpeculative` put into the fill buffer, and what
-- `dropSpeculative` and `consumeSpeculative` take out. The checksum (crc32c) is a parameter.
use xrd_ucache.Base.{
  ℕ, zero, suc, ◌+◌, ◌-◌, ◌*◌, ◌/◌, Bool, true, false, ◌&&◌, ◌||◌, not, List, none, some,
  if◌then◌else◌, ltb, leb, ◌==◌, min, add64, sub64, take, drop,
}
use xrd_ucache.Base.PageMap.{find, holds, emplace, assign, select, total}
use xrd_ucache.Bitmap
use xrd_ucache.Sidecar.{MetaData, npages, page_bytes}
use xrd_ucache.Entry.{Entry, BufPage}

-- The locals of the two staging loops: the entry and the byte counts.
pub record Staging : Type 0 where
  pub entry : Entry
  pub staged : ℕ
  pub covered : ℕ

-- `unmarkSpeculative`, of page i.
unfoldable pub unmark_speculative : ℕ → BufPage → Entry → Entry
unmark_speculative i p e = record e {
  buf = assign i (record p { spec = false }) e.buf;
  spec_bytes = sub64 e.spec_bytes (page_bytes e.meta i);
  buf_bytes = add64 e.buf_bytes (page_bytes e.meta i);
}

-- `std::min(off + len, fileSize)`; the sum wraps.
unfoldable pub request_end : Entry → ℕ → ℕ → ℕ
request_end e off len = min (add64 off len) e.meta.file_size

-- `(off + P - 1) / P`; the sum wraps.
unfoldable pub first_whole_page : Entry → ℕ → ℕ
first_whole_page e off = sub64 (add64 off e.meta.page_size) 1 / e.meta.page_size

-- The test of the staging loops at page i: it starts before the end, and ends there at the latest.
unfoldable pub page_inside : Entry → ℕ → ℕ → Bool
page_inside e end i =
    ltb (i * e.meta.page_size) end && leb (i * e.meta.page_size + page_bytes e.meta i) end

module _ (crc : List ℕ → ℕ) (off : ℕ) (bytes : List ℕ) where
  -- A page of the request's bytes.
  unfoldable pub new_page : Entry → ℕ → Bool → BufPage
  new_page e i spec =
      let payload = take (page_bytes e.meta i) (drop (i * e.meta.page_size - off) bytes) in
      record { bytes = payload; crc = crc payload; spec = spec; touched = false }

  -- The body of the loop of `writePages` at page i.
  unfoldable pub write_page : ℕ → Staging → Staging
  unfolding unmark_speculative new_page
  write_page i s = elim (find i s.entry.buf) [
    | some p ↦
        if p.spec
        then record s {
          entry = unmark_speculative i p s.entry;
          covered = s.covered + page_bytes s.entry.meta i;
        }
        else s
    | none ↦ if Bitmap.get s.entry.meta.bitmap i || holds i s.entry.flushing then s else record s {
      entry = record (s.entry) {
        buf = emplace i (new_page s.entry i false) s.entry.buf;
        buf_bytes = add64 s.entry.buf_bytes (page_bytes s.entry.meta i);
      };
      staged = s.staged + page_bytes s.entry.meta i;
    }
  ]

  -- The body of the loop of `stageSpeculative` at page i.
  unfoldable pub guess_page : ℕ → Staging → Staging
  unfolding new_page
  guess_page i s =
      if Bitmap.get s.entry.meta.bitmap i || holds i s.entry.buf || holds i s.entry.flushing
      then s
      else record s {
        entry = record (s.entry) {
          buf = emplace i (new_page s.entry i true) s.entry.buf;
          spec_bytes = add64 s.entry.spec_bytes (page_bytes s.entry.meta i);
        };
        staged = s.staged + page_bytes s.entry.meta i;
      }

-- `for (i = …; i * P < end; ++i) { … break on a page past the end … }`, with fuel.
unfoldable pub staging_loop : (ℕ → Staging → Staging) → ℕ → ℕ → ℕ → Staging → Staging
staging_loop body zero end i s = s
staging_loop body (suc fuel) end i s =
    let rest = staging_loop body fuel end (i + 1) (body i s) in
    if page_inside s.entry end i then rest else s

abbrev pub nothing_staged : Entry → Staging
nothing_staged e = record { entry = e; staged = 0; covered = 0 }

module _ (crc : List ℕ → ℕ) where
  -- The locked part of `writePages`; a file of n pages ends the loop in n rounds.
  unfoldable pub stage_write : ℕ → ℕ → List ℕ → Entry → Staging
  unfolding staging_loop request_end first_whole_page write_page page_inside
  stage_write off len bytes e =
      let end = request_end e off len in
      if leb end off
      then nothing_staged e
      else staging_loop (write_page crc off bytes) (npages e.meta) end (first_whole_page e off)
          (nothing_staged e)

  -- `stageSpeculative`, with the entry and the bytes staged.
  unfoldable pub stage_speculative : ℕ → ℕ → ℕ → List ℕ → Entry → Entry × ℕ
  unfolding staging_loop request_end first_whole_page guess_page page_inside
  stage_speculative fill_buffer_mb off len bytes e =
      let end = request_end e off len in
      let s =
        staging_loop (guess_page crc off bytes) (npages e.meta) end (first_whole_page e off)
          (nothing_staged e) in
      let e' = s.entry in
      let pools = e'.pools in
      if len == 0 || fill_buffer_mb == 0 || leb end off then (e, 0) else (
        record e' { pools = record pools { spec_total = add64 pools.spec_total s.staged } },
        s.staged,
      )

-- The pages that `dropSpeculative` and `consumeSpeculative` may remove: those wholly inside
-- [off, end), the file's tail page counting as whole. `first` inclusive, `stop` exclusive.
pub whole_pages_stop : Entry → ℕ → ℕ
whole_pages_stop e end =
    if end == e.meta.file_size
    then sub64 (add64 end e.meta.page_size) 1 / e.meta.page_size
    else end / e.meta.page_size

abbrev pub within : ℕ → ℕ → ℕ → Bool
within first stop i = leb first i && ltb i stop

-- A speculative page in the range.
unfoldable pub doomed : ℕ → ℕ → ℕ → BufPage → Bool
doomed first stop i p = within first stop i && p.spec

-- The bytes of the speculative pages in the range, and of those never touched.
pub doomed_bytes : MetaData → ℕ → ℕ → ℕ → BufPage → ℕ
unfolding doomed
doomed_bytes m first stop i p = if doomed first stop i p then page_bytes m i else 0

pub unread_bytes : MetaData → ℕ → ℕ → ℕ → BufPage → ℕ
unfolding doomed
unread_bytes m first stop i p = if doomed first stop i p && not p.touched then page_bytes m i else 0

-- The loop that erases them from the buffer.
unfoldable pub erase_doomed : ℕ → ℕ → Entry → Entry
unfolding doomed doomed_bytes
erase_doomed first stop e = record e {
  buf = select (λ i p. not (doomed first stop i p)) e.buf;
  spec_bytes = sub64 e.spec_bytes (total (doomed_bytes e.meta first stop) e.buf);
}

-- `dropSpeculative`, with the bytes dropped.
unfoldable pub drop_speculative : ℕ → ℕ → Entry → Entry × ℕ
unfolding request_end first_whole_page whole_pages_stop erase_doomed unread_bytes
drop_speculative off len e =
    let end = request_end e off len in
    let first = first_whole_page e off in
    let stop = whole_pages_stop e end in
    let dropped = total (doomed_bytes e.meta first stop) e.buf in
    let unread = total (unread_bytes e.meta first stop) e.buf in
    let e' = erase_doomed first stop e in
    let pools = e.pools in
    if len == 0 || ltb (add64 off len) off || leb end off || leb stop first then (e, 0) else (
      record e' {
        pools = record pools {
          spec_total = sub64 pools.spec_total dropped;
          spec_dropped = add64 pools.spec_dropped unread;
        };
      },
      dropped,
    )

-- The mark on an edge page that `consumeSpeculative` leaves to its neighbour.
unfoldable pub touch_edge : ℕ → ℕ → ℕ → Entry → Entry
touch_edge first stop i e = if within first stop i then e else elim (find i e.buf) [
  | some p ↦ if p.spec then record e { buf = assign i (record p { touched = true }) e.buf } else e
  | none ↦ e
]

-- `consumeSpeculative`, with the bytes consumed.
unfoldable pub consume_speculative : ℕ → ℕ → Entry → Entry × ℕ
unfolding request_end first_whole_page whole_pages_stop erase_doomed touch_edge
consume_speculative off len e =
    let end = request_end e off len in
    let first = first_whole_page e off in
    let stop = whole_pages_stop e end in
    let marked =
      touch_edge first stop ((end - 1) / e.meta.page_size)
        (touch_edge first stop (off / e.meta.page_size) e) in
    let used = total (doomed_bytes e.meta first stop) marked.buf in
    let e' = erase_doomed first stop marked in
    let pools = e.pools in
    if len == 0 || ltb (add64 off len) off || leb end off
    then (e, 0)
    else (record e' { pools = record pools { spec_total = sub64 pools.spec_total used } }, used)
