-- ===== src/Entry/Read.antt =====
-- src/core/FileEntry.cc: `readCached` with what it calls. The caller's buffer is a function from the
-- offset in it. How many bytes a disk read brings, and the checksum, are parameters; which pages were
-- served before, the counters and the trace are left out.
pub mod Runs
pub mod Verify
pub mod Tests
pub mod Planned
pub mod Keeps
pub mod Right
use xrd_ucache.Base.{
  ℕ, zero, suc, ◌+◌, ◌-◌, ◌*◌, ◌/◌, ◌^◌, Bool, true, false, ◌&&◌, ◌||◌, not, List, [], ◌∷◌, ◌++◌,
  if◌then◌else◌, ltb, leb, ◌==◌, min, max, Content, slice, blit, take, drop, length, get_or, add64,
  sub64, some, none,
}
use xrd_ucache.Base.PageMap.{find, assign}
use xrd_ucache.Bitmap
use xrd_ucache.Sidecar.{MetaData, page_bytes}
use xrd_ucache.Entry.{Entry, BufPage, retract_page, touch_atime}
use xrd_ucache.Entry.Stage.{unmark_speculative}

-- How many of n bytes at an offset a disk read brings.
abbrev pub DiskReads : Type 0
DiskReads = ℕ → ℕ → ℕ

-- `preadFull`: the bytes that arrive.
unfoldable pub pread : DiskReads → Content → ℕ → ℕ → List ℕ
pread io file at n = take (io at n) (slice file at n)

-- `runBytes`.
unfoldable pub run_bytes : MetaData → ℕ → ℕ → ℕ
run_bytes m first last = last * m.page_size + page_bytes m last - first * m.page_size

-- `demoteRun` of one page.
unfoldable pub demote_page : ℕ → Entry → Entry
demote_page i e =
    let e' = retract_page e i in
    let meta = e'.meta in record e' { meta = record meta { complete = false }; dirty = true }

module _ (crc : List ℕ → ℕ) (io : DiskReads) where
  -- The loop of `demoteBadPages` from page i on, with `rounds` pages left; `expect` starts at page i.
  unfoldable pub demote_bad_pages : ℕ → ℕ → List ℕ → Entry → Entry
  unfolding pread demote_page
  demote_bad_pages zero i expect e = e
  demote_bad_pages (suc rounds) i expect e =
      let n = page_bytes e.meta i in
      let page = pread io e.data_file (i * e.meta.page_size) n in
      let bad = not (length page == n) || not (crc page == get_or expect 0 0) in
      demote_bad_pages rounds (i + 1) (drop 1 expect) (if bad then demote_page i e else e)

  -- The loop of `readVerifyRun` at page i, `at` bytes into what was read.
  unfoldable pub verify_pages : ℕ → ℕ → ℕ → List ℕ → List ℕ → Entry → Entry × Bool
  unfolding demote_bad_pages demote_page
  verify_pages zero i at got expect e = (e, true)
  verify_pages (suc rounds) i at got expect e =
      let n = page_bytes e.meta i in
      let rest = verify_pages rounds (i + 1) (at + n) got (drop 1 expect) e in
      if ltb (length got) (at + n)
      then (demote_bad_pages (suc rounds) i expect e, false)
      else if not (crc (take n (drop at got)) == get_or expect 0 0)
      then (demote_page i e, false)
      else rest

-- The local `Run` of `readCached`.
pub record Run : Type 0 where
  pub first_page : ℕ
  pub last_page : ℕ
  pub crc_base : ℕ

-- The locals of the plan.
pub record Plan : Type 0 where
  pub entry : Entry
  pub out : Content
  pub spec_served : ℕ
  pub runs : List Run
  pub crcs : List ℕ

-- `kMaxCoalescedRead`.
abbrev pub max_coalesced_read : ℕ
max_coalesced_read = 2 ^ 20

-- Page i joins the last run if it follows it and the run stays short enough.
unfoldable pub add_page : MetaData → ℕ → ℕ → List Run → List Run
unfolding run_bytes
add_page m i base [] = record { first_page = i; last_page = i; crc_base = base } ∷ []
add_page m i base (r ∷ []) =
    if r.last_page + 1 == i && leb (run_bytes m r.first_page i) max_coalesced_read
    then record r { last_page = i } ∷ []
    else r ∷ record { first_page = i; last_page = i; crc_base = base } ∷ []
add_page m i base (r ∷ q ∷ runs) = r ∷ add_page m i base (q ∷ runs)

-- A staged page serves its part of the request from memory.
unfoldable pub serve_staged : ℕ → ℕ → ℕ → BufPage → Plan → Plan
serve_staged off len i p s =
    let start = i * s.entry.meta.page_size in
    let begins = max off start in
    let to = min (off + len) (start + page_bytes s.entry.meta i) in
    record s {
      out = blit s.out (begins - off) (take (to - begins) (drop (begins - start) p.bytes));
    }

-- `unmarkSpeculative` of a page in either map.
unfoldable pub unmark_flushing : ℕ → BufPage → Entry → Entry
unmark_flushing i p e = record e {
  flushing = assign i (record p { spec = false }) e.flushing;
  spec_bytes = sub64 e.spec_bytes (page_bytes e.meta i);
  buf_bytes = add64 e.buf_bytes (page_bytes e.meta i);
}

-- The mark of a prediction that the reader confirms is cleared.
unfoldable pub confirm : Bool → ℕ → BufPage → Entry → Plan → Plan
confirm account i p unmarked s =
    if p.spec && account
    then record s { entry = unmarked; spec_served = s.spec_served + page_bytes s.entry.meta i }
    else s

-- A page on disk joins the runs.
unfoldable pub plan_disk : ℕ → Plan → Plan
unfolding add_page
plan_disk i s = record s {
  runs = add_page s.entry.meta i (length s.crcs) s.runs;
  crcs = s.crcs ++ get_or s.entry.meta.page_crcs i 0 ∷ [];
}

-- The body of the loop of the plan, with false for an absent page.
unfoldable pub plan_page : ℕ → ℕ → Bool → ℕ → Plan → Plan × Bool
unfolding unmark_speculative unmark_flushing confirm serve_staged plan_disk
plan_page off len account i s =
    let e = s.entry in
    elim (find i e.buf) [
      | some p ↦ (serve_staged off len i p (confirm account i p (unmark_speculative i p e) s), true)
      | none ↦ elim (find i e.flushing) [
        | some p ↦ (serve_staged off len i p (confirm account i p (unmark_flushing i p e) s), true)
        | none ↦ if Bitmap.get e.meta.bitmap i then (plan_disk i s, true) else (s, false)
      ]
    ]

-- The plan of `rounds` pages from page i on.
unfoldable pub plan_pages : ℕ → ℕ → Bool → ℕ → ℕ → Plan → Plan × Bool
unfolding plan_page
plan_pages off len account zero i s = (s, true)
plan_pages off len account (suc rounds) i s =
    let step = plan_page off len account i s in
    let rest = plan_pages off len account rounds (i + 1) (step.0) in if step.1 then rest else step

module _ (crc : List ℕ → ℕ) (io : DiskReads) (off len : ℕ) where
  -- One run: read, verified and copied to its part of the request. A run inside the request is read
  -- straight into the caller's buffer, which is the same copy.
  unfoldable pub read_run : Run → Plan → Plan × Bool
  unfolding pread run_bytes verify_pages
  read_run r s =
      let e = s.entry in
      let start = r.first_page * e.meta.page_size in
      let n = run_bytes e.meta r.first_page r.last_page in
      let got = pread io e.data_file start n in
      let checked =
        verify_pages crc io (r.last_page + 1 - r.first_page) r.first_page 0 got
          (drop r.crc_base s.crcs) e in
      let begins = max off start in
      let to = min (off + len) (start + n) in
      (
        record s {
          entry = checked.0;
          out = blit s.out (begins - off) (take (to - begins) (drop (begins - start) got));
        },
        checked.1,
      )

  unfoldable pub read_runs : List Run → Plan → Plan × Bool
  unfolding read_run
  read_runs [] s = (s, true)
  read_runs (r ∷ runs) s =
      let step = read_run r s in let rest = read_runs runs (step.0) in if step.1 then rest else step

-- `movePools`, of the marks that the request cleared.
unfoldable pub move_pools : Plan → Entry
move_pools s =
    let e = s.entry in
    let pools = e.pools in
    record e {
      pools = record pools {
        spec_total = sub64 pools.spec_total s.spec_served;
        buf_total = add64 pools.buf_total s.spec_served;
      };
    }

module _ (crc : List ℕ → ℕ) (io : DiskReads) where
  -- The plan, then the runs when no page of the request is absent.
  unfoldable pub answer : ℕ → ℕ → Bool → Content → Entry → Plan × Bool
  unfolding plan_pages read_runs
  answer off len account out e =
      let first = off / e.meta.page_size in
      let last = (off + len - 1) / e.meta.page_size in
      let planned =
        plan_pages off len account (last + 1 - first) first
          (record { entry = e; out = out; spec_served = 0; runs = []; crcs = [] }) in
      let served = read_runs crc io off len (planned.0.runs) (planned.0) in
      if planned.1 then served else planned

  -- `readCached`: the entry after it, the caller's buffer and the answer.
  unfoldable pub read_cached : ℕ → ℕ → ℕ → Bool → Content → Entry → Entry × Content × Bool
  unfolding answer move_pools
  read_cached now off len account out e =
      let done = answer off len account out e in
      let moved = move_pools (done.0) in
      if len == 0
      then (e, out, true)
      else if ltb (add64 off len) off || ltb e.meta.file_size (add64 off len)
      then (e, out, false)
      else (if done.1 && account then touch_atime now moved else moved, done.0.out, done.1)
