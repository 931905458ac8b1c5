-- ===== src/Entry/Release.antt =====
-- src/core/FileEntry.cc: `releaseRanges`, cut at its `flushMeta`, so that other steps can come between
-- the pages' release and the punching of their bytes.
pub mod Whole
pub mod Pages
pub mod Intact
pub mod Punch
mod Tests
use xrd_ucache.Base.{
  ℕ, zero, suc, ◌+◌, ◌-◌, ◌*◌, ◌/◌, Bool, true, false, ◌&&◌, ◌||◌, not, List, [], ◌∷◌, ◌++◌, none,
  some, if◌then◌else◌, ltb, leb, ◌==◌, add64, sub64, Content,
}
use xrd_ucache.Base.PageMap.{find, erase}
use xrd_ucache.Bitmap
use xrd_ucache.Sidecar.{page_bytes}
use xrd_ucache.Entry.{Entry, BufPage, retract_page}

-- A released span of the data file, and how many of its bytes were on disk.
pub record ReleasedSpan : Type 0 where
  pub off : ℕ
  pub len : ℕ
  pub resident : ℕ

-- The locals of the locked part.
pub record Releasing : Type 0 where
  pub entry : Entry
  pub resident : ℕ
  pub any : Bool
  pub unread : ℕ
  pub spans : List ReleasedSpan

-- A staged page leaves the buffer, and its bytes leave their pool.
unfoldable pub unstage : ℕ → BufPage → Releasing → Releasing
unfolding erase page_bytes
unstage i p s =
    let e = s.entry in
    let n = page_bytes e.meta i in
    let pools = e.pools in
    if p.spec
    then record s {
      entry = record e {
        buf = erase i e.buf;
        spec_bytes = sub64 e.spec_bytes n;
        pools = record pools { spec_total = sub64 pools.spec_total n };
      };
      unread = if p.touched then s.unread else s.unread + n;
    }
    else record s {
      entry = record e {
        buf = erase i e.buf;
        buf_bytes = sub64 e.buf_bytes n;
        pools = record pools { buf_total = sub64 pools.buf_total n };
      };
    }

unfoldable pub unstage_any : ℕ → Releasing → Releasing
unfolding unstage find
unstage_any i s = elim (find i s.entry.buf) [ some p ↦ unstage i p s | none ↦ s ]

-- The body of the loop over a range's pages.
unfoldable pub release_page : ℕ → Releasing → Releasing
unfolding unstage_any retract_page page_bytes
release_page i s =
    let s' = unstage_any i s in
    if Bitmap.get s'.entry.meta.bitmap i
    then record s' {
      entry = retract_page s'.entry i;
      resident = s'.resident + page_bytes s'.entry.meta i;
      any = true;
    }
    else s'

unfoldable pub release_pages : ℕ → ℕ → Releasing → Releasing
unfolding release_page
release_pages zero i s = s
release_pages (suc rounds) i s = release_pages rounds (i + 1) (release_page i s)

-- A range that the loop passes over: empty, wrapping, or past the file's end.
unfoldable pub skipped : Entry → ℕ × ℕ → Bool
skipped e r = r.1 == 0 || (ltb (add64 r.0 r.1) r.0 || ltb e.meta.file_size (add64 r.0 r.1))

-- The first page wholly in a range, and one past the last. The sums wrap.
unfoldable pub first_in : Entry → ℕ × ℕ → ℕ
first_in e r = sub64 (add64 r.0 e.meta.page_size) 1 / e.meta.page_size

unfoldable pub stop_in : Entry → ℕ × ℕ → ℕ
stop_in e r = add64 r.0 r.1 / e.meta.page_size

-- The pages of a range, and its span.
unfoldable pub release_span : ℕ → ℕ → Releasing → Releasing
unfolding release_pages
release_span first stop s =
    let s' = release_pages (stop - first) first (record s { resident = 0 }) in
    let e = s'.entry in
    let m = e.meta in
    record s' {
      entry = record e { meta = record m { complete = false } };
      spans =
          s'.spans
          ++ record {
            off = first * m.page_size;
            len = (stop - first) * m.page_size;
            resident = s'.resident;
          }
            ∷ [];
    }

unfoldable pub release_range : ℕ × ℕ → Releasing → Releasing
unfolding skipped first_in stop_in release_span
release_range r s =
    if skipped s.entry r
    then s
    else if leb (stop_in s.entry r) (first_in s.entry r)
    then s
    else release_span (first_in s.entry r) (stop_in s.entry r) s

unfoldable pub release_all : List (ℕ × ℕ) → Releasing → Releasing
unfolding release_range
release_all [] s = s
release_all (r ∷ ranges) s = release_all ranges (release_range r s)

-- Up to `flushMeta`, with the spans to punch.
unfoldable pub release_begin : List (ℕ × ℕ) → Entry → Entry × List ReleasedSpan
unfolding release_all
release_begin ranges e =
    let s =
      release_all ranges
        (record { entry = e; resident = 0; any = false; unread = 0; spans = [] }) in
    let e' = s.entry in
    let pools = e'.pools in
    (
      record e' {
        dirty = s.any || e'.dirty;
        pools = record pools { spec_dropped = add64 pools.spec_dropped s.unread };
      },
      s.spans,
    )

-- A hole reads as zeros.
unfoldable pub punch_hole : Content → ℕ → ℕ → Content
punch_hole f off len x = if leb off x && ltb x (off + len) then 0 else f x

-- After `flushMeta`: which calls succeed is a parameter. The answer is the bytes freed.
unfoldable pub release_end : (ℕ → Bool) → ℕ → List ReleasedSpan → Entry → Entry × ℕ
unfolding punch_hole
release_end works k [] e = (e, 0)
release_end works k (sp ∷ spans) e =
    let e' = if works k then record e { data_file = punch_hole e.data_file sp.off sp.len } else e in
    let rest = release_end works (k + 1) spans e' in
    (rest.0, if works k then sp.resident + rest.1 else rest.1)
