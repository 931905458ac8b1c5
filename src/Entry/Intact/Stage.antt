-- ===== src/Entry/Intact/Stage.antt =====
-- src/core/FileEntry.cc: the fill buffer's operations keep an entry intact.
use xrd_ucache.Base.{
  ℕ, zero, suc, ◌+◌, ◌-◌, ◌*◌, ◌≤◌, ◌<◌, ◌≡◌, refl, ap, ◌∙◌, Bool, true, false, ◌||◌, List, Content,
  slice, arith, div_mul_bounds, mul_mono, ◌==◌, if◌then◌else◌, take, drop, take-drop-slice,
  Bool-cases, inl, inr, leb, ◌^◌, add64, sub64, sub64-add64,
}
use xrd_ucache.Base.PageMap.{PageMap, Each, SortedFrom, holds, emplace}
use xrd_ucache.Base.PageMapLaws.{
  holds-find, Each-find, Each-emplace, Each-assign, emplace-SortedFrom, assign-SortedFrom,
}
use xrd_ucache.Bitmap
use xrd_ucache.Sidecar.{MetaData, npages, page_bytes}
use xrd_ucache.Entry.{Entry, BufPage, Pools}
use xrd_ucache.Entry.Intact.{IsGood, IsIntact, origin_page, page_of_file}
use xrd_ucache.Entry.Stage.{
  Staging, unmark_speculative, new_page, write_page, guess_page, staging_loop, nothing_staged,
  page_inside, request_end, first_whole_page, stage_write, stage_speculative,
}

module _ (crc : List ℕ → ℕ) (origin : Content) where
  -- Putting another buffer of good pages in its place keeps the entry intact.
  pub with_buf-IsIntact :
      (e : Entry) (buf : PageMap BufPage) (buf_bytes spec_bytes : ℕ) (pools : Pools)
      → IsIntact crc origin e
      → Each (IsGood crc origin e.meta) buf
      → SortedFrom 0 buf
      → IsIntact crc origin
          (record e { buf = buf; buf_bytes = buf_bytes; spec_bytes = spec_bytes; pools = pools })
  with_buf-IsIntact e buf buf_bytes spec_bytes pools v good sorted =
      let c = v.consistent in
      record {
        consistent = record {
          sized = c.sized;
          set_valid = c.set_valid;
          set_bits = c.set_bits;
          cleared_valid = c.cleared_valid;
          cleared_bits = c.cleared_bits;
        };
        page = v.page;
        fits = v.fits;
        staged = good;
        staged_sorted = sorted;
        writing = v.writing;
        present = v.present;
      }

  -- The slice that the loop stages as page i has the origin's bytes.
  new_page-IsGood :
      (off len i : ℕ) (spec : Bool) (e : Entry)
      → 0 < e.meta.page_size
      → off ≤ i * e.meta.page_size
      → i * e.meta.page_size < e.meta.file_size
      → i * e.meta.page_size + page_bytes e.meta i ≤ off + len
      → IsGood crc origin e.meta i (new_page crc off (slice origin off len) e i spec)
  unfolding new_page
  new_page-IsGood off len i spec e pos lo hi fit = record {
    inside = page_of_file e.meta i pos hi;
    bytes = payload;
    sum = ap crc payload;
  }
    where
      payload :
          take (page_bytes e.meta i) (drop (i * e.meta.page_size - off) (slice origin off len))
          ≡ origin_page crc origin e.meta i
      payload =
          take-drop-slice origin off len (i * e.meta.page_size - off) (page_bytes e.meta i)
            (omega arith)
          ∙ ap (λ at. slice origin at (page_bytes e.meta i)) (omega arith)

  module _ (off len : ℕ) where
    -- What the loop knows of page i before its body.
    record IsInRequest (m : MetaData) (i : ℕ) : Type 0 where
      lo : off ≤ i * m.page_size
      inside_file : i * m.page_size < m.file_size
      fit : i * m.page_size + page_bytes m i ≤ off + len

    bytes : List ℕ
    bytes = slice origin off len

    meta-write_page :
        (i : ℕ) (s : Staging) → (write_page crc off bytes i s).entry.meta ≡ s.entry.meta
    unfolding write_page unmark_speculative
    meta-write_page i s = ground arith

    if-IsIntact :
        (b : Bool) (s t : Staging)
        → IsIntact crc origin s.entry
        → IsIntact crc origin t.entry
        → IsIntact crc origin (if b then s else t).entry
    if-IsIntact true s t v w = v
    if-IsIntact false s t v w = w

    -- The entry with page i staged, whatever its counters.
    staged_new :
        (i : ℕ) (spec : Bool) (s : Staging) {buf_bytes spec_bytes : ℕ}
        → IsIntact crc origin s.entry
        → IsInRequest s.entry.meta i
        → IsIntact crc origin (record (s.entry) {
          buf = emplace i (new_page crc off bytes s.entry i spec) s.entry.buf;
          buf_bytes = buf_bytes;
          spec_bytes = spec_bytes;
        })
    unfolding bytes
    staged_new i spec s {buf_bytes} {spec_bytes} v h =
        let page = new_page crc off bytes s.entry i spec in
        let good = new_page-IsGood off len i spec s.entry v.page h.lo h.inside_file h.fit in
        with_buf-IsIntact s.entry (emplace i page s.entry.buf) buf_bytes spec_bytes s.entry.pools v
          (Each-emplace (IsGood crc origin s.entry.meta) i page s.entry.buf v.staged good)
          (emplace-SortedFrom 0 i page s.entry.buf (omega arith) v.staged_sorted)

    write_page-IsIntact :
        (i : ℕ) (s : Staging)
        → IsIntact crc origin s.entry
        → IsInRequest s.entry.meta i
        → IsIntact crc origin (write_page crc off bytes i s).entry
    unfolding write_page unmark_speculative bytes
    write_page-IsIntact i s v h = elim (holds-find i s.entry.buf) [
      | inr (p, _, there) ↦
          let g = Each-find (IsGood crc origin s.entry.meta) i p s.entry.buf v.staged there in
          let real : IsGood crc origin s.entry.meta i (record p { spec = false }) = record {
            inside = g.inside;
            bytes = g.bytes;
            sum = g.sum;
          } in
          rw (there, write_page)
            (if-IsIntact p.spec _ _
              (with_buf-IsIntact s.entry _ _ _ s.entry.pools v
                (Each-assign (IsGood crc origin s.entry.meta) i _ s.entry.buf v.staged real)
                (assign-SortedFrom 0 i _ s.entry.buf v.staged_sorted))
              v)
      | inl (_, absent) ↦
          rw (absent, write_page)
            (if-IsIntact (Bitmap.get s.entry.meta.bitmap i || holds i s.entry.flushing) _ _ v
              (staged_new i false s v h))
    ]

    guess_page-IsIntact :
        (i : ℕ) (s : Staging)
        → IsIntact crc origin s.entry
        → IsInRequest s.entry.meta i
        → IsIntact crc origin (guess_page crc off bytes i s).entry
    unfolding guess_page
    guess_page-IsIntact i s v h = if-IsIntact _ _ _ v (staged_new i true s v h)

    meta-guess_page :
        (i : ℕ) (s : Staging) → (guess_page crc off bytes i s).entry.meta ≡ s.entry.meta
    unfolding guess_page
    meta-guess_page i s = ground arith

    module _ (body : ℕ → Staging → Staging)
        (meta-body : (i : ℕ) (s : Staging) → (body i s).entry.meta ≡ s.entry.meta)
        (keeps : (i : ℕ) (s : Staging)
          → IsIntact crc origin s.entry
          → IsInRequest s.entry.meta i
          → IsIntact crc origin (body i s).entry) where
      staging_loop-IsIntact :
          (fuel end i : ℕ) (s : Staging)
          → IsIntact crc origin s.entry
          → off ≤ i * s.entry.meta.page_size
          → end ≤ off + len
          → end ≤ s.entry.meta.file_size
          → IsIntact crc origin (staging_loop body fuel end i s).entry
      unfolding staging_loop page_inside
      staging_loop-IsIntact zero end i s v lo fit size = v
      staging_loop-IsIntact (suc fuel) end i s v lo fit size =
          elim (Bool-cases (page_inside s.entry end i)) [
            | inr out ↦ rw (out, staging_loop) v
            | inl goes ↦
                let here : IsInRequest s.entry.meta i = record {
                  lo = lo;
                  inside_file = ground arith;
                  fit = ground arith;
                } in
                rw (goes, staging_loop)
                  (staging_loop-IsIntact fuel end (i + 1) (body i s) (keeps i s v here)
                    (rw (meta-body i s) (omega (arith, mul_mono i (i + 1) s.entry.meta.page_size)))
                    fit (rw (meta-body i s) size))
          ]

      meta-staging_loop :
          (fuel end i : ℕ) (s : Staging)
          → (staging_loop body fuel end i s).entry.meta ≡ s.entry.meta
      unfolding staging_loop
      meta-staging_loop zero end i s = refl
      meta-staging_loop (suc fuel) end i s = elim (Bool-cases (page_inside s.entry end i)) [
        | inr out ↦ rw (out, staging_loop) refl
        | inl goes ↦
            rw (goes, staging_loop) (meta-staging_loop fuel end (i + 1) (body i s) ∙ meta-body i s)
      ]

  -- The first page of the loop starts at the request or after it.
  first_page_after :
      (off : ℕ) (e : Entry)
      → 0 < e.meta.page_size
      → off + e.meta.page_size ≤ 2 ^ 64
      → off ≤ first_whole_page e off * e.meta.page_size
  unfolding first_whole_page
  first_page_after off e pos room =
      let top : sub64 (add64 off e.meta.page_size) 1 ≡ off + e.meta.page_size - 1 =
        sub64-add64 off e.meta.page_size pos room in
      rw top (omega (arith, div_mul_bounds (off + e.meta.page_size - 1) e.meta.page_size pos))

  -- A request that begins before the end of the file.
  room_after :
      (off len : ℕ) (e : Entry)
      → IsIntact crc origin e
      → leb (request_end e off len) off ≡ false
      → off + e.meta.page_size ≤ 2 ^ 64
  unfolding request_end
  room_after off len e v c =
      let before : off < e.meta.file_size = ground (arith, c) in let fits = v.fits in omega arith

  -- Staging a demand read's bytes keeps an intact entry intact: whatever part of a read of the
  -- origin's bytes is staged, each staged page has the origin's bytes and their checksum.
  pub stage_write-IsIntact :
      (off len : ℕ) (e : Entry)
      → IsIntact crc origin e
      → IsIntact crc origin (stage_write crc off len (slice origin off len) e).entry
  unfolding stage_write request_end bytes
  stage_write-IsIntact off len e v = elim (Bool-cases (leb (request_end e off len) off)) [
    | inl past ↦ rw (past, stage_write) v
    | inr inside ↦
        rw (inside, stage_write)
          (staging_loop-IsIntact off len (write_page crc off (slice origin off len))
            (meta-write_page off len) (write_page-IsIntact off len) (npages e.meta)
            (request_end e off len) (first_whole_page e off) (nothing_staged e) v
            (first_page_after off e v.page (room_after off len e v inside)) (omega arith)
            (omega arith))
  ]

  -- The same for the bytes of a read-ahead.
  pub stage_speculative-IsIntact :
      (fill_buffer_mb off len : ℕ) (e : Entry)
      → IsIntact crc origin e
      → IsIntact crc origin
          (stage_speculative crc fill_buffer_mb off len (slice origin off len) e).0
  unfolding stage_speculative request_end bytes
  stage_speculative-IsIntact fill_buffer_mb off len e v =
      elim (Bool-cases (len == 0 || fill_buffer_mb == 0 || leb (request_end e off len) off)) [
        | inl nothing ↦ rw (nothing, stage_speculative) v
        | inr some_page ↦
            let w =
              staging_loop-IsIntact off len (guess_page crc off (slice origin off len))
                (meta-guess_page off len) (guess_page-IsIntact off len) (npages e.meta)
                (request_end e off len) (first_whole_page e off) (nothing_staged e) v
                (first_page_after off e v.page (room_after off len e v (ground (arith, some_page))))
                (omega arith) (omega arith) in
            rw (some_page, stage_speculative)
              (with_buf-IsIntact _ _ _ _ _ w w.staged w.staged_sorted)
      ]
