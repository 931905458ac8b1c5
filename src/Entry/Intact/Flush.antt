-- ===== src/Entry/Intact/Flush.antt =====
-- src/core/FileEntry.cc: `flushBuffer` keeps an entry intact, in each of its three parts.
use xrd_ucache.Base.{
  ℕ, ◌<◌, ◌≡◌, refl, ◌∙◌, Bool, true, List, [], ◌∷◌, Content, get_or, arith, ◌==◌, Bool-cases, inl,
  inr, length-set, ==_iff, Option,
}
use mathlib.Core.Path.{subst}
use xrd_ucache.Base.{set as write}
use xrd_ucache.Base.PageMap.{PageMap, Each, select}
use xrd_ucache.Base.PageMapLaws.{Each-map, Each-select, select-SortedFrom}
use xrd_ucache.Bitmap
use xrd_ucache.Bitmap.Laws.{get-set, get_or-write}
use xrd_ucache.Bitmap.Counts.{set-IsValid, clear-IsValid, npages-set, npages-clear}
use xrd_ucache.Sidecar.{MetaData, npages}
use xrd_ucache.Entry.{Entry, Pools, IsConsistent, publish_page}
use xrd_ucache.Entry.Intact.{
  IsGood, IsReal, IsStored, IsIntact, SameShape, IsGood-shape, IsReal-shape, IsStored-shape,
}
use xrd_ucache.Entry.Flush.{snapshot_taken, is_real, is_guess, publish_all, mark_complete}

publish_page-IsConsistent :
    (e : Entry) (i c : ℕ) → IsConsistent e → i < npages e.meta → IsConsistent (publish_page e i c)
unfolding publish_page npages
publish_page-IsConsistent e i c v h =
    let m = e.meta in
    let s = v.sized in
    record {
      sized = record {
        valid = set-IsValid m.bitmap i s.valid (omega (arith, s.bits));
        bits = npages-set m.bitmap i ∙ s.bits;
        crcs = length-set m.page_crcs i c ∙ s.crcs;
      };
      set_valid = set-IsValid e.set_since i v.set_valid (omega (arith, v.set_bits));
      set_bits = npages-set e.set_since i ∙ v.set_bits;
      cleared_valid =
          clear-IsValid e.cleared_since i v.cleared_valid (omega (arith, v.cleared_bits));
      cleared_bits = npages-clear e.cleared_since i ∙ v.cleared_bits;
    }

published_shape : (e : Entry) (i c : ℕ) → SameShape e.meta (publish_page e i c).meta
unfolding publish_page
published_shape e i c = record { page = refl; size = refl }

module _ (crc : List ℕ → ℕ) (origin : Content) where
  published_present :
      (e : Entry) (i c : ℕ)
      → IsIntact crc origin e
      → IsStored crc origin e.meta e.data_file i c
      → (j : ℕ) → j < npages e.meta
      → Bitmap.get (publish_page e i c).meta.bitmap j ≡ true
      → IsStored crc origin e.meta e.data_file j (get_or (publish_page e i c).meta.page_crcs j 0)
  unfolding publish_page
  published_present e i c v s j h on =
      let z = v.consistent.sized in
      let bit = get-set e.meta.bitmap i j z.valid (omega (arith, s.inside, z.bits)) in
      let crcs = get_or-write e.meta.page_crcs i j c (omega (arith, s.inside, z.crcs)) in
      elim (Bool-cases (i == j)) [
        | inl same ↦
            let path : i ≡ j = (==_iff i j).0 same in
            let sum : get_or (write e.meta.page_crcs i c) j 0 ≡ c = ground (arith, crcs, same) in
            rw sum (subst (λ k. IsStored crc origin e.meta e.data_file k c) path s)
        | inr other ↦
            let sum : get_or (write e.meta.page_crcs i c) j 0 ≡ get_or e.meta.page_crcs j 0 =
              ground (arith, crcs, other) in
            rw sum (v.present j h (ground (arith, bit, on, other)))
      ]

  publish_page-IsIntact :
      (e : Entry) (i c : ℕ)
      → IsIntact crc origin e
      → IsStored crc origin e.meta e.data_file i c
      → IsIntact crc origin (publish_page e i c)
  unfolding publish_page npages
  publish_page-IsIntact e i c v s =
      let same = published_shape e i c in
      let m' = (publish_page e i c).meta in
      record {
        consistent = publish_page-IsConsistent e i c v.consistent s.inside;
        page = v.page;
        fits = v.fits;
        staged = Each-map _ _ e.buf (IsGood-shape crc origin e.meta m' same) v.staged;
        staged_sorted = v.staged_sorted;
        writing = Each-map _ _ e.flushing (IsReal-shape crc origin e.meta m' same) v.writing;
        present = λ j h on.
            IsStored-shape crc origin e.meta m' same e.data_file j _
              (published_present e i c v s j h on);
      }

  pub publish_all-IsIntact :
      (pages : PageMap ℕ) (e : Entry)
      → IsIntact crc origin e
      → Each (IsStored crc origin e.meta e.data_file) pages
      → IsIntact crc origin (publish_all pages e)
  unfolding publish_all publish_page
  publish_all-IsIntact [] e v a = v
  publish_all-IsIntact ((i, c) ∷ pages) e v a =
      publish_all-IsIntact pages (publish_page e i c) (publish_page-IsIntact e i c v a.0) (
        Each-map _ _ pages
          (IsStored-shape crc origin e.meta (publish_page e i c).meta (published_shape e i c)
            e.data_file)
          a.1)

  -- Flags, times, counters and the sidecar do not matter.
  pub rest-IsIntact :
      (e : Entry) {pinned complete dirty pin_touched flush_in_progress : Bool}
      {atime last_flush buf_bytes spec_bytes last_buf_flush : ℕ} {pools : Pools}
      {sidecar : Option MetaData}
      → IsIntact crc origin e
      → IsIntact crc origin (record e {
        meta = record (e.meta) { pinned = pinned; complete = complete; atime = atime };
        dirty = dirty;
        pin_touched = pin_touched;
        flush_in_progress = flush_in_progress;
        last_flush = last_flush;
        buf_bytes = buf_bytes;
        spec_bytes = spec_bytes;
        last_buf_flush = last_buf_flush;
        pools = pools;
        sidecar = sidecar;
      })
  unfolding npages
  rest-IsIntact e {pinned} {complete} {atime} v =
      let c = v.consistent in
      let m' = record (e.meta) { pinned = pinned; complete = complete; atime = atime } in
      let same : SameShape e.meta m' = record { page = refl; size = refl } in
      record {
        consistent = record {
          sized = record { valid = c.sized.valid; bits = c.sized.bits; crcs = c.sized.crcs };
          set_valid = c.set_valid;
          set_bits = c.set_bits;
          cleared_valid = c.cleared_valid;
          cleared_bits = c.cleared_bits;
        };
        page = v.page;
        fits = v.fits;
        staged = Each-map _ _ e.buf (IsGood-shape crc origin e.meta m' same) v.staged;
        staged_sorted = v.staged_sorted;
        writing = Each-map _ _ e.flushing (IsReal-shape crc origin e.meta m' same) v.writing;
        present =
            λ j h on. IsStored-shape crc origin e.meta m' same e.data_file j _ (v.present j h on);
      }

  pub mark_complete-IsIntact :
      (e : Entry) → IsIntact crc origin e → IsIntact crc origin (mark_complete e)
  unfolding mark_complete
  mark_complete-IsIntact e v = elim (Bool-cases (e.meta.bitmap.count == npages e.meta)) [
    | inl all_here ↦ rw (all_here, mark_complete) (rest-IsIntact e v)
    | inr missing ↦ rw (missing, mark_complete) v
  ]

  -- The snapshot of an intact entry is intact: only demanded pages are to be written.
  pub snapshot_taken-IsIntact :
      (e : Entry) → IsIntact crc origin e → IsIntact crc origin (snapshot_taken e)
  unfolding snapshot_taken is_real is_guess
  snapshot_taken-IsIntact e v =
      let c = v.consistent in
      record {
        consistent = record {
          sized = c.sized;
          set_valid = c.set_valid;
          set_bits = c.set_bits;
          cleared_valid = c.cleared_valid;
          cleared_bits = c.cleared_bits;
        };
        page = v.page;
        fits = v.fits;
        staged =
            Each-map _ (IsGood crc origin e.meta) (select is_guess e.buf) (λ i p g. g.0)
              (Each-select _ is_guess e.buf v.staged);
        staged_sorted = select-SortedFrom is_guess 0 e.buf v.staged_sorted;
        writing =
            Each-map _ (IsReal crc origin e.meta) (select is_real e.buf)
              (λ i p g. record { good = g.0; demanded = ground arith })
              (Each-select _ is_real e.buf v.staged);
        present = v.present;
      }
