-- ===== src/Entry/Release/Punch.antt =====
-- src/core/FileEntry.cc: the punching of `releaseRanges` touches no page that is still present.
use xrd_ucache.Base.{
  ℕ, zero, suc, ◌+◌, ◌-◌, ◌*◌, ◌≤◌, ◌<◌, ◌≡◌, ◌⊎◌, refl, arith, Bool, true, false, List, [], ◌∷◌,
  Content, All, All-append, leb, Bool-cases, inl, inr, sym, ◌∙◌, mul_mono,
}
use mathlib.Core.Path.{subst}
use xrd_ucache.Base.PageMapLaws.{holds-find}
use xrd_ucache.Bitmap
use xrd_ucache.Sidecar.{MetaData, npages, page_bytes}
use xrd_ucache.Entry.{Entry}
use xrd_ucache.Entry.Stage.{within}
use xrd_ucache.Entry.Intact.{IsIntact, SameShape}
use xrd_ucache.Entry.Release.{
  ReleasedSpan, Releasing, unstage_any, unstage, release_page, release_pages, release_span,
  release_range, release_all, release_begin, release_end, punch_hole, skipped, first_in, stop_in,
}
use xrd_ucache.Entry.Release.Whole.{in_range, released, IsWords, in_range-within}
use xrd_ucache.Entry.Release.Pages.{release_range-Frees, release_pages-Frees, stop_in-npages}
use xrd_ucache.Entry.Release.Intact.{released-shape}

-- No byte of page j is in the span.
abbrev pub Away : ℕ → ℕ → ReleasedSpan → Type 0
Away p j sp = (suc j * p ≤ sp.off) ⊎ (sp.off + sp.len ≤ j * p)

span_of_pages : (first stop p : ℕ) → first ≤ stop → first * p + (stop - first) * p ≡ stop * p
span_of_pages first stop p h =
    let whole : stop ≡ first + (stop - first) = omega arith in grind arith

outside-Away :
    (first stop p j n : ℕ)
    → first ≤ stop
    → within first stop j ≡ false
    → Away p j (record { off = first * p; len = (stop - first) * p; resident = n })
outside-Away first stop p j n order out =
    let whole = span_of_pages first stop p order in
    elim (Bool-cases (leb first j)) [
      | inl c ↦
          let above : stop ≤ j = ground (arith, c, out) in
          let past = mul_mono stop j p above in inr (omega arith)
      | inr c ↦
          let below : suc j ≤ first = ground (arith, c) in
          let before = mul_mono (suc j) first p below in inl (omega arith)
    ]

unstage_any-spans : (i : ℕ) (s : Releasing) → (unstage_any i s).spans ≡ s.spans
unfolding unstage_any unstage
unstage_any-spans i s = elim (holds-find i s.entry.buf) [
  | inl (_, absent) ↦ rw (absent, unstage_any) refl
  | inr (p, _, there) ↦
      rw (there, unstage_any)
        (elim (Bool-cases p.spec) [ inl c ↦ rw (c, unstage) refl | inr c ↦ rw (c, unstage) refl ])
]

release_page-spans : (i : ℕ) (s : Releasing) → (release_page i s).spans ≡ s.spans
unfolding release_page
release_page-spans i s = elim (Bool-cases (Bitmap.get (unstage_any i s).entry.meta.bitmap i)) [
  | inl c ↦ rw (c, release_page) (unstage_any-spans i s)
  | inr c ↦ rw (c, release_page) (unstage_any-spans i s)
]

release_pages-spans : (rounds i : ℕ) (s : Releasing) → (release_pages rounds i s).spans ≡ s.spans
unfolding release_pages
release_pages-spans zero i s = refl
release_pages-spans (suc rounds) i s =
    release_pages-spans rounds (i + 1) (release_page i s) ∙ release_page-spans i s

module _ (crc : List ℕ → ℕ) (origin : Content) where
  release_span-Away :
      (first stop j : ℕ) (s : Releasing)
      → IsIntact crc origin s.entry
      → first ≤ stop
      → stop ≤ npages s.entry.meta
      → within first stop j ≡ false
      → All (Away s.entry.meta.page_size j) s.spans
      → All (Away s.entry.meta.page_size j) (release_span first stop s).spans
  unfolding release_span
  release_span-Away first stop j s v order room out a =
      let s' = release_pages (stop - first) first (record s { resident = 0 }) in
      let f =
        release_pages-Frees crc origin (stop - first) first (record s { resident = 0 }) v
          (omega arith) in
      let p = s.entry.meta.page_size in
      let here =
        subst
          (λ q.
            Away p j (record { off = first * q; len = (stop - first) * q; resident = s'.resident }))
          (sym f.same.page) (outside-Away first stop p j s'.resident order out) in
      let before =
        subst (All (Away p j))
          (sym (release_pages-spans (stop - first) first (record s { resident = 0 }))) a in
      All-append (Away p j) s'.spans _ before (here, tt)

  release_range-Away :
      (r : ℕ × ℕ) (j : ℕ) (s : Releasing)
      → IsIntact crc origin s.entry
      → IsWords r
      → in_range s.entry r j ≡ false
      → All (Away s.entry.meta.page_size j) s.spans
      → All (Away s.entry.meta.page_size j) (release_range r s).spans
  unfolding release_range
  release_range-Away r j s v w out a = elim (Bool-cases (skipped s.entry r)) [
    | inl c ↦ rw (c, release_range) a
    | inr c ↦ elim (Bool-cases (leb (stop_in s.entry r) (first_in s.entry r))) [
      | inl d ↦ rw (c, d, release_range) a
      | inr d ↦
          rw (c, d, release_range)
            (release_span-Away (first_in s.entry r) (stop_in s.entry r) j s v (ground (arith, d))
              (stop_in-npages s.entry r v.page c)
              (in_range-within s.entry r j w v.page v.fits c ∙ out) a)
    ]
  ]

  release_all-Away :
      (ranges : List (ℕ × ℕ)) (j p : ℕ) (s : Releasing)
      → IsIntact crc origin s.entry
      → All IsWords ranges
      → s.entry.meta.page_size ≡ p
      → released s.entry ranges j ≡ false
      → All (Away p j) s.spans
      → All (Away p j) (release_all ranges s).spans
  unfolding release_all released
  release_all-Away [] j p s v w e out a = a
  release_all-Away (r ∷ ranges) j p s v w e out a =
      let f = release_range-Frees crc origin r s v w.0 in
      let t = release_range r s in
      let later = released-shape s.entry t.entry ranges j f.same in
      let here : in_range s.entry r j ≡ false = ground (arith, out) in
      let rest : released t.entry ranges j ≡ false = later ∙ ground (arith, out) in
      let b = release_range-Away r j s v w.0 here (subst (λ q. All (Away q j) s.spans) (sym e) a) in
      release_all-Away ranges j p t f.intact w.1 (f.same.page ∙ e) rest
        (subst (λ q. All (Away q j) t.spans) e b)

  punched_byte :
      (f : Content) (off len x : ℕ) → (x < off) ⊎ (off + len ≤ x) → punch_hole f off len x ≡ f x
  unfolding punch_hole
  punched_byte f off len x h = ground arith

  page_bytes-bound : (m : MetaData) (i : ℕ) → page_bytes m i ≤ m.page_size
  unfolding page_bytes
  page_bytes-bound m i = ground arith

  punch-IsIntact :
      (e : Entry) (sp : ReleasedSpan)
      → IsIntact crc origin e
      → ((j : ℕ)
          → j < npages e.meta
          → Bitmap.get e.meta.bitmap j ≡ true
          → Away e.meta.page_size j sp)
      → IsIntact crc origin (record e { data_file = punch_hole e.data_file sp.off sp.len })
  punch-IsIntact e sp v away = record {
    consistent =
        let c = v.consistent in
        record {
          sized = c.sized;
          set_valid = c.set_valid;
          set_bits = c.set_bits;
          cleared_valid = c.cleared_valid;
          cleared_bits = c.cleared_bits;
        };
    page = v.page;
    fits = v.fits;
    staged = v.staged;
    staged_sorted = v.staged_sorted;
    writing = v.writing;
    present = λ j h on.
        let s = v.present j h on in
        let n = page_bytes-bound e.meta j in
        record {
          inside = s.inside;
          sum = s.sum;
          bytes = λ x lo hi.
              punched_byte e.data_file sp.off sp.len x
                (elim (away j h on) [ inl b ↦ inl (omega arith) | inr b ↦ inr (omega arith) ])
              ∙ s.bytes x lo hi;
        };
  }

  spans_end-IsIntact :
      (works : ℕ → Bool) (k : ℕ) (spans : List ReleasedSpan) (e : Entry)
      → IsIntact crc origin e
      → ((j : ℕ)
          → j < npages e.meta
          → Bitmap.get e.meta.bitmap j ≡ true
          → All (Away e.meta.page_size j) spans)
      → IsIntact crc origin (release_end works k spans e).0
  unfolding release_end
  spans_end-IsIntact works k [] e v away = v
  spans_end-IsIntact works k (sp ∷ spans) e v away = elim (Bool-cases (works k)) [
    | inl c ↦
        let w = punch-IsIntact e sp v (λ j h on. (away j h on).0) in
        rw c (spans_end-IsIntact works (k + 1) spans _ w (λ j h on. (away j h on).1))
    | inr c ↦ rw c (spans_end-IsIntact works (k + 1) spans e v (λ j h on. (away j h on).1))
  ]

  -- For ranges of 64-bit words and a file that ends a page below 2 ^ 64, the punching of a release
  -- leaves an entry intact whose pages in the ranges are not present when it comes, whatever other
  -- steps came since the locked part and whichever of the calls fail: only bytes of pages that lie
  -- wholly in a range are touched.
  pub release_end-IsIntact :
      (ranges : List (ℕ × ℕ)) (works : ℕ → Bool) (e later : Entry)
      → IsIntact crc origin e
      → IsIntact crc origin later
      → All IsWords ranges
      → SameShape e.meta later.meta
      → ((j : ℕ) → released e ranges j ≡ true → Bitmap.get later.meta.bitmap j ≡ false)
      → IsIntact crc origin (release_end works 0 (release_begin ranges e).1 later).0
  unfolding release_begin
  release_end-IsIntact ranges works e later v w words same gone =
      let start : Releasing = record {
        entry = e;
        resident = 0;
        any = false;
        unread = 0;
        spans = [];
      } in
      spans_end-IsIntact works 0 (release_all ranges start).spans later w (λ j h on.
        elim (Bool-cases (released e ranges j)) [
          | inl c ↦ absurd (clash (sym on ∙ gone j c))
          | inr c ↦
              subst (λ p. All (Away p j) (release_all ranges start).spans) (sym same.page)
                (release_all-Away ranges j e.meta.page_size start v words refl c tt)
        ])
    where
      clash : true ≡ false → ⊥
      clash t = absurd (cc)
