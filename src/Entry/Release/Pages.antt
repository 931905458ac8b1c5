-- ===== src/Entry/Release/Pages.antt =====
-- src/core/FileEntry.cc: which pages the locked part of `releaseRanges` takes away.
use xrd_ucache.Base.{
  ℕ, zero, suc, ◌+◌, ◌-◌, ◌*◌, ◌/◌, ◌≤◌, ◌<◌, ◌≡◌, refl, arith, Bool, true, false, ◌&&◌, ◌||◌, not,
  List, Content, none, if◌then◌else◌, leb, ◌==◌, add64, Bool-cases, inl, inr, sym, ap, ◌∙◌,
  div_mul_bounds, ◌^◌,
}
use xrd_ucache.Base.PageMap.{find}
use xrd_ucache.Base.PageMapLaws.{holds-find, Each-erase, erase-SortedFrom, find-erase}
use xrd_ucache.Bitmap
use xrd_ucache.Bitmap.Laws.{get-clear}
use xrd_ucache.Sidecar.{MetaData, npages}
use xrd_ucache.Entry.{Entry, retract_page}
use xrd_ucache.Entry.Stage.{within}
use xrd_ucache.Entry.Intact.{IsIntact, IsGood, SameShape, page_of_file}
use xrd_ucache.Entry.Intact.Stage.{with_buf-IsIntact}
use xrd_ucache.Entry.Intact.Flush.{rest-IsIntact}
use xrd_ucache.Entry.Intact.Demote.{retract_page-IsIntact}
use xrd_ucache.Entry.Release.Whole.{in_range, IsWords, in_range-skipped, in_range-within}
use xrd_ucache.Entry.Release.{
  Releasing, unstage, unstage_any, release_page, release_pages, release_span, release_range,
  skipped, first_in, stop_in,
}

pub SameShape-npages : (m m' : MetaData) → SameShape m m' → npages m' ≡ npages m
unfolding npages
SameShape-npages m m' same = rw (same.page, same.size) refl

pages_below :
    (m : MetaData) (stop : ℕ) → 0 < m.page_size → stop * m.page_size ≤ m.file_size → stop ≤ npages m
pages_below m zero pos h = omega arith
pages_below m (suc k) pos h = let inside = page_of_file m k pos (omega arith) in omega arith

-- A range that is not passed over ends in the file.
pub stop_in-npages :
    (e : Entry) (r : ℕ × ℕ)
    → 0 < e.meta.page_size
    → skipped e r ≡ false
    → stop_in e r ≤ npages e.meta
unfolding skipped stop_in
stop_in-npages e r pos c =
    let b = div_mul_bounds (add64 r.0 r.1) e.meta.page_size pos in
    let inside : add64 r.0 r.1 ≤ e.meta.file_size = ground (arith, c) in
    pages_below e.meta (add64 r.0 r.1 / e.meta.page_size) pos (omega (arith, b, inside))

module _ (crc : List ℕ → ℕ) (origin : Content) where
  -- An intact entry from which some pages are gone, in the buffer and on disk, and no others.
  pub record Frees (gone : ℕ → Bool) (e e' : Entry) : Type 0 where
    pub intact : IsIntact crc origin e'
    pub same : SameShape e.meta e'.meta
    pub bits : (i : ℕ) → Bitmap.get e'.meta.bitmap i ≡ (Bitmap.get e.meta.bitmap i && not (gone i))
    pub bufs : (i : ℕ) → find i e'.buf ≡ (if gone i then none else find i e.buf)

  pub Frees-trans :
      (c d : ℕ → Bool) (e e' e'' : Entry)
      → Frees c e e'
      → Frees d e' e''
      → Frees (λ i. c i || d i) e e''
  Frees-trans c d e e' e'' f g = record {
    intact = g.intact;
    same = record { page = g.same.page ∙ f.same.page; size = g.same.size ∙ f.same.size };
    bits = λ i. let a = f.bits i in let b = g.bits i in ground (arith, a, b);
    bufs = λ i. let a = f.bufs i in let b = g.bufs i in both_gone i (c i) (d i) a b;
  }
    where
      both_gone :
          (i : ℕ) (x y : Bool)
          → find i e'.buf ≡ (if x then none else find i e.buf)
          → find i e''.buf ≡ (if y then none else find i e'.buf)
          → find i e''.buf ≡ (if x || y then none else find i e.buf)
      both_gone i true true a b = b
      both_gone i true false a b = b ∙ a
      both_gone i false true a b = b
      both_gone i false false a b = b ∙ a

  pub Frees-none : (e : Entry) → IsIntact crc origin e → Frees (λ i. false) e e
  Frees-none e v = record {
    intact = v;
    same = record { page = refl; size = refl };
    bits = λ i. ground arith;
    bufs = λ i. refl;
  }

  pub Frees-ext :
      (c d : ℕ → Bool) (e e' : Entry) → ((i : ℕ) → c i ≡ d i) → Frees c e e' → Frees d e e'
  Frees-ext c d e e' h f = record {
    intact = f.intact;
    same = f.same;
    bits = λ i. rw (← h i) (f.bits i);
    bufs = λ i. rw (← h i) (f.bufs i);
  }

  -- What is left of an entry when a page leaves the buffer.
  record Unstages (i : ℕ) (e e' : Entry) : Type 0 where
    pub intact : IsIntact crc origin e'
    pub meta : e'.meta ≡ e.meta
    pub bufs : (j : ℕ) → find j e'.buf ≡ (if i == j then none else find j e.buf)

  unstage_any-Unstages :
      (i : ℕ) (s : Releasing)
      → IsIntact crc origin s.entry
      → Unstages i s.entry (unstage_any i s).entry
  unfolding unstage_any unstage
  unstage_any-Unstages i s v = elim (holds-find i s.entry.buf) [
    | inl (_, absent) ↦
        rw (absent, unstage_any)
          (record { intact = v; meta = refl; bufs = λ j. not_there j absent })
    | inr (p, _, there) ↦
        let good = Each-erase (IsGood crc origin s.entry.meta) i s.entry.buf v.staged in
        let sorted = erase-SortedFrom 0 i s.entry.buf v.staged_sorted in
        rw (there, unstage_any)
          (elim (Bool-cases p.spec) [
            | inl c ↦
                rw (c, unstage)
                  (record {
                    intact = with_buf-IsIntact crc origin s.entry _ _ _ _ v good sorted;
                    meta = refl;
                    bufs = λ j. find-erase i j s.entry.buf;
                  })
            | inr c ↦
                rw (c, unstage)
                  (record {
                    intact = with_buf-IsIntact crc origin s.entry _ _ _ _ v good sorted;
                    meta = refl;
                    bufs = λ j. find-erase i j s.entry.buf;
                  })
          ])
  ]
    where
      not_there :
          (j : ℕ)
          → find i s.entry.buf ≡ none
          → find j s.entry.buf ≡ (if i == j then none else find j s.entry.buf)
      not_there j absent = elim (Bool-cases (i == j)) [
        | inl c ↦ let same : i ≡ j = ground (arith, c) in rw (c, ← same) absent
        | inr c ↦ rw c refl
      ]

  cleared_bit : (i j : ℕ) (b : Bool) → (if i == j then false else b) ≡ (b && not (i == j))
  cleared_bit i j b = ground arith

  release_page-Frees :
      (i : ℕ) (s : Releasing)
      → IsIntact crc origin s.entry
      → i < npages s.entry.meta
      → Frees (λ j. i == j) s.entry (release_page i s).entry
  unfolding release_page retract_page
  release_page-Frees i s v inside =
      let t = unstage_any i s in
      let u = unstage_any-Unstages i s v in
      let m = u.meta in
      let inside' : i < npages t.entry.meta = rw m inside in
      let z = u.intact.consistent.sized in
      let bits = z.bits in
      elim (Bool-cases (Bitmap.get t.entry.meta.bitmap i)) [
        | inl on ↦
            rw (on, release_page)
              (record {
                intact = retract_page-IsIntact crc origin t.entry i u.intact inside';
                same = record { page = ap (λ k. k.page_size) m; size = ap (λ k. k.file_size) m };
                bits = λ j.
                    get-clear t.entry.meta.bitmap i j z.valid (omega (arith, inside', bits))
                    ∙ cleared_bit i j (Bitmap.get t.entry.meta.bitmap j)
                    ∙ ap (λ k. Bitmap.get k.bitmap j && not (i == j)) m;
                bufs = u.bufs;
              })
        | inr off ↦
            rw (off, release_page)
              (record {
                intact = u.intact;
                same = record { page = ap (λ k. k.page_size) m; size = ap (λ k. k.file_size) m };
                bits = λ j.
                    ap (λ k. Bitmap.get k.bitmap j) m
                    ∙ was_off j (ap (λ k. Bitmap.get k.bitmap i) (sym m) ∙ off);
                bufs = u.bufs;
              })
      ]
    where
      was_off :
          (j : ℕ)
          → Bitmap.get s.entry.meta.bitmap i ≡ false
          → Bitmap.get s.entry.meta.bitmap j ≡ (Bitmap.get s.entry.meta.bitmap j && not (i == j))
      was_off j off = elim (Bool-cases (i == j)) [
        | inl c ↦ let same : i ≡ j = ground (arith, c) in rw (← same, off) refl
        | inr c ↦ rw c (ground arith)
      ]

  pub release_pages-Frees :
      (rounds i : ℕ) (s : Releasing)
      → IsIntact crc origin s.entry
      → i + rounds ≤ npages s.entry.meta
      → Frees (within i (i + rounds)) s.entry (release_pages rounds i s).entry
  unfolding release_pages
  release_pages-Frees zero i s v room =
      Frees-ext (λ j. false) _ s.entry s.entry (λ j. ground arith) (Frees-none s.entry v)
  release_pages-Frees (suc rounds) i s v room =
      let f = release_page-Frees i s v (omega arith) in
      let n = SameShape-npages s.entry.meta (release_page i s).entry.meta f.same in
      let g = release_pages-Frees rounds (i + 1) (release_page i s) f.intact (omega arith) in
      Frees-ext (λ j. i == j || within (i + 1) (i + 1 + rounds) j) _ s.entry _ (λ j. ground arith)
        (Frees-trans _ _ s.entry (release_page i s).entry _ f g)

  release_span-Frees :
      (first stop : ℕ) (s : Releasing)
      → IsIntact crc origin s.entry
      → first ≤ stop
      → stop ≤ npages s.entry.meta
      → Frees (within first stop) s.entry (release_span first stop s).entry
  unfolding release_span
  release_span-Frees first stop s v order room =
      let s' = record s { resident = 0 } in
      let f = release_pages-Frees (stop - first) first s' v (omega arith) in
      let whole : first + (stop - first) ≡ stop = omega arith in
      let g = Frees-ext _ (within first stop) s.entry _ (λ j. ap (λ k. within first k j) whole) f in
      record {
        intact = rest-IsIntact crc origin _ g.intact;
        same = record { page = g.same.page; size = g.same.size };
        bits = g.bits;
        bufs = g.bufs;
      }

  small_file : (e : Entry) → IsIntact crc origin e → e.meta.file_size < 2 ^ 64
  small_file e v = let fits = v.fits in let pos = v.page in omega arith

  pub release_range-Frees :
      (r : ℕ × ℕ) (s : Releasing)
      → IsIntact crc origin s.entry
      → IsWords r
      → Frees (in_range s.entry r) s.entry (release_range r s).entry
  unfolding release_range
  release_range-Frees r s v w = elim (Bool-cases (skipped s.entry r)) [
    | inl c ↦
        rw (c, release_range)
          (Frees-ext (λ j. false) _ s.entry s.entry
            (λ j. sym (in_range-skipped s.entry r j w (small_file s.entry v) c))
            (Frees-none s.entry v))
    | inr c ↦
        let same = λ (j : ℕ). in_range-within s.entry r j w v.page v.fits c in
        elim (Bool-cases (leb (stop_in s.entry r) (first_in s.entry r))) [
          | inl d ↦
              rw (c, d, release_range)
                (Frees-ext (λ j. false) _ s.entry s.entry
                  (λ j. no_page (first_in s.entry r) (stop_in s.entry r) j d ∙ same j)
                  (Frees-none s.entry v))
          | inr d ↦
              let f =
                release_span-Frees (first_in s.entry r) (stop_in s.entry r) s v (ground (arith, d))
                  (stop_in-npages s.entry r v.page c) in
              rw (c, d, release_range) (Frees-ext _ _ s.entry _ same f)
        ]
  ]
    where
      no_page : (first stop j : ℕ) → leb stop first ≡ true → false ≡ within first stop j
      no_page first stop j d = ground (arith, d)
