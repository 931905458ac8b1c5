-- ===== src/Entry/Intact/Runs.antt =====
-- src/core/FileEntry.cc: each run that `flushBuffer` coalesces is the origin's bytes from its first
-- page on.
use xrd_ucache.Base.{
  ℕ, ◌+◌, ◌*◌, ◌≤◌, ◌<◌, ◌≡◌, refl, sym, ap, ◌∙◌, ◌⊎◌, ◌&&◌, List, [], ◌∷◌, ◌++◌, Content, slice,
  arith, ◌==◌, Bool-cases, inl, inr, ltb, length, length-slice, length-append, slice-append,
  slice-nothing,
}
use mathlib.Core.Path.{subst}
use xrd_ucache.Base.PageMap.{PageMap, Each}
use xrd_ucache.Base.PageMapLaws.{Each-map}
use xrd_ucache.Sidecar.{MetaData, npages, page_bytes}
use xrd_ucache.Entry.{BufPage}
use xrd_ucache.Entry.Intact.{IsGood, IsReal, origin_page, page_starts}
use xrd_ucache.Entry.Flush.{take_run, run_payload, run_pages, max_run}

-- A page with another after it is whole.
pub page_bytes-whole :
    (m : MetaData) (i : ℕ) → 0 < m.page_size → i + 1 < npages m → page_bytes m i ≡ m.page_size
unfolding page_bytes
page_bytes-whole m i pos h = omega (arith, page_starts m (i + 1) pos h)

module _ (crc : List ℕ → ℕ) (origin : Content) (m : MetaData) where
  abbrev pub Pages : Type 0
  Pages = PageMap BufPage

  -- A page of a run of n bytes from page `next` on, with its checksum.
  pub record IsInRun (next n i c : ℕ) : Type 0 where
    pub inside : i < npages m
    pub sum : c ≡ crc (origin_page crc origin m i)
    pub lo : next ≤ i
    pub fit : i * m.page_size + page_bytes m i ≤ next * m.page_size + n

  -- What a run is: the origin's bytes from its first page on, and its pages within them.
  pub record IsRun (next : ℕ) (run : Pages) : Type 0 where
    pub payload : run_payload run ≡ slice origin (next * m.page_size) (length (run_payload run))
    pub start : (length (run_payload run) ≡ 0) ⊎ (next < npages m)
    pub pages : Each (IsInRun next (length (run_payload run))) (run_pages run)

  empty-IsRun : (next : ℕ) → IsRun next []
  unfolding run_payload run_pages
  empty-IsRun next = record {
    payload = sym (slice-nothing origin (next * m.page_size) 0 refl);
    start = inl refl;
    pages = tt;
  }

  cons-IsRun :
      (next : ℕ) (p : BufPage) (run : Pages)
      → 0 < m.page_size
      → IsGood crc origin m next p
      → IsRun (next + 1) run
      → IsRun next ((next, p) ∷ run)
  unfolding run_payload run_pages
  cons-IsRun next p run pos g r =
      let n = length (run_payload run) in
      let width : length p.bytes ≡ page_bytes m next =
        ap length g.bytes ∙ length-slice origin (next * m.page_size) (page_bytes m next) in
      let size : length (p.bytes ++ run_payload run) ≡ page_bytes m next + n =
        length-append p.bytes (run_payload run) ∙ ap (λ k. k + n) width in
      let joined : slice origin ((next + 1) * m.page_size) n
          ≡ slice origin (next * m.page_size + page_bytes m next) n =
        elim r.start [
          | inl none_left ↦
              slice-nothing origin _ n none_left ∙ sym (slice-nothing origin _ n none_left)
          | inr more ↦
              ap (λ at. slice origin at n) (omega (arith, page_bytes-whole m next pos more))
        ] in
      record {
        payload = rw size (
            ap (λ l. l ++ run_payload run) g.bytes
            ∙ ap (λ l. origin_page crc origin m next ++ l) (r.payload ∙ joined)
            ∙ slice-append origin (next * m.page_size) (next * m.page_size + page_bytes m next)
                (page_bytes m next) n refl);
        start = inr g.inside;
        pages = (
          record { inside = g.inside; sum = g.sum; lo = omega arith; fit = omega (arith, size) },
          Each-map (IsInRun (next + 1) n) (IsInRun next (length (p.bytes ++ run_payload run)))
              (run_pages run)
              (λ i c h. record {
                inside = h.inside;
                sum = h.sum;
                lo = omega (arith, h.lo);
                fit = omega (
                  arith,
                  size,
                  h.fit,
                  page_bytes-whole m next pos (omega (arith, h.lo, h.inside)),
                );
              })
              r.pages,
        );
      }

  pub take_run-rest :
      (next size : ℕ) (pages : Pages)
      → Each (IsReal crc origin m) pages
      → Each (IsReal crc origin m) (take_run m next size pages).1
  unfolding take_run
  take_run-rest next size [] a = tt
  take_run-rest next size ((j, p) ∷ rest) a =
      ground (arith, a.0, a.1, take_run-rest (next + 1) (size + page_bytes m j) rest a.1)

  pub take_run-IsRun :
      (next size : ℕ) (pages : Pages)
      → 0 < m.page_size
      → Each (IsReal crc origin m) pages
      → IsRun next (take_run m next size pages).0
  unfolding take_run run_payload run_pages
  take_run-IsRun next size [] pos a = empty-IsRun next
  take_run-IsRun next size ((j, p) ∷ rest) pos a =
      elim (Bool-cases (j == next && ltb size max_run)) [
        | inr stop ↦ rw (stop, take_run) (empty-IsRun next)
        | inl go ↦
            let same : j ≡ next = ground arith in
            let r = take_run-IsRun (next + 1) (size + page_bytes m j) rest pos a.1 in
            let run = (take_run m (next + 1) (size + page_bytes m j) rest).0 in
            let good : IsGood crc origin m next p =
              subst (λ k. IsGood crc origin m k p) same (a.0.good) in
            rw (go, take_run)
              (subst (λ k. IsRun next ((k, p) ∷ run)) (sym same) (cons-IsRun next p run pos good r))
      ]
