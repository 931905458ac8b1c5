-- ===== src/Entry/Intact/Writes.antt =====
-- src/core/FileEntry.cc: the coalesced writes of `flushBuffer` put the origin's bytes into the data
-- file, and the pages that it publishes are there.
use xrd_ucache.Base.{
  ℕ, zero, suc, ◌+◌, ◌*◌, ◌<◌, ◌≡◌, refl, sym, ap, ◌∙◌, ◌⊎◌, ◌&&◌, List, [], ◌∷◌, Content, slice,
  blit, arith, mul_mono, ◌==◌, min, take, Bool-cases, inl, inr, ltb, leb, length, length-slice,
  take-slice-min, take-slice, blit-slice, blit-outside,
}
use mathlib.Core.Path.{subst}
use xrd_ucache.Base.PageMap.{PageMap, Each}
use xrd_ucache.Base.PageMapLaws.{Each-map, Each-append}
use xrd_ucache.Sidecar.{MetaData}
use xrd_ucache.Entry.Intact.{IsReal, IsStored, HasPage}
use xrd_ucache.Entry.Flush.{take_run, run_payload, run_pages, write_runs, Written, DiskWrites}
use xrd_ucache.Entry.Intact.Runs.{Pages, IsInRun, IsRun, take_run-rest, take_run-IsRun}

module _ (crc : List ℕ → ℕ) (origin : Content) (m : MetaData) where
  -- Each byte of the second file is that of the first, or the origin's.
  abbrev pub Approaches : Content → Content → Type 0
  Approaches file file' = (x : ℕ) → (file' x ≡ file x) ⊎ (file' x ≡ origin x)

  pub HasPage-Approaches :
      (file file' : Content) (i : ℕ)
      → Approaches file file'
      → HasPage crc origin m file i
      → HasPage crc origin m file' i
  HasPage-Approaches file file' i near has x lo hi = elim (near x) [
    | inl same ↦ same ∙ has x lo hi
    | inr there ↦ there
  ]

  pub IsStored-Approaches :
      (file file' : Content)
      → Approaches file file'
      → (i c : ℕ) → IsStored crc origin m file i c
      → IsStored crc origin m file' i c
  IsStored-Approaches file file' near i c s = record {
    inside = s.inside;
    sum = s.sum;
    bytes = HasPage-Approaches file file' i near s.bytes;
  }

  blit-Approaches : (file : Content) (at n : ℕ) → Approaches file (blit file at (slice origin at n))
  blit-Approaches file at n x = elim (Bool-cases (leb at x && ltb x (at + n))) [
    | inl inside ↦ inr (blit-slice file origin at n x (ground arith) (ground arith))
    | inr outside ↦
        inl (
          blit-outside file at (slice origin at n) x (rw (length-slice origin at n) (ground arith)))
  ]

  -- The published pages are in the file.
  abbrev pub AreStored : Written → Type 0
  AreStored w = Each (IsStored crc origin m w.file) w.published

  IsStored-run :
      (file : Content) (next n : ℕ) (pages : PageMap ℕ)
      → Each (IsInRun crc origin m next n) pages
      → Each
          (IsStored crc origin m
            (blit file (next * m.page_size) (slice origin (next * m.page_size) n)))
          pages
  IsStored-run file next n pages a =
      Each-map (IsInRun crc origin m next n) _ pages
        (λ i c h. record {
          inside = h.inside;
          sum = h.sum;
          bytes = λ x lo hi.
              blit-slice file origin (next * m.page_size) n x
                (omega (arith, mul_mono next i m.page_size h.lo)) (omega (arith, h.fit));
        })
        a

  -- One write, whole or short.
  write-Approaches :
      (file : Content) (next landed : ℕ) (run : Pages crc origin m)
      → IsRun crc origin m next run
      → Approaches file (blit file (next * m.page_size) (take landed (run_payload run)))
  write-Approaches file next landed run r =
      subst (λ l. Approaches file (blit file (next * m.page_size) l))
        (sym (
          ap (take landed) r.payload
          ∙ take-slice-min origin (next * m.page_size) (length (run_payload run)) landed))
        (blit-Approaches file (next * m.page_size) (min landed (length (run_payload run))))

  -- A whole one puts the run's pages into the file.
  written_run :
      (file : Content) (next landed : ℕ) (run : Pages crc origin m)
      → IsRun crc origin m next run
      → landed ≡ length (run_payload run)
      → Each
          (IsStored crc origin m (blit file (next * m.page_size) (take landed (run_payload run))))
          (run_pages run)
  written_run file next landed run r whole =
      subst (λ l. Each (IsStored crc origin m (blit file (next * m.page_size) l)) (run_pages run))
        (sym (
          ap (take landed) r.payload
          ∙ take-slice origin (next * m.page_size) (length (run_payload run)) landed (omega arith)
          ∙ ap (slice origin (next * m.page_size)) whole))
        (IsStored-run file next (length (run_payload run)) (run_pages run) r.pages)

  pub Approaches-trans : (f g h : Content) → Approaches f g → Approaches g h → Approaches f h
  Approaches-trans f g h p q x = elim (q x) [
    | inr there ↦ inr there
    | inl same ↦ elim (p x) [ inl old ↦ inl (same ∙ old) | inr there ↦ inr (same ∙ there) ]
  ]

  -- After the writes, whatever they do, every byte of the file is the old one or the origin's, and the
  -- pages to be published are in it.
  pub write_runs_lem :
      (io : DiskWrites) (fuel : ℕ) (pages : Pages crc origin m) (w : Written)
      → 0 < m.page_size
      → Each (IsReal crc origin m) pages
      → AreStored w
      → Approaches w.file (write_runs io m fuel pages w).file
        × AreStored (write_runs io m fuel pages w)
  unfolding write_runs
  write_runs_lem io zero pages w pos a s = (λ x. inl refl, s)
  write_runs_lem io (suc fuel) [] w pos a s = (λ x. inl refl, s)
  write_runs_lem io (suc fuel) ((j, p) ∷ pages) w pos a s =
      elim (Bool-cases (landed == length payload)) [
        | inr short ↦
            rw (short, write_runs)
              (near, Each-map _ _ w.published (IsStored-Approaches w.file file near) s)
        | inl whole ↦
            let stored =
              Each-append _ w.published (run_pages split.0)
                (Each-map _ _ w.published (IsStored-Approaches w.file file near) s)
                (written_run w.file j landed split.0 run (ground arith)) in
            let next =
              write_runs_lem io fuel split.1 _ pos
                (take_run-rest crc origin m j 0 ((j, p) ∷ pages) a) stored in
            rw (whole, write_runs) (Approaches-trans w.file file _ near next.0, next.1)
      ]
    where
      split : Pages crc origin m × Pages crc origin m
      split = take_run m j 0 ((j, p) ∷ pages)

      payload : List ℕ
      payload = run_payload split.0

      landed : ℕ
      landed = io.lands (j * m.page_size) (length payload)

      file : Content
      file = blit w.file (j * m.page_size) (take landed payload)

      run : IsRun crc origin m j split.0
      run = take_run-IsRun crc origin m j 0 ((j, p) ∷ pages) pos a

      near : Approaches w.file file
      near = write-Approaches w.file j landed split.0 run
