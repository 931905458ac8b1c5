-- ===== src/Entry/Intact/Demote.antt =====
-- src/core/FileEntry.cc: taking back a page that failed its checksum keeps an entry intact.
use xrd_ucache.Base.{
  ℕ, ◌<◌, ◌≡◌, refl, ◌∙◌, true, List, Content, get_or, arith, ◌==◌, Bool-cases, inl, inr,
  length-set,
}
use xrd_ucache.Base.{set as write}
use xrd_ucache.Base.PageMapLaws.{Each-map}
use xrd_ucache.Bitmap
use xrd_ucache.Bitmap.Laws.{get-clear, get_or-write}
use xrd_ucache.Bitmap.Counts.{set-IsValid, clear-IsValid, npages-set, npages-clear}
use xrd_ucache.Sidecar.{npages}
use xrd_ucache.Entry.{Entry, IsConsistent, retract_page}
use xrd_ucache.Entry.Intact.{
  IsStored, IsIntact, SameShape, IsGood-shape, IsReal-shape, IsStored-shape,
}

retract_page-IsConsistent :
    (e : Entry) (i : ℕ) → IsConsistent e → i < npages e.meta → IsConsistent (retract_page e i)
unfolding retract_page npages
retract_page-IsConsistent e i v h =
    let m = e.meta in
    let s = v.sized in
    record {
      sized = record {
        valid = clear-IsValid m.bitmap i s.valid (omega (arith, s.bits));
        bits = npages-clear m.bitmap i ∙ s.bits;
        crcs = length-set m.page_crcs i 0 ∙ s.crcs;
      };
      set_valid = clear-IsValid e.set_since i v.set_valid (omega (arith, v.set_bits));
      set_bits = npages-clear e.set_since i ∙ v.set_bits;
      cleared_valid = set-IsValid e.cleared_since i v.cleared_valid (omega (arith, v.cleared_bits));
      cleared_bits = npages-set e.cleared_since i ∙ v.cleared_bits;
    }

module _ (crc : List ℕ → ℕ) (origin : Content) where
  retracted_present :
      (e : Entry) (i : ℕ)
      → IsIntact crc origin e
      → i < npages e.meta
      → (j : ℕ) → j < npages e.meta
      → Bitmap.get (retract_page e i).meta.bitmap j ≡ true
      → IsStored crc origin e.meta e.data_file j (get_or (retract_page e i).meta.page_crcs j 0)
  unfolding retract_page
  retracted_present e i v inside j h on =
      let z = v.consistent.sized in
      let bit = get-clear e.meta.bitmap i j z.valid (omega (arith, inside, z.bits)) in
      let crcs = get_or-write e.meta.page_crcs i j 0 (omega (arith, inside, z.crcs)) in
      elim (Bool-cases (i == j)) [
        | inl same ↦ absurd (ground (arith, bit, on, same))
        | inr other ↦
            let sum : get_or (write e.meta.page_crcs i 0) j 0 ≡ get_or e.meta.page_crcs j 0 =
              ground (arith, crcs, other) in
            rw sum (v.present j h (ground (arith, bit, on, other)))
      ]

  -- Taking back a page of an intact entry keeps it intact.
  pub retract_page-IsIntact :
      (e : Entry) (i : ℕ)
      → IsIntact crc origin e
      → i < npages e.meta
      → IsIntact crc origin (retract_page e i)
  unfolding retract_page npages
  retract_page-IsIntact e i v inside =
      let m' = (retract_page e i).meta in
      let same : SameShape e.meta m' = record { page = refl; size = refl } in
      record {
        consistent = retract_page-IsConsistent e i v.consistent inside;
        page = v.page;
        fits = v.fits;
        staged = Each-map _ _ e.buf (IsGood-shape crc origin e.meta m' same) v.staged;
        staged_sorted = v.staged_sorted;
        writing = Each-map _ _ e.flushing (IsReal-shape crc origin e.meta m' same) v.writing;
        present = λ j h on.
            IsStored-shape crc origin e.meta m' same e.data_file j _
              (retracted_present e i v inside j h on);
      }
