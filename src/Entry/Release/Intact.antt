-- ===== src/Entry/Release/Intact.antt =====
-- src/core/FileEntry.cc: `releaseRanges` as a whole, and the punching of the released bytes.
use xrd_ucache.Base.{ℕ, ◌≡◌, refl, List, [], ◌∷◌, Content, All}
use xrd_ucache.Entry.{Entry}
use xrd_ucache.Entry.Intact.{IsIntact, SameShape}
use xrd_ucache.Entry.Intact.Flush.{rest-IsIntact}
use xrd_ucache.Entry.Release.{Releasing, release_range, release_all, release_begin}
use xrd_ucache.Entry.Release.Whole.{in_range, released, IsWords}
use xrd_ucache.Entry.Release.Pages.{Frees, Frees-trans, Frees-ext, Frees-none, release_range-Frees}

-- The test reads no more than the geometry.
pub in_range-shape :
    (e e' : Entry) (r : ℕ × ℕ) (i : ℕ) → SameShape e.meta e'.meta → in_range e' r i ≡ in_range e r i
unfolding in_range
in_range-shape e e' r i same = rw (same.page, same.size) refl

pub released-shape :
    (e e' : Entry) (ranges : List (ℕ × ℕ)) (i : ℕ)
    → SameShape e.meta e'.meta
    → released e' ranges i ≡ released e ranges i
unfolding released
released-shape e e' [] i same = refl
released-shape e e' (r ∷ ranges) i same =
    rw (in_range-shape e e' r i same, released-shape e e' ranges i same) refl

module _ (crc : List ℕ → ℕ) (origin : Content) where
  release_all-Frees :
      (ranges : List (ℕ × ℕ)) (s : Releasing)
      → IsIntact crc origin s.entry
      → All IsWords ranges
      → Frees crc origin (released s.entry ranges) s.entry (release_all ranges s).entry
  unfolding release_all released
  release_all-Frees [] s v w = Frees-none crc origin s.entry v
  release_all-Frees (r ∷ ranges) s v w =
      let f = release_range-Frees crc origin r s v w.0 in
      let t = release_range r s in
      let g =
        Frees-ext crc origin (released t.entry ranges) (released s.entry ranges) t.entry _
          (λ i. released-shape s.entry t.entry ranges i f.same)
          (release_all-Frees ranges t f.intact w.1) in
      Frees-trans crc origin (in_range s.entry r) (released s.entry ranges) s.entry t.entry _ f g

  -- For ranges of 64-bit words and a file that ends a page below 2 ^ 64, the locked part of a release
  -- keeps an intact entry intact. The pages that some range has wholly, of the ranges that are not
  -- empty and end in the file, are neither present nor staged after it, and every other page is as it
  -- was.
  pub release_begin-Frees :
      (ranges : List (ℕ × ℕ)) (e : Entry)
      → IsIntact crc origin e
      → All IsWords ranges
      → Frees crc origin (released e ranges) e (release_begin ranges e).0
  unfolding release_begin
  release_begin-Frees ranges e v w =
      let f = release_all-Frees ranges _ v w in
      record {
        intact = rest-IsIntact crc origin _ f.intact;
        same = record { page = f.same.page; size = f.same.size };
        bits = f.bits;
        bufs = f.bufs;
      }
