-- ===== src/Entry/Release/Whole.antt =====
-- src/core/FileEntry.cc: the pages that `releaseRanges` takes of a range are those that the range has
-- wholly.
use xrd_ucache.Base.{
  ℕ, suc, ◌+◌, ◌-◌, ◌*◌, ◌/◌, ◌^◌, ◌≤◌, ◌<◌, ◌≡◌, refl, arith, Bool, true, false, ◌&&◌, ◌||◌, not,
  List, [], ◌∷◌, ltb, leb, ◌==◌, add64, Bool-cases, inl, inr, div_mul_bounds, mul_mono, ◌∙◌, sym,
  sub64-add64,
}
use xrd_ucache.Entry.{Entry}
use xrd_ucache.Entry.Stage.{within}
use xrd_ucache.Entry.Release.{skipped, first_in, stop_in}

-- A page that a range has wholly, of a range that is not empty and ends in the file.
unfoldable pub in_range : Entry → ℕ × ℕ → ℕ → Bool
in_range e r i =
    not (r.1 == 0)
    && (leb (r.0 + r.1) e.meta.file_size
        && (leb r.0 (i * e.meta.page_size) && leb (suc i * e.meta.page_size) (r.0 + r.1)))

unfoldable pub released : Entry → List (ℕ × ℕ) → ℕ → Bool
unfolding in_range
released e [] i = false
released e (r ∷ ranges) i = in_range e r i || released e ranges i

-- A range of two 64-bit words.
abbrev pub IsWords : ℕ × ℕ → Type 0
IsWords r = (r.0 < 2 ^ 64) × (r.1 < 2 ^ 64)

from_first : (off p i : ℕ) → 0 < p → leb ((off + p - 1) / p) i ≡ leb off (i * p)
from_first off p i pos =
    let b = div_mul_bounds (off + p - 1) p pos in
    let q = (off + p - 1) / p in
    elim (Bool-cases (leb q i)) [
      | inl c ↦
          let le : q ≤ i = ground (arith, c) in
          let more = mul_mono q i p le in
          let here : leb off (i * p) ≡ true = ground (arith, b, more) in c ∙ sym here
      | inr c ↦
          let lt : suc i ≤ q = ground (arith, c) in
          let more = mul_mono (suc i) q p lt in
          let here : leb off (i * p) ≡ false = ground (arith, b, more) in c ∙ sym here
    ]

to_stop : (end p i : ℕ) → 0 < p → ltb i (end / p) ≡ leb (suc i * p) end
to_stop end p i pos =
    let b = div_mul_bounds end p pos in
    let q = end / p in
    elim (Bool-cases (ltb i q)) [
      | inl c ↦
          let lt : suc i ≤ q = ground (arith, c) in
          let more = mul_mono (suc i) q p lt in
          let here : leb (suc i * p) end ≡ true = ground (arith, b, more) in c ∙ sym here
      | inr c ↦
          let le : q ≤ i = ground (arith, c) in
          let more = mul_mono q i p le in
          let here : leb (suc i * p) end ≡ false = ground (arith, b, more) in c ∙ sym here
    ]

-- A range passed over has no page of those.
pub in_range-skipped :
    (e : Entry) (r : ℕ × ℕ) (i : ℕ)
    → IsWords r
    → e.meta.file_size < 2 ^ 64
    → skipped e r ≡ true
    → in_range e r i ≡ false
unfolding in_range skipped
in_range-skipped e r i w small c =
    let a = w.0 in
    let b = w.1 in
    elim (Bool-cases (leb (r.0 + r.1) e.meta.file_size)) [
      | inr d ↦ rw d (ground arith)
      | inl d ↦
          let fits : r.0 + r.1 ≤ e.meta.file_size = ground (arith, d) in
          let exact : add64 r.0 r.1 ≡ r.0 + r.1 = omega arith in
          let empty : (r.1 == 0) ≡ true = ground (arith, c, exact, fits) in rw empty (ground arith)
    ]

-- Of any other it has those from the first to the last.
pub in_range-within :
    (e : Entry) (r : ℕ × ℕ) (i : ℕ)
    → IsWords r
    → 0 < e.meta.page_size
    → e.meta.file_size + e.meta.page_size ≤ 2 ^ 64
    → skipped e r ≡ false
    → within (first_in e r) (stop_in e r) i ≡ in_range e r i
unfolding in_range skipped first_in stop_in
in_range-within e r i w pos fits c =
    let a = w.0 in
    let b = w.1 in
    let p = e.meta.page_size in
    let some_len : (r.1 == 0) ≡ false = ground (arith, c) in
    let exact : add64 r.0 r.1 ≡ r.0 + r.1 = ground (arith, c, a, b) in
    let inside : leb (r.0 + r.1) e.meta.file_size ≡ true = ground (arith, c, exact) in
    let room : r.0 + p ≤ 2 ^ 64 = ground (arith, c, exact) in
    rw
      (
        exact,
        sub64-add64 r.0 p pos room,
        from_first r.0 p i pos,
        to_stop (r.0 + r.1) p i pos,
        some_len,
        inside,
      )
      refl
