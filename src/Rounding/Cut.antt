-- ===== src/Rounding/Cut.antt =====
-- src/plugin/ReadRounding.h: cutting a run into vector-read elements.
use xrd_ucache.Base.{
  ℕ, zero, suc, ◌+◌, ◌-◌, ◌*◌, ◌/◌, ◌%◌, ◌≤◌, ◌<◌, ◌≡◌, ◌⊎◌, arith, List, [], ◌∷◌, refl, inl, inr,
  min, word_limit, ltb, Bool-cases, div_mul_bounds,
}
use native.Mathlib.Nat.{mul-mod_left, mod-eq-sub-div-mul}
use xrd_ucache.Rounding.{Span, readv_elem_end, cut_run, max_readv_elem}

-- The spans lie end to end from a to b, none empty.
abbrev pub Tiles : ℕ → ℕ → List Span → Type 0
Tiles a b [] = a ≡ b
Tiles a b (s ∷ rest) = (s.first ≡ a) × (a < s.last) × Tiles s.last b rest

-- The span fits a vector-read element, and ends on a page boundary or at the run's end.
abbrev pub IsElement : ℕ → ℕ → Span → Type 0
IsElement page_size end s =
    (s.last - s.first ≤ max_readv_elem) × ((s.last ≡ end) ⊎ (s.last % page_size ≡ 0))

-- No page boundary follows within an element's reach, and the span is one page long, or ends with
-- the run.
abbrev pub IsLongPage : ℕ → ℕ → Span → Type 0
IsLongPage page_size end s =
    ((s.first + max_readv_elem) / page_size * page_size ≤ s.first)
    × (max_readv_elem < page_size)
    × (s.last ≡ min (s.first + page_size) end)

abbrev pub AreLegal : ℕ → ℕ → List Span → Type 0
AreLegal page_size end [] = Unit {0}
AreLegal page_size end (s ∷ rest) =
    (IsElement page_size end s ⊎ IsLongPage page_size end s) × AreLegal page_size end rest

aligned_cut : (x p : ℕ) → (x - x % p) % p ≡ 0
aligned_cut x p =
    let e : x - x % p ≡ x / p * p = ground (arith, mod-eq-sub-div-mul x p) in
    rw e (mul-mod_left _ p)

whole_part : (x p : ℕ) → x - x % p ≡ x / p * p
whole_part x p = ground (arith, mod-eq-sub-div-mul x p)

-- One cut.
readv_elem_end_bounds :
    (start end page_size : ℕ)
    → start < end
    → 0 < page_size
    → end + page_size ≤ word_limit
    → let cut = readv_elem_end start end page_size in
      let s : Span = record { first = start; last = cut } in
      (start < cut) × (cut ≤ end) × (IsElement page_size end s ⊎ IsLongPage page_size end s)
unfolding readv_elem_end
readv_elem_end_bounds start end page_size h pos fits = ground (
  arith,
  aligned_cut (start + max_readv_elem) page_size,
  whole_part (start + max_readv_elem) page_size,
  div_mul_bounds (start + max_readv_elem) page_size pos,
)

-- The cut of a run ends: fuel of the run's length is enough, for a run that ends a page below
-- 2 ^ 64. Its pieces lie end to end over the whole run, none empty. Each piece is short enough for an
-- element and ends on a page boundary or at the run's end; or no page boundary follows within an
-- element's reach, a page is longer than an element, and the piece is one page long or ends with the
-- run.
pub cut_run-Tiles :
    (fuel at end page_size : ℕ)
    → at ≤ end
    → end - at ≤ fuel
    → 0 < page_size
    → end + page_size ≤ word_limit
    → Tiles at end (cut_run fuel at end page_size)
      × AreLegal page_size end (cut_run fuel at end page_size)
unfolding cut_run
cut_run-Tiles zero at end page_size le enough pos fits = (omega arith, tt)
cut_run-Tiles (suc fuel) at end page_size le enough pos fits = elim (Bool-cases (ltb at end)) [
  | inl c ↦
      let cut = readv_elem_end at end page_size in
      let b = readv_elem_end_bounds at end page_size (ground (arith, c)) pos fits in
      let more = b.0 in
      let inside = b.1 in
      let rest = cut_run-Tiles fuel cut end page_size inside (omega arith) pos fits in
      rw c ((refl, more, rest.0), (b.2, rest.1))
  | inr c ↦ rw c (ground (arith, c), tt)
]
