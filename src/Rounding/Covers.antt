-- ===== src/Rounding/Covers.antt =====
-- src/plugin/ReadRounding.h: `roundSpan` covers the request by whole pages.
use xrd_ucache.Base.{
  ℕ, suc, ◌+◌, ◌-◌, ◌*◌, ◌/◌, ◌%◌, ◌^◌, ◌≤◌, ◌<◌, ◌≡◌, ◌⊎◌, arith, min, word_limit, div_mul_bounds,
  page_below, page_above,
}
use native.Mathlib.Nat.{mul-mod_left}
use xrd_ucache.Rounding.{round_span, rounded_end, max_wire_length}

-- Without a wrap the sum is the exact one.
rounded_end_exact :
    (page_size file_size off len : ℕ)
    → 0 < page_size
    → off + len + page_size ≤ word_limit
    → rounded_end page_size file_size off len
      ≡ min ((off + len + (page_size - 1)) / page_size * page_size) file_size
unfolding rounded_end
rounded_end_exact page_size file_size off len h fits =
    let e : (off + len + page_size + (2 ^ 64 - 1)) % 2 ^ 64 ≡ off + len + (page_size - 1) =
      omega arith in
    rw e

-- For a request that does not wrap, the span covers what lies in the file.
pub round_span_covers :
    (page_size file_size off len : ℕ)
    → 0 < page_size
    → off + len + page_size ≤ word_limit
    → ((round_span page_size file_size off len).first ≤ off)
      × (min (off + len) file_size ≤ (round_span page_size file_size off len).last)
unfolding round_span
round_span_covers page_size file_size off len pos fits = ground (
  arith,
  rounded_end_exact page_size file_size off len pos fits,
  div_mul_bounds off page_size pos,
  div_mul_bounds (off + len + (page_size - 1)) page_size pos,
)

-- A request that is not empty, begins inside the file and ends a page below 2 ^ 64 at the latest is
-- widened to whole pages: every page it overlaps lies in the span whole (the file's last page to the
-- file's end), and the span starts on a page boundary, ends on one or at the file's end, and fits a
-- 32-bit length. Or it is issued as it was asked for; then the request with two pages is longer than
-- 2 ^ 32 - 1 bytes.
pub round_span_pages :
    (page_size file_size off len i : ℕ)
    → 0 < page_size
    → off + len + page_size ≤ word_limit
    → off < file_size
    → 0 < len
    → i * page_size < min (off + len) file_size
    → off < suc i * page_size
    → let s = round_span page_size file_size off len in
      ((s.first ≤ i * page_size)
        × (min (suc i * page_size) file_size ≤ s.last)
        × (s.first % page_size ≡ 0)
        × ((s.last % page_size ≡ 0) ⊎ (s.last ≡ file_size))
        × (s.last - s.first ≤ max_wire_length))
      ⊎ ((s.first ≡ off) × (s.last ≡ off + len) × (max_wire_length < len + 2 * page_size))
unfolding round_span
round_span_pages page_size file_size off len i pos fits inside some_bytes below above = ground (
  arith,
  rounded_end_exact page_size file_size off len pos fits,
  div_mul_bounds off page_size pos,
  div_mul_bounds (off + len + (page_size - 1)) page_size pos,
  page_below i ((off + len + (page_size - 1)) / page_size) page_size (off + len),
  page_above i (off / page_size) page_size off above,
  mul-mod_left (off / page_size) page_size,
  mul-mod_left ((off + len + (page_size - 1)) / page_size) page_size,
)
