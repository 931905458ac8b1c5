-- ===== src/Rounding.antt =====
-- src/plugin/ReadRounding.h: widening a request to whole pages, and cutting a run into vector-read
-- elements. The loop that calls the cut is the one of src/plugin/UCacheFile.cc (the wire elements
-- of a vector read). Sizes and offsets are uint64_t; a sum wraps where the source's does.
pub mod Covers
pub mod Cut
use xrd_ucache.Base.{
  ℕ, zero, suc, ◌+◌, ◌-◌, ◌*◌, ◌/◌, ◌%◌, ◌^◌, List, [], ◌∷◌, if◌then◌else◌, leb, ltb, min,
  word_limit, add64,
}

-- `kMaxReadvElem`.
abbrev pub max_readv_elem : ℕ
max_readv_elem = 2 * 1024 * 1024 - 16

-- `numeric_limits<uint32_t>::max()`.
abbrev pub max_wire_length : ℕ
max_wire_length = 2 ^ 32 - 1

pub record Span : Type 0 where
  pub first : ℕ
  pub last : ℕ

-- `(off + len + pageSize - 1) / pageSize * pageSize`, clamped to the file; the sum wraps.
rounded_end : ℕ → ℕ → ℕ → ℕ → ℕ
rounded_end page_size file_size off len =
    min ((off + len + page_size + (2 ^ 64 - 1)) % 2 ^ 64 / page_size * page_size) file_size

pub round_span : ℕ → ℕ → ℕ → ℕ → Span
unfolding rounded_end
round_span page_size file_size off len =
    let start = off / page_size * page_size in
    let end = rounded_end page_size file_size off len in
    let as_asked : Span = record { first = off; last = (off + len) % 2 ^ 64 } in
    if leb end start
    then as_asked
    else if ltb max_wire_length (end - start)
    then as_asked
    else record { first = start; last = end }

-- Where to cut [start, end) for one element; the callers have start < end.
pub readv_elem_end : ℕ → ℕ → ℕ → ℕ
readv_elem_end start end page_size =
    if leb (end - start) max_readv_elem
    then end
    else let cut = start + max_readv_elem - (start + max_readv_elem) % page_size in
      min (if leb cut start then add64 start page_size else cut) end

-- `for (at = s; at < e;) { cut = readvElemEnd(at, e, page); push; at = cut; }` with fuel.
pub cut_run : ℕ → ℕ → ℕ → ℕ → List Span
unfolding readv_elem_end
cut_run zero at end page_size = []
cut_run (suc fuel) at end page_size =
    let cut = readv_elem_end at end page_size in
    let rest = cut_run fuel cut end page_size in
    if ltb at end then record { first = at; last = cut } ∷ rest else []
