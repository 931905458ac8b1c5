-- ===== src/Entry/Range.antt =====
-- src/core/FileEntry.cc: what `hasRange` answers.
use xrd_ucache.Base.{
  ℕ, zero, suc, ◌+◌, ◌-◌, ◌/◌, ◌≤◌, ◌<◌, ◌≡◌, refl, sym, ◌∙◌, true, false, ◌&&◌, ◌||◌, [], ◌∷◌,
  arith, ltb, ◌==◌, if◌then◌else◌, Bool-cases, inl, inr, ◌↔◌, ==_iff, add64, word_limit,
}
use xrd_ucache.Base.PageMap.{PageMap, holds}
use xrd_ucache.Bitmap
use xrd_ucache.Bitmap.Counts.{range_set_iff}
use xrd_ucache.Entry.{Entry, BufPage, page_here, all_here, is_empty, has_range}

-- Every page of an inclusive range is present, staged or being written.
abbrev pub IsHere : Entry → ℕ → ℕ → Type 0
IsHere e first last = (i : ℕ) → first ≤ i → i ≤ last → page_here e i ≡ true

all_here_sound :
    (rounds i : ℕ) (e : Entry) (j : ℕ)
    → all_here rounds i e ≡ true
    → i ≤ j
    → j < i + rounds
    → page_here e j ≡ true
unfolding all_here
all_here_sound zero i e j h p q = absurd (omega arith)
all_here_sound (suc rounds) i e j h p q = elim (Bool-cases (i == j)) [
  | inl c ↦ rw (← (==_iff i j).0 c) (ground (arith, h))
  | inr c ↦ all_here_sound rounds (i + 1) e j (ground (arith, h)) (ground (arith, c)) (omega arith)
]

all_here_complete :
    (rounds i : ℕ) (e : Entry)
    → ((j : ℕ) → i ≤ j → j < i + rounds → page_here e j ≡ true)
    → all_here rounds i e ≡ true
unfolding all_here
all_here_complete zero i e h = refl
all_here_complete (suc rounds) i e h =
    let here : page_here e i ≡ true = h i (omega arith) (omega arith) in
    let rest : all_here rounds (i + 1) e ≡ true =
      all_here_complete rounds (i + 1) e (λ j p q. h j (omega arith) (omega arith)) in
    ground (arith, here, rest)

holds-is_empty : (i : ℕ) (m : PageMap BufPage) → is_empty m ≡ true → holds i m ≡ false
unfolding is_empty holds
holds-is_empty i [] h = refl
holds-is_empty i ((j, p) ∷ m) h = absurd (cc)

-- With nothing staged only the bitmap counts.
page_here-unstaged :
    (e : Entry) (i : ℕ)
    → is_empty e.buf ≡ true
    → is_empty e.flushing ≡ true
    → page_here e i ≡ Bitmap.get e.meta.bitmap i
unfolding page_here
page_here-unstaged e i b f = ground (arith, holds-is_empty i e.buf b, holds-is_empty i e.flushing f)

-- The answer once the range is known to be inside the file.
IsHere-iff :
    (e : Entry) (first last : ℕ)
    → (if is_empty e.buf && is_empty e.flushing
          then Bitmap.range_set e.meta.bitmap first last
          else all_here (last + 1 - first) first e)
        ≡ true
      ↔ IsHere e first last
IsHere-iff e first last = elim (Bool-cases (is_empty e.buf && is_empty e.flushing)) [
  | inl unstaged ↦
      let same =
        λ (i : ℕ). page_here-unstaged e i (ground (arith, unstaged)) (ground (arith, unstaged)) in
      let bits = range_set_iff e.meta.bitmap first last in
      rw unstaged
        (λ h i p q. same i ∙ bits.0 h i p q, λ h. bits.1 (λ i p q. sym (same i) ∙ h i p q))
  | inr staged ↦ rw staged (
    λ h i p q. all_here_sound (last + 1 - first) first e i h p (omega arith),
    λ h. all_here_complete (last + 1 - first) first e (λ i p q. h i p (omega arith)),
  )
]

-- A range that `hasRange` may answer for: not empty, and inside the file.
abbrev pub IsAsked : Entry → ℕ → ℕ → Type 0
IsAsked e off len = (0 < len) × (off + len ≤ e.meta.file_size)

-- `hasRange` answers true exactly for a range that is not empty and inside the file, each of whose pages
-- is present, staged or being written; a sum that wraps is refused.
pub has_range_iff :
    (e : Entry) (off len : ℕ)
    → off < word_limit
    → len < word_limit
    → e.meta.file_size < word_limit
    → (has_range e off len ≡ true)
      ↔ (IsAsked e off len × IsHere e (off / e.meta.page_size) ((off + len - 1) / e.meta.page_size))
unfolding has_range
has_range_iff e off len a b c =
    elim (Bool-cases
      (len == 0 || ltb (add64 off len) off || ltb e.meta.file_size (add64 off len))) [
        | inl refused ↦
            rw refused (λ h. absurd (cc), λ h. absurd (ground (arith, refused, h.0, a, b, c)))
        | inr asked ↦
            let core = IsHere-iff e (off / e.meta.page_size) ((off + len - 1) / e.meta.page_size) in
            rw asked (λ h. ((ground arith, ground arith), core.0 h), λ h. core.1 h.1)
      ]
