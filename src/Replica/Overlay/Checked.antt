-- ===== src/Replica/Overlay/Checked.antt =====
-- src/core/ReplicaStore.cc: the runs of `ReplicaView::read` and the checks of their pages.
use xrd_ucache.Base.{
  ℕ, zero, suc, ◌+◌, ◌-◌, ◌*◌, ◌≤◌, ◌<◌, ◌≡◌, refl, inl, inr, arith, true, ◌&&◌, List, ltb, leb,
  min, length, take, drop, get_or, Content, slice, Bool-cases, sym, ap, ◌∙◌, take-slice-min,
  length-slice, take-drop-slice,
}
use mathlib.Core.Path.{subst}
use native.Mathlib.Decide.{ℕ_discrete}
use xrd_ucache.Replica.Overlay.{
  overlay_page, max_coalesced, overlay_page_bytes, overlay_run_bytes, Reading, grow_run, verify_run,
  read_overlay_run,
}

-- A run begins at its first page, ends by the last one, and grows.
pub grow_run-bounds :
    (tdata_bytes first last rounds rl : ℕ)
    → rl ≤ last
    → (rl ≤ grow_run tdata_bytes first last rounds rl)
      × (grow_run tdata_bytes first last rounds rl ≤ last)
unfolding grow_run
grow_run-bounds tdata_bytes first last zero rl h = omega arith
grow_run-bounds tdata_bytes first last (suc rounds) rl h =
    elim (Bool-cases
      (ltb rl last && leb (overlay_run_bytes tdata_bytes first (rl + 1)) max_coalesced)) [
        | inl c ↦
            let (lo, hi) =
              grow_run-bounds tdata_bytes first last rounds (rl + 1) (ground (arith, c)) in
            rw c (omega arith, hi)
        | inr c ↦ rw c (omega arith, h)
      ]

module _ (crc : List ℕ → ℕ) (io : ℕ → ℕ → ℕ) (tdata : Content) (tdata_bytes : ℕ)
    (crcs : List ℕ) where
  -- The page on disk has its checksum.
  abbrev pub IsGood : ℕ → Type 0
  IsGood i =
      crc (slice tdata (i * overlay_page) (overlay_page_bytes tdata_bytes i)) ≡ get_or crcs i 0

  -- One page of a run, `at` bytes after its start.
  pub verify_run-page :
      (start i at k n : ℕ)
      → start + at ≡ i * overlay_page
      → at + overlay_page_bytes tdata_bytes i ≤ length (take k (slice tdata start n))
      → take (overlay_page_bytes tdata_bytes i) (drop at (take k (slice tdata start n)))
        ≡ slice tdata (i * overlay_page) (overlay_page_bytes tdata_bytes i)
  verify_run-page start i at k n e h =
      let arrived = take-slice-min tdata start n k in
      let size = ap length arrived ∙ length-slice tdata start (min k n) in
      ap (λ l. take (overlay_page_bytes tdata_bytes i) (drop at l)) arrived
      ∙ take-drop-slice tdata start (min k n) at (overlay_page_bytes tdata_bytes i) (omega arith)
      ∙ ap (λ x. slice tdata x (overlay_page_bytes tdata_bytes i)) e

  -- What the checks of one more page say.
  verify_run-head :
      (rounds i at : ℕ) (got : List ℕ)
      → verify_run crc io tdata tdata_bytes crcs (suc rounds) i at got ≡ true
      → (at + overlay_page_bytes tdata_bytes i ≤ length got)
        × (crc (take (overlay_page_bytes tdata_bytes i) (drop at got)) ≡ get_or crcs i 0)
        × (verify_run crc io tdata tdata_bytes crcs rounds
              (i + 1)
              (at + overlay_page_bytes tdata_bytes i)
              got
            ≡ true)
  unfolding verify_run
  verify_run-head rounds i at got v = (ground (arith, v), ground (arith, v), ground (arith, v))

  -- The checks of a run that are met: each page is good, and the bytes of all arrived.
  pub verify_run-IsGood :
      (rounds start i at k n : ℕ)
      → start + at ≡ i * overlay_page
      → (i + rounds) * overlay_page < tdata_bytes
      → verify_run crc io tdata tdata_bytes crcs (suc rounds) i at (take k (slice tdata start n))
        ≡ true
      → (min ((i + rounds) * overlay_page + overlay_page) tdata_bytes - start
          ≤ length (take k (slice tdata start n)))
        × ((j : ℕ) → i ≤ j → j ≤ i + rounds → IsGood j)
  unfolding overlay_page_bytes
  verify_run-IsGood zero start i at k n e w v =
      let (long, good, rest) = verify_run-head zero i at (take k (slice tdata start n)) v in
      let page = verify_run-page start i at k n e long in
      let here : IsGood i = ap crc (sym page) ∙ good in
      (omega arith, λ j p q. let same : i ≡ j = omega arith in subst IsGood same here)
  verify_run-IsGood (suc rounds) start i at k n e w v =
      let got = take k (slice tdata start n) in
      let (long, good, rest) = verify_run-head (suc rounds) i at got v in
      let page = verify_run-page start i at k n e long in
      let here : IsGood i = ap crc (sym page) ∙ good in
      let whole : overlay_page_bytes tdata_bytes i ≡ overlay_page = omega arith in
      let (all, more) =
        verify_run-IsGood rounds start (i + 1) (at + overlay_page_bytes tdata_bytes i) k n
          (omega (arith, whole)) (omega arith) rest in
      (
        omega (arith, all),
        λ j p q. elim (ℕ_discrete i j) [
          | yes same ↦ subst IsGood same here
          | no other ↦ more j (omega arith) (omega arith)
        ],
      )

  -- A run answers what its checks say.
  pub run_answer :
      (off len rf rl : ℕ) (s : Reading)
      → (read_overlay_run crc io tdata tdata_bytes crcs off len rf rl s).1
        ≡ verify_run crc io tdata tdata_bytes crcs (rl + 1 - rf) rf 0 (
            take
              (io (rf * overlay_page) (overlay_run_bytes tdata_bytes rf rl))
              (slice tdata (rf * overlay_page) (overlay_run_bytes tdata_bytes rf rl)))
  unfolding read_overlay_run
  run_answer off len rf rl s =
      let start = rf * overlay_page in
      let n = overlay_run_bytes tdata_bytes rf rl in
      let got = take (io start n) (slice tdata start n) in
      elim (Bool-cases (verify_run crc io tdata tdata_bytes crcs (rl + 1 - rf) rf 0 got)) [
        | inl c ↦ rw c refl
        | inr c ↦ rw c refl
      ]
