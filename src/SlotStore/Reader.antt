-- ===== src/SlotStore/Reader.antt =====
-- src/core/SlotStore.cc: a reader that comes by a block's beginning.
use xrd_ucache.Base.{
  ℕ, zero, suc, ◌+◌, ◌*◌, ◌-◌, ◌%◌, ◌^◌, ◌≤◌, ◌<◌, ◌≡◌, refl, arith, Bool, true, false, not, ◌&&◌,
  ◌||◌, List, ◌++◌, if◌then◌else◌, add64, ltb, leb, length, All, Content, ap, ◌∙◌, Bool-cases, inl,
  inr,
}
use native.Mathlib.Decide.{dec_lt}
use mathlib.Core.Path.{subst}
use xrd_ucache.Sidecar.Codec.{get}
use xrd_ucache.SlotStore.{SlotEntry, block_header, entry_bytes, k_align, align_up}
use xrd_ucache.SlotStore.Blocks.{Scan, header_ok, entries_ok, scan_block, scan_blocks, in_block}
use xrd_ucache.SlotStore.Commit.{table_of}
use xrd_ucache.SlotStore.Entries.{IsEntry}
use xrd_ucache.SlotStore.Layout.{Holds}
use xrd_ucache.SlotStore.Found.{scan_block-Holds}

module _ (crc32c : List ℕ → ℕ) (full : ℕ → ℕ → Bool) (f : Content) (id end : ℕ) where
  -- Whether a block that begins at `pos` passes each check.
  unfoldable pub is_whole : ℕ → Bool
  is_whole pos =
      header_ok crc32c full f id end pos
      && (not (
            ltb (get f (pos + 16) 8) (block_header + get f (pos + 24) 4 * entry_bytes)
            || ltb end (add64 pos (get f (pos + 16) 8)))
          && entries_ok crc32c full f id end pos (get f (pos + 24) 4))

  -- No block that begins in the span reaches past its end.
  abbrev pub IsClear : ℕ → ℕ → Type 0
  IsClear lo base =
      (pos : ℕ)
      → lo ≤ pos
      → pos < base
      → pos % k_align ≡ 0
      → is_whole pos ≡ true
      → pos + get f (pos + 16) 8 ≤ base

  pub scan_block_pos :
      (s : Scan)
      → (scan_block crc32c full f id end s).pos ≡ (
          if is_whole s.pos then align_up (add64 s.pos (get f (s.pos + 16) 8)) else s.pos + k_align)
  unfolding scan_block is_whole
  scan_block_pos s =
      let size = get f (s.pos + 16) 8 in
      let n = get f (s.pos + 24) 4 in
      elim (Bool-cases (header_ok crc32c full f id end s.pos)) [
        | inr a ↦ rw a refl
        | inl a ↦
            elim (Bool-cases
              (ltb size (block_header + n * entry_bytes) || ltb end (add64 s.pos size))) [
                | inl b ↦ rw (a, b) refl
                | inr b ↦ elim (Bool-cases (entries_ok crc32c full f id end s.pos n)) [
                  | inl c ↦ rw (a, b, c) refl
                  | inr c ↦ rw (a, b, c) refl
                ]
              ]
      ]

  pub whole_size : (pos : ℕ) → is_whole pos ≡ true → block_header ≤ get f (pos + 16) 8
  unfolding is_whole
  whole_size pos w = ground (arith, w)

  -- A round before `base` moves on, to a boundary not past it.
  scan_block-near :
      (s : Scan) (lo base : ℕ)
      → IsClear lo base
      → lo ≤ s.pos
      → s.pos < base
      → s.pos % k_align ≡ 0
      → base % k_align ≡ 0
      → base < 2 ^ 63
      → (s.pos + k_align ≤ (scan_block crc32c full f id end s).pos)
        × ((scan_block crc32c full f id end s).pos ≤ base)
        × ((scan_block crc32c full f id end s).pos % k_align ≡ 0)
  scan_block-near s lo base clear from before at at_base small =
      let next = scan_block_pos s in
      elim (Bool-cases (is_whole s.pos)) [
        | inl w ↦
            let ends = clear s.pos from before at w in
            let size = whole_size s.pos w in
            let here : (scan_block crc32c full f id end s).pos
                ≡ align_up (s.pos + get f (s.pos + 16) 8) =
              next ∙ rw w (ap align_up (omega arith)) in
            rw here (unfold align_up in omega arith)
        | inr w ↦
            let here : (scan_block crc32c full f id end s).pos ≡ s.pos + k_align =
              next ∙ rw w refl in
            rw here (omega arith)
      ]

  scan_blocks_end :
      (fuel : ℕ) (s : Scan)
      → end < s.pos + block_header
      → scan_blocks crc32c full f id end fuel s ≡ s
  unfolding scan_blocks
  scan_blocks_end zero s h = refl
  scan_blocks_end (suc fuel) s h =
      let out : leb (s.pos + block_header) end ≡ false = ground arith in rw (out, scan_blocks) refl

  scan_blocks_next :
      (fuel : ℕ) (s : Scan)
      → s.pos + block_header ≤ end
      → scan_blocks crc32c full f id end (suc fuel) s
        ≡ scan_blocks crc32c full f id end fuel (scan_block crc32c full f id end s)
  unfolding scan_blocks
  scan_blocks_next fuel s h =
      let more : leb (s.pos + block_header) end ≡ true = ground arith in rw (more, scan_blocks) refl

  -- The loop comes to `base`.
  pub scan_blocks-reaches :
      (fuel : ℕ) (s : Scan) (lo base rest : ℕ)
      → IsClear lo base
      → lo ≤ s.pos
      → s.pos ≤ base
      → s.pos % k_align ≡ 0
      → base % k_align ≡ 0
      → base < 2 ^ 63
      → base + block_header ≤ end
      → base + rest * k_align ≤ s.pos + fuel * k_align
      → (t : Scan) × (more : ℕ) × (rest ≤ more)
        × (t.pos ≡ base)
        × (scan_blocks crc32c full f id end fuel s ≡ scan_blocks crc32c full f id end more t)
  scan_blocks-reaches zero s lo base rest clear from before at at_base small room fuelled =
      (s, 0, omega arith, omega arith, refl)
  scan_blocks-reaches (suc fuel) s lo base rest clear from before at at_base small room fuelled =
      elim (dec_lt s.pos base) [
        | no there ↦ (s, suc fuel, omega arith, omega arith, refl)
        | yes on ↦
            let next = scan_block crc32c full f id end s in
            let (moved, near, aligned) = scan_block-near s lo base clear from on at at_base small in
            let (t, left, enough, there, same) =
              scan_blocks-reaches fuel next lo base rest clear (omega arith) near aligned at_base
                small room (omega arith) in
            (t, left, enough, there, scan_blocks_next fuel s (omega arith) ∙ same)
      ]

  last_round :
      (left : ℕ) (t : Scan) (l : List SlotEntry)
      → 1 ≤ left
      → end + k_align < 2 ^ 63
      → full t.pos block_header ≡ true
      → full (t.pos + block_header) (length l * entry_bytes) ≡ true
      → t.pos + block_header + length l * entry_bytes ≤ end
      → All (λ e. IsEntry e × (in_block t.pos (end - t.pos) e ≡ true)) l
      → Holds crc32c f t.pos id (end - t.pos) (length l) (table_of l)
      → ((scan_blocks crc32c full f id end left t).pos ≡ align_up end)
        × ((scan_blocks crc32c full f id end left t).out ≡ t.out ++ l)
  last_round zero t l some_left small head rows room a h = absurd (omega arith)
  last_round (suc k) t l some_left small head rows room a h =
      let (pos, out) =
        scan_block-Holds crc32c full f id end t (end - t.pos) l head rows (omega arith)
          (omega arith) (omega arith) a h in
      let next = scan_block crc32c full f id end t in
      let whole : t.pos + (end - t.pos) ≡ end = omega arith in
      let at : next.pos ≡ align_up end = pos ∙ ap align_up whole in
      let past : end < next.pos + block_header = rw at (unfold align_up in omega arith) in
      let same = scan_blocks_next k t (omega arith) ∙ scan_blocks_end k next past in
      (ap (λ (r : Scan). r.pos) same ∙ at, ap (λ (r : Scan). r.out) same ∙ out)

  -- Coming by `base`, the loop reads the block there last, if it is whole and the file ends with it.
  pub scan_blocks-last :
      (fuel : ℕ) (s : Scan) (lo base : ℕ) (l : List SlotEntry)
      → IsClear lo base
      → lo ≤ s.pos
      → s.pos ≤ base
      → s.pos % k_align ≡ 0
      → base % k_align ≡ 0
      → end + k_align < 2 ^ 63
      → base + k_align ≤ s.pos + fuel * k_align
      → full base block_header ≡ true
      → full (base + block_header) (length l * entry_bytes) ≡ true
      → base + block_header + length l * entry_bytes ≤ end
      → All (λ e. IsEntry e × (in_block base (end - base) e ≡ true)) l
      → Holds crc32c f base id (end - base) (length l) (table_of l)
      → (before : List SlotEntry) × ((scan_blocks crc32c full f id end fuel s).out ≡ before ++ l)
        × ((scan_blocks crc32c full f id end fuel s).pos ≡ align_up end)
  scan_blocks-last fuel s lo base l clear from before at at_base small fuelled head rows room a h =
      let (t, left, enough, there, same) =
        scan_blocks-reaches fuel s lo base 1 clear from before at at_base (omega arith)
          (omega arith) (omega arith) in
      let F : ℕ → Type 0 = λ b.
        full b block_header ≡ true
        → full (b + block_header) (length l * entry_bytes) ≡ true
        → b + block_header + length l * entry_bytes ≤ end
        → All (λ e. IsEntry e × (in_block b (end - b) e ≡ true)) l
        → Holds crc32c f b id (end - b) (length l) (table_of l)
        → ((scan_blocks crc32c full f id end left t).pos ≡ align_up end)
          × ((scan_blocks crc32c full f id end left t).out ≡ t.out ++ l) in
      let (pos, out) = subst F there (last_round left t l enough small) head rows room a h in
      (t.out, ap (λ (r : Scan). r.out) same ∙ out, ap (λ (r : Scan). r.pos) same ∙ pos)
