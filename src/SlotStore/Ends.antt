-- ===== src/SlotStore/Ends.antt =====
-- src/core/SlotStore.cc: the loop of `readBlocks` ends.
use xrd_ucache.Base.{
  ℕ, zero, suc, ◌+◌, ◌*◌, ◌-◌, ◌/◌, ◌%◌, ◌^◌, ◌≤◌, ◌<◌, ◌≡◌, refl, arith, Bool, true, false, List,
  [], add64, leb, Content, Bool-cases, inl, inr, div_mul_bounds,
}
use native.Mathlib.Nat.{mul-mod_left}
use xrd_ucache.Sidecar.Codec.{get}
use xrd_ucache.SlotStore.{SlotStore, block_header, k_align, align_up}
use xrd_ucache.SlotStore.Blocks.{Scan, scan_block, scan_blocks, read_blocks, rounds}
use xrd_ucache.SlotStore.Reader.{is_whole, scan_block_pos, whole_size}

module _ (crc32c : List ℕ → ℕ) (full : ℕ → ℕ → Bool) (f : Content) (id end : ℕ) where
  -- No block that begins between the two passes 2 ^ 64 with the length that it claims.
  abbrev pub NoneWraps : ℕ → Type 0
  NoneWraps lo =
      (pos : ℕ)
      → lo ≤ pos
      → pos + block_header ≤ end
      → pos % k_align ≡ 0
      → is_whole crc32c full f id end pos ≡ true
      → pos + get f (pos + 16) 8 + k_align ≤ 2 ^ 64

  -- A place on a boundary, at least a header on.
  record IsLater (pos later : ℕ) : Type 0 where
    past : pos + block_header ≤ later
    aligned : later % k_align ≡ 0

  align_up-IsLater :
      (pos size : ℕ)
      → block_header ≤ size
      → pos + size + k_align ≤ 2 ^ 64
      → IsLater pos (align_up (add64 pos size))
  unfolding align_up
  align_up-IsLater pos size long room =
      let exact : add64 (add64 pos size) (k_align - 1) ≡ pos + size + 4095 = omega arith in
      record {
        past = omega arith;
        aligned = mul-mod_left (add64 (add64 pos size) (k_align - 1) / k_align) k_align;
      }

  scan_block-IsLater :
      (s : Scan)
      → NoneWraps s.pos
      → s.pos + block_header ≤ end
      → s.pos % k_align ≡ 0
      → IsLater s.pos (scan_block crc32c full f id end s).pos
  scan_block-IsLater s bounded inside at =
      let next = scan_block_pos crc32c full f id end s in
      elim (Bool-cases (is_whole crc32c full f id end s.pos)) [
        | inl w ↦
            let size = whole_size crc32c full f id end s.pos w in
            let room = bounded s.pos (omega arith) inside at w in
            rw (next, w) (align_up-IsLater s.pos (get f (s.pos + 16) 8) size room)
        | inr w ↦ rw (next, w) (record { past = omega arith; aligned = omega arith })
      ]

  ended : (n : ℕ) (s : Scan) → end < s.pos + block_header → scan_blocks crc32c full f id end n s ≡ s
  unfolding scan_blocks
  ended zero s past = refl
  ended (suc n) s past =
      let out : leb (s.pos + block_header) end ≡ false = ground arith in rw (out, scan_blocks) refl

  -- The loop on enough fuel for the bytes left, and on more.
  scan_blocks-ends :
      (fuel n : ℕ) (s : Scan)
      → fuel ≤ n
      → NoneWraps s.pos
      → s.pos % k_align ≡ 0
      → end < s.pos + fuel * block_header
      → (end < (scan_blocks crc32c full f id end fuel s).pos + block_header)
        × (scan_blocks crc32c full f id end n s ≡ scan_blocks crc32c full f id end fuel s)
  unfolding scan_blocks
  scan_blocks-ends zero n s le bounded at enough = (omega arith, ended n s (omega arith))
  scan_blocks-ends (suc fuel) zero s le bounded at enough = absurd (omega arith)
  scan_blocks-ends (suc fuel) (suc n) s le bounded at enough =
      elim (Bool-cases (leb (s.pos + block_header) end)) [
        | inr c ↦ rw (c, scan_blocks) (ground (arith, c), refl)
        | inl c ↦
            let t = scan_block crc32c full f id end s in
            let later = scan_block-IsLater s bounded (ground (arith, c)) at in
            let past = later.past in
            rw (c, scan_blocks)
              (scan_blocks-ends fuel n t (omega arith)
                (λ pos lo. bounded pos (omega (arith, past, lo))) later.aligned (omega arith))
      ]

-- `readBlocks` ends, if it begins on a boundary, the file ends below 2 ^ 64, and no block that passes
-- its checks claims a length that brings it within a boundary of 2 ^ 64: whatever debris the file has and
-- whichever reads the disk fills, the rounds given suffice, since more of them come to the same, and
-- no header fits between where it has read to and the file's end.
pub read_blocks-ends :
    (crc32c : List ℕ → ℕ) (full : ℕ → ℕ → Bool) (f : Content) (end n : ℕ) (s : SlotStore)
    → s.read_off % k_align ≡ 0
    → NoneWraps crc32c full f s.store_id end s.read_off
    → rounds end ≤ n
    → let start : Scan = record { pos = s.read_off; claimed_end = s.claimed_end; out = [] } in
      (end < (read_blocks crc32c full f end s).0.read_off + block_header)
      × (scan_blocks crc32c full f s.store_id end n start
          ≡ scan_blocks crc32c full f s.store_id end (rounds end) start)
unfolding read_blocks rounds
read_blocks-ends crc32c full f end n s at bounded le =
    let start : Scan = record { pos = s.read_off; claimed_end = s.claimed_end; out = [] } in
    let b = div_mul_bounds end block_header (omega arith) in
    let r =
      scan_blocks-ends crc32c full f s.store_id end (end / block_header + 1) n start le bounded at
        (omega (arith, b)) in
    let past = r.0 in (omega (arith, past), r.1)
