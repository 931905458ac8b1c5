-- ===== src/SlotStore/Blocks.antt =====
-- src/core/SlotStore.cc: `readBlocks`. What the disk does with a read is a parameter: whether it fills
-- it. A read past the file's end is never filled.
use xrd_ucache.Base.{
  ℕ, zero, suc, ◌+◌, ◌*◌, ◌/◌, ◌^◌, Bool, true, false, not, ◌&&◌, ◌||◌, List, [], ◌∷◌, ◌++◌, ◌==◌,
  if◌then◌else◌, add64, ltb, leb, max, take, drop, Content, slice,
}
use xrd_ucache.Sidecar.Codec.{get, same_bytes}
use xrd_ucache.SlotStore.{
  SlotEntry, SlotStore, k_kept, k_align, block_header, entry_bytes, align_up, entry_at, known_kind,
}

-- 'U', 'S', 'B', 'L', 'O', 'C', 'K', '1'.
abbrev pub block_magic : List ℕ
block_magic = 85 ∷ 83 ∷ 66 ∷ 76 ∷ 79 ∷ 67 ∷ 75 ∷ 49 ∷ []

-- An entry is taken if its kind is known and its record lies in the block.
unfoldable pub in_block : ℕ → ℕ → SlotEntry → Bool
unfolding known_kind
in_block pos block_len e =
    known_kind e.kind
    && (e.kind == k_kept || (leb pos e.off && leb (add64 e.off e.len) (add64 pos block_len)))

-- The entries of the n that are in `p`.
unfoldable pub decode_entries : ℕ → ℕ → ℕ → List ℕ → List SlotEntry
unfolding entry_at in_block
decode_entries pos block_len zero p = []
decode_entries pos block_len (suc n) p =
    let e = entry_at (take entry_bytes p) in
    let rest = decode_entries pos block_len n (drop entry_bytes p) in
    if in_block pos block_len e then e ∷ rest else rest

-- The loop's variables.
pub record Scan : Type 0 where
  pub pos : ℕ
  pub claimed_end : ℕ
  pub out : List SlotEntry

module _ (crc32c : List ℕ → ℕ) (full : ℕ → ℕ → Bool) (f : Content) (store_id end : ℕ) where
  unfoldable pub header_ok : ℕ → Bool
  unfolding get same_bytes
  header_ok pos =
      full pos block_header
      && same_bytes (slice f pos 8) block_magic
      && get f (pos + 8) 8 == store_id
      && get f (pos + 60) 4 == crc32c (slice f pos 60)

  unfoldable pub entries_ok : ℕ → ℕ → Bool
  unfolding get
  entries_ok pos n =
      n == 0
      || (full (pos + block_header) (n * entry_bytes)
          && crc32c (slice f (pos + block_header) (n * entry_bytes)) == get f (pos + 28) 4)

  -- One round of the loop.
  unfoldable pub scan_block : Scan → Scan
  unfolding header_ok entries_ok get decode_entries align_up
  scan_block s =
      let ok = header_ok s.pos in
      let block_len = if ok then get f (s.pos + 16) 8 else 0 in
      let n = if ok then get f (s.pos + 24) 4 else 0 in
      let claimed =
        if ok && leb block_header block_len && ltb block_len (2 ^ 40)
        then max s.claimed_end (add64 s.pos block_len)
        else s.claimed_end in
      let over : Scan = record { pos = s.pos + k_align; claimed_end = claimed; out = s.out } in
      let ents = slice f (s.pos + block_header) (n * entry_bytes) in
      if not ok || ltb block_len (block_header + n * entry_bytes) || ltb end (add64 s.pos block_len)
      then over
      else if not (entries_ok s.pos n)
      then over
      else record {
        pos = align_up (add64 s.pos block_len);
        claimed_end = claimed;
        out = s.out ++ decode_entries s.pos block_len n ents;
      }

  unfoldable pub scan_blocks : ℕ → Scan → Scan
  unfolding scan_block
  scan_blocks zero s = s
  scan_blocks (suc fuel) s = elim (leb (s.pos + block_header) end) [
    | true ↦ scan_blocks fuel (scan_block s)
    | false ↦ s
  ]

-- A round moves on by a block header at least, but for a block whose claimed length wraps: the source
-- goes back then and may not end, and the model stops.
unfoldable pub rounds : ℕ → ℕ
rounds end = end / block_header + 1

-- `readBlocks` of a file up to `end`.
unfoldable pub read_blocks :
    (List ℕ → ℕ) → (ℕ → ℕ → Bool) → Content → ℕ → SlotStore → SlotStore × List SlotEntry
unfolding scan_blocks rounds
read_blocks crc32c full f end s =
    let r =
      scan_blocks crc32c full f s.store_id end (rounds end)
        (record { pos = s.read_off; claimed_end = s.claimed_end; out = [] }) in
    (record s { read_off = max s.read_off r.pos; claimed_end = r.claimed_end }, r.out)
