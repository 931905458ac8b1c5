-- ===== src/SlotStore/Found.antt =====
-- src/core/SlotStore.cc: the loop of `readBlocks`, at a block that is whole and on its way to one.
use xrd_ucache.Base.{
  ℕ, ◌+◌, ◌*◌, ◌^◌, ◌≤◌, ◌<◌, ◌≡◌, refl, arith, Bool, true, false, ◌||◌, List, ◌++◌, ◌==◌, add64,
  ltb, length, All, Content, slice, ap, ◌∙◌, sym,
}
use xrd_ucache.Sidecar.Codec.{get, same_bytes}
use xrd_ucache.SlotStore.{SlotEntry, block_header, entry_bytes, align_up}
use xrd_ucache.SlotStore.Blocks.{
  Scan, block_magic, header_ok, entries_ok, scan_block, decode_entries, in_block,
}
use xrd_ucache.SlotStore.Commit.{table_of}
use xrd_ucache.SlotStore.Entries.{IsEntry, decode_entries-table_of, length-table_of}
use xrd_ucache.SlotStore.Layout.{Holds}

module _ (crc32c : List ℕ → ℕ) (full : ℕ → ℕ → Bool) (f : Content) (id end : ℕ) where
  header_ok-Holds :
      (pos size n : ℕ) (table : List ℕ)
      → full pos block_header ≡ true
      → Holds crc32c f pos id size n table
      → header_ok crc32c full f id end pos ≡ true
  unfolding header_ok
  header_ok-Holds pos size n table here h =
      let magic = h.magic in
      let store_id = h.store_id in
      let sum = h.header_crc in
      let same : same_bytes (slice f pos 8) block_magic ≡ true =
        rw magic (unfold same_bytes in refl) in
      let mine : (get f (pos + 8) 8 == id) ≡ true = ground arith in
      let signed : (get f (pos + 60) 4 == crc32c (slice f pos 60)) ≡ true = ground arith in
      rw (here, same, mine, signed) refl

  entries_ok-Holds :
      (pos size n : ℕ) (table : List ℕ)
      → full (pos + block_header) (n * entry_bytes) ≡ true
      → length table ≡ n * entry_bytes
      → Holds crc32c f pos id size n table
      → entries_ok crc32c full f id end pos n ≡ true
  unfolding entries_ok
  entries_ok-Holds pos size n table here long h =
      let rows : slice f (pos + block_header) (n * entry_bytes) ≡ table =
        ap (slice f (pos + block_header)) (sym long) ∙ h.rows in
      let sum = h.entries_crc in
      let signed : (crc32c (slice f (pos + block_header) (n * entry_bytes)) == get f (pos + 28) 4)
          ≡ true =
        rw rows (ground arith) in
      rw (here, signed) (ground arith)

  -- A whole block is read, and the loop goes on behind it.
  pub scan_block-Holds :
      (s : Scan) (size : ℕ) (l : List SlotEntry)
      → full s.pos block_header ≡ true
      → full (s.pos + block_header) (length l * entry_bytes) ≡ true
      → block_header + length l * entry_bytes ≤ size
      → s.pos + size ≤ end
      → end < 2 ^ 64
      → All (λ e. IsEntry e × (in_block s.pos size e ≡ true)) l
      → Holds crc32c f s.pos id size (length l) (table_of l)
      → ((scan_block crc32c full f id end s).pos ≡ align_up (s.pos + size))
        × ((scan_block crc32c full f id end s).out ≡ s.out ++ l)
  unfolding scan_block
  scan_block-Holds s size l head rows room fits small a h =
      let ok = header_ok-Holds s.pos size (length l) (table_of l) head h in
      let size_there = h.block_len in
      let count_there = h.count in
      let n = length l in
      let ents = entries_ok-Holds s.pos size n (table_of l) rows (length-table_of l) h in
      let long : (ltb size (block_header + n * entry_bytes) || ltb end (add64 s.pos size)) ≡ false =
        ground arith in
      let table : slice f (s.pos + block_header) (n * entry_bytes) ≡ table_of l =
        ap (slice f (s.pos + block_header)) (sym (length-table_of l)) ∙ h.rows in
      let decoded =
        ap (decode_entries s.pos size n) table ∙ decode_entries-table_of s.pos size l a in
      let exact : add64 s.pos size ≡ s.pos + size = omega arith in
      rw (ok, size_there, count_there, long, ents, decoded, exact) (refl, refl)
