-- ===== src/SlotStore/Seen.antt =====
-- src/core/SlotStore.cc: what a commit has put down is found by every reader, and reads back.
use xrd_ucache.Base.{
  ℕ, ◌-◌, ◌%◌, ◌≤◌, ◌≡◌, ◌≢◌, arith, Bool, true, List, [], ◌++◌, add64, max, length, ap, sym,
}
use mathlib.Core.Path.{subst}
use xrd_ucache.SlotStore.{SlotEntry, SlotRecord, SlotFile, SlotStore, k_align, align_up}
use xrd_ucache.SlotStore.Blocks.{Scan, read_blocks, scan_blocks, rounds}
use xrd_ucache.SlotStore.Commit.{CommitCalls, commit, write_at, block_len_of}
use xrd_ucache.SlotStore.Entries.{
  IsRecord, entries_of-in_block, data_of-total_bytes, length-entries_of,
}
use xrd_ucache.SlotStore.Layout.{Holds, first_off, table, block_of-Holds}
use xrd_ucache.SlotStore.Reader.{IsClear, scan_blocks-last}
use xrd_ucache.SlotStore.Kept.{others_of}
use xrd_ucache.SlotStore.Append.{All-untaken, ReadsBack, block_of-ReadsBack}
use xrd_ucache.SlotStore.Placed.{
  write_of, base_for, block_for, entries_for, commit-IsAdded, IsFitting, IsPlaced, commit-IsPlaced,
}

module _ (crc32c : List ℕ → ℕ) (crc32c_from : ℕ → List ℕ → ℕ) where
  -- If a commit commits something, then there is an entry for each record that it had to write, in
  -- order, and whoever reads the record of an entry, on a disk that fills each read, gets the
  -- record's bytes with their checksum right, or nothing where the record is kept as stored.
  pub commit-ReadsBack :
      (calls : CommitCalls) (full : ℕ → ℕ → Bool) (recs : List SlotRecord) (f : SlotFile)
      (s : SlotStore)
      → IsFitting crc32c crc32c_from calls recs f s
      → ((pos n : ℕ) → full pos n ≡ true)
      → (commit crc32c crc32c_from calls recs f s).committed ≢ []
      → ReadsBack crc32c crc32c_from full
          (commit crc32c crc32c_from calls recs f s).file
          s
          (write_of crc32c crc32c_from calls recs f s)
          (commit crc32c crc32c_from calls recs f s).committed
  commit-ReadsBack calls full recs f s fit fills some_new =
      let added = commit-IsAdded crc32c crc32c_from calls recs f s some_new in
      let placed = commit-IsPlaced crc32c crc32c_from calls recs f s fit in
      let g =
        write_at f (base_for crc32c crc32c_from calls f s)
          (block_for crc32c crc32c_from calls recs f s) in
      let write = write_of crc32c crc32c_from calls recs f s in
      let ends = placed.ends in
      let long = placed.long in
      let small = placed.small in
      let records =
        All-untaken IsRecord (calls.taken (others_of crc32c crc32c_from calls f s)) recs
          fit.records in
      let back =
        block_of-ReadsBack crc32c crc32c_from full g s (base_for crc32c crc32c_from calls f s) write
          records fills (omega arith) (omega arith) (omega arith) placed.there in
      rw (added.file, added.committed) back

  -- The loop of a reader on its way.
  placed_blocks :
      (calls : CommitCalls) (full : ℕ → ℕ → Bool) (recs : List SlotRecord) (f : SlotFile)
      (s : SlotStore) (g : SlotFile) (t : Scan)
      → IsFitting crc32c crc32c_from calls recs f s
      → IsPlaced crc32c crc32c_from calls recs f s g
      → ((pos n : ℕ) → full pos n ≡ true)
      → t.pos % k_align ≡ 0
      → t.pos ≤ base_for crc32c crc32c_from calls f s
      → IsClear crc32c full g.bytes s.store_id g.size t.pos (base_for crc32c crc32c_from calls f s)
      → (let end = scan_blocks crc32c full g.bytes s.store_id g.size (rounds g.size) t in
          (before : List SlotEntry) × (end.out
            ≡ before ++ entries_for crc32c crc32c_from calls recs f s)
          × (end.pos ≡ align_up g.size))
  placed_blocks calls full recs f s g t fit placed fills at behind clear =
      let base = base_for crc32c crc32c_from calls f s in
      let write = write_of crc32c crc32c_from calls recs f s in
      let off = first_off crc32c crc32c_from s.store_id base write in
      let entries = entries_for crc32c crc32c_from calls recs f s in
      let ends = placed.ends in
      let long = placed.long in
      let small = placed.small in
      let records =
        All-untaken IsRecord (calls.taken (others_of crc32c crc32c_from calls f s)) recs
          fit.records in
      let count = length-entries_of crc32c crc32c_from s.store_id off write in
      let data_fits = data_of-total_bytes write in
      let held =
        entries_of-in_block crc32c crc32c_from s.store_id base (g.size - base) off write
          fit.sum_from records (omega arith) (omega arith) (omega arith) in
      let size : block_len_of write ≡ g.size - base = unfold block_len_of in omega arith in
      let fields =
        block_of-Holds crc32c crc32c_from s.store_id base write g.bytes fit.sum fit.store_id
          fit.count placed.there in
      let fields' =
        subst
          (λ n.
            Holds crc32c g.bytes base s.store_id (g.size - base) n
              (table crc32c crc32c_from s.store_id base write))
          (sym count)
          (subst
            (λ k.
              Holds crc32c g.bytes base s.store_id k (length write)
                (table crc32c crc32c_from s.store_id base write))
            size fields) in
      scan_blocks-last crc32c full g.bytes s.store_id g.size (rounds g.size) t t.pos base entries
        clear (omega arith) behind at placed.at small (unfold rounds in omega arith) (fills _ _)
        (fills _ _) (omega arith) held fields'

  -- If a commit commits something, then whoever has the same store open, and has read up to a boundary
  -- not past the new block, finds the entries committed last of all that it reads, and has then read as
  -- far as the committer, on a disk that fills each read; provided that no block that begins between
  -- them reaches into the new one.
  pub commit-read_blocks :
      (calls : CommitCalls) (full : ℕ → ℕ → Bool) (recs : List SlotRecord) (f : SlotFile)
      (s r : SlotStore)
      → IsFitting crc32c crc32c_from calls recs f s
      → ((pos n : ℕ) → full pos n ≡ true)
      → (commit crc32c crc32c_from calls recs f s).committed ≢ []
      → r.store_id ≡ s.store_id
      → r.read_off % k_align ≡ 0
      → r.read_off ≤ base_for crc32c crc32c_from calls f s
      → (let g = (commit crc32c crc32c_from calls recs f s).file in
          IsClear crc32c full g.bytes s.store_id g.size r.read_off
            (base_for crc32c crc32c_from calls f s))
      → (let c = commit crc32c crc32c_from calls recs f s in
          let seen = read_blocks crc32c full c.file.bytes c.file.size r in
          (before : List SlotEntry) × (seen.1 ≡ before ++ c.committed)
          × (seen.0.read_off ≡ c.store.read_off))
  unfolding read_blocks
  commit-read_blocks calls full recs f s r fit fills some_new same at behind clear =
      let added = commit-IsAdded crc32c crc32c_from calls recs f s some_new in
      let placed = commit-IsPlaced crc32c crc32c_from calls recs f s fit in
      let g =
        write_at f (base_for crc32c crc32c_from calls f s)
          (block_for crc32c crc32c_from calls recs f s) in
      let t : Scan = record { pos = r.read_off; claimed_end = r.claimed_end; out = [] } in
      let clear' =
        subst
          (λ (h : SlotFile).
            IsClear crc32c full h.bytes s.store_id h.size r.read_off
              (base_for crc32c crc32c_from calls f s))
          added.file clear in
      let (before, out, pos) =
        placed_blocks calls full recs f s g t fit placed fills at behind clear' in
      let ends = placed.ends in
      let small = placed.small in
      let end : align_up g.size
          ≡ align_up (
              add64 (base_for crc32c crc32c_from calls f s)
                (length (block_for crc32c crc32c_from calls recs f s))) =
        ap align_up (omega arith) in
      let later : max r.read_off (align_up g.size) ≡ align_up g.size =
        unfold align_up in omega arith in
      (
        before,
        rw (added.file, added.committed, same) out,
        rw (added.file, added.read_off, same, pos, later) end,
      )
