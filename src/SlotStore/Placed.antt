-- ===== src/SlotStore/Placed.antt =====
-- src/core/SlotStore.cc: a commit that commits something has put its block at the end of the file.
use xrd_ucache.Base.{
  ℕ, ◌+◌, ◌*◌, ◌%◌, ◌^◌, ◌≤◌, ◌<◌, ◌≡◌, ◌≢◌, arith, List, [], add64, length, take, slice, All, ap,
  ◌∙◌, inl, inr,
}
use xrd_ucache.SlotStore.{
  SlotEntry, SlotRecord, SlotFile, SlotStore, k_align, block_header, entry_bytes, align_up,
}
use xrd_ucache.SlotStore.Blocks.{read_blocks}
use xrd_ucache.SlotStore.Commit.{
  CommitCalls, Committed, commit, append_block, base_of, write_at, block_of, settled, untaken,
  total_bytes, entries_of, block_len_of,
}
use xrd_ucache.SlotStore.Entries.{IsRecord}
use xrd_ucache.SlotStore.Layout.{first_off, length-block_of}
use xrd_ucache.SlotStore.Kept.{reach_of, base_of-reach_of, caught_up, others_of, commit-Comes}
use xrd_ucache.SlotStore.Append.{slice-write_at, size-write_at, take-all, settled-landed}

module _ (crc32c : List ℕ → ℕ) (crc32c_from : ℕ → List ℕ → ℕ) where
  -- The records that a commit writes.
  abbrev pub write_of : CommitCalls → List SlotRecord → SlotFile → SlotStore → List SlotRecord
  write_of calls recs f s = untaken (calls.taken (others_of crc32c crc32c_from calls f s)) recs

  -- Where its block goes.
  abbrev pub base_for : CommitCalls → SlotFile → SlotStore → ℕ
  base_for calls f s = base_of f (caught_up crc32c crc32c_from calls f s)

  abbrev pub block_for : CommitCalls → List SlotRecord → SlotFile → SlotStore → List ℕ
  block_for calls recs f s =
      block_of crc32c crc32c_from s.store_id (base_for calls f s) (write_of calls recs f s)

  -- The entries of the block.
  abbrev pub entries_for : CommitCalls → List SlotRecord → SlotFile → SlotStore → List SlotEntry
  entries_for calls recs f s =
      entries_of crc32c crc32c_from s.store_id
        (first_off crc32c crc32c_from s.store_id (base_for calls f s) (write_of calls recs f s))
        (write_of calls recs f s)

  pub record IsAdded (calls : CommitCalls) (recs : List SlotRecord) (f : SlotFile) (s : SlotStore)
      : Type 0 where
    pub file :
        (commit crc32c crc32c_from calls recs f s).file
        ≡ write_at f (base_for calls f s) (block_for calls recs f s)
    pub committed :
        (commit crc32c crc32c_from calls recs f s).committed ≡ entries_for calls recs f s
    pub read_off :
        (commit crc32c crc32c_from calls recs f s).store.read_off
        ≡ align_up (add64 (base_for calls f s) (length (block_for calls recs f s)))

  pub commit-IsAdded :
      (calls : CommitCalls) (recs : List SlotRecord) (f : SlotFile) (s : SlotStore)
      → (commit crc32c crc32c_from calls recs f s).committed ≢ []
      → IsAdded calls recs f s
  unfolding append_block settled read_blocks
  commit-IsAdded calls recs f s some_new = elim (commit-Comes crc32c crc32c_from calls recs f s) [
    | inl (_, none_new) ↦ absurd (some_new none_new)
    | inr added ↦
        let block = block_for calls recs f s in
        let s' = caught_up crc32c crc32c_from calls f s in
        let write = write_of calls recs f s in
        let file = write_at f (base_for calls f s) (take calls.landed block) in
        let others = others_of crc32c crc32c_from calls f s in
        let end = add64 (base_for calls f s) (length block) in
        let entries = entries_for calls recs f s in
        let (whole, answer) =
          settled-landed calls (length block) (total_bytes write) end file s' others entries
            (λ none_new. some_new (ap (λ (c : Committed). c.committed) added ∙ none_new)) in
        let done = added ∙ ap (settled file s' others entries end) answer in
        record {
          file =
              ap (λ (c : Committed). c.file) done
              ∙ ap (write_at f (base_for calls f s)) (take-all calls.landed block whole);
          committed = ap (λ (c : Committed). c.committed) done;
          read_off = ap (λ (c : Committed). c.store.read_off) done;
        }
  ]

  -- What the types, and the callers, keep true of a commit.
  pub record IsFitting (calls : CommitCalls) (recs : List SlotRecord) (f : SlotFile) (s : SlotStore)
      : Type 0 where
    pub sum : (l : List ℕ) → crc32c l < 2 ^ 32
    pub sum_from : (c : ℕ) (l : List ℕ) → crc32c_from c l < 2 ^ 32
    pub store_id : s.store_id < 2 ^ 64
    pub records : All IsRecord recs
    pub count : length (write_of calls recs f s) < 2 ^ 32
    pub small :
        reach_of f (caught_up crc32c crc32c_from calls f s)
          + (block_header
              + length (write_of calls recs f s) * entry_bytes
              + total_bytes (write_of calls recs f s))
          + 2 * k_align
        < 2 ^ 63

  -- The file ends with the block, which lies past the old end at a boundary.
  pub record IsPlaced (calls : CommitCalls) (recs : List SlotRecord) (f : SlotFile) (s : SlotStore)
      (g : SlotFile) : Type 0 where
    pub ends : g.size ≡ base_for calls f s + length (block_for calls recs f s)
    pub there :
        slice g.bytes (base_for calls f s) (length (block_for calls recs f s))
        ≡ block_for calls recs f s
    pub long :
        length (block_for calls recs f s)
        ≡ block_header
          + length (write_of calls recs f s) * entry_bytes
          + total_bytes (write_of calls recs f s)
    pub small : g.size + k_align < 2 ^ 63
    pub at : base_for calls f s % k_align ≡ 0

  reach_of-size : (f : SlotFile) (s : SlotStore) {n : ℕ} → reach_of f s ≤ n → f.size ≤ n
  unfolding reach_of
  reach_of-size f s h = omega arith

  pub commit-IsPlaced :
      (calls : CommitCalls) (recs : List SlotRecord) (f : SlotFile) (s : SlotStore)
      → IsFitting calls recs f s
      → IsPlaced calls recs f s (write_at f (base_for calls f s) (block_for calls recs f s))
  commit-IsPlaced calls recs f s fit =
      let small = fit.small in
      let s' = caught_up crc32c crc32c_from calls f s in
      let base = base_for calls f s in
      let block = block_for calls recs f s in
      let write = write_of calls recs f s in
      let (past, near, at) = base_of-reach_of f s' (omega arith) in
      let size = length-block_of crc32c crc32c_from s.store_id base write (omega arith) in
      let long : length block ≡ block_header + length write * entry_bytes + total_bytes write =
        size ∙ (unfold block_len_of in omega arith) in
      let after : f.size ≤ base = reach_of-size f s' past in
      let ends = size-write_at f base block after (omega arith) in
      record {
        ends = ends;
        there = slice-write_at f base block;
        long = long;
        small = omega arith;
        at = at;
      }
