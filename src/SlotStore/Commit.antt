-- ===== src/SlotStore/Commit.antt =====
-- src/core/SlotStore.cc: `commit` and `refresh`. What the system calls answer, and what of the block's
-- write lands, are parameters, as is what `taken` answers once `onOthers` has had the others' entries.
-- A commit has fewer than 2 ^ 32 records, the most that its counter can hold.
use xrd_ucache.Base.{
  ℕ, ◌+◌, ◌*◌, ◌-◌, ◌^◌, ◌%◌, Bool, not, List, [], ◌∷◌, ◌++◌, Option, none, some, ◌==◌,
  if◌then◌else◌, add64, ltb, leb, max, length, take, replicate, blit,
}
use xrd_ucache.Sidecar.Codec.{le}
use xrd_ucache.SlotStore.{
  SlotEntry, SlotRecord, SlotFile, SlotStore, k_kept, block_header, entry_bytes, align_up,
  encode_entry, record_crc,
}
use xrd_ucache.SlotStore.Blocks.{block_magic, read_blocks}

pub record CommitCalls : Type 0 where
  -- The code of a failed `flock`.
  pub lock_error : Option ℕ
  -- `fstat` and `stat` answer that the path names the file that is open.
  pub still_named : Bool
  pub full : ℕ → ℕ → Bool
  pub taken : List SlotEntry → ℕ → Bool
  -- How many bytes of the block land, and the code of a write that fails.
  pub landed : ℕ
  pub write_error : Option ℕ

pub data Answer : Type 0 where
  wrote : ℕ → Answer
  failed : ℕ → Answer

abbrev pub einval : ℕ
einval = 22

abbrev pub estale : ℕ
estale = 116

abbrev pub eio : ℕ
eio = 5

-- The records whose slots are not taken.
unfoldable pub untaken : (ℕ → Bool) → List SlotRecord → List SlotRecord
untaken taken [] = []
untaken taken (r ∷ recs) = let rest = untaken taken recs in if taken r.slot then rest else r ∷ rest

unfoldable pub total_bytes : List SlotRecord → ℕ
total_bytes [] = 0
total_bytes (r ∷ recs) = length r.bytes + total_bytes recs

-- The bytes that a record takes up in its block.
unfoldable pub stored_bytes : SlotRecord → List ℕ
stored_bytes r = if r.kind == k_kept then [] else r.bytes

unfoldable pub data_of : List SlotRecord → List ℕ
unfolding stored_bytes
data_of [] = []
data_of (r ∷ recs) = stored_bytes r ++ data_of recs

unfoldable pub table_of : List SlotEntry → List ℕ
unfolding encode_entry
table_of [] = []
table_of (e ∷ l) = encode_entry e ++ table_of l

unfoldable pub block_len_of : List SlotRecord → ℕ
unfolding total_bytes
block_len_of recs = add64 (block_header + length recs * entry_bytes) (total_bytes recs)

-- `pwriteFull`: the file grows to the end of what lands.
unfoldable pub write_at : SlotFile → ℕ → List ℕ → SlotFile
unfolding blit
write_at f base [] = f
write_at f base (x ∷ l) = record {
  bytes = blit f.bytes base (x ∷ l);
  size = max f.size (base + length (x ∷ l));
}

-- What `pwriteFull` of so many bytes comes to.
unfoldable pub write_answer : CommitCalls → ℕ → ℕ → Answer
write_answer calls size data_len = elim calls.write_error [
  | some code ↦ failed code
  | none ↦ if leb size calls.landed then wrote data_len else failed eio
]

pub record Committed : Type 0 where
  pub answer : Answer
  pub file : SlotFile
  pub store : SlotStore
  -- What `onOthers` was called with.
  pub others : List SlotEntry
  pub committed : List SlotEntry

-- What is left behind by a write that came to an answer. The block ends at `end`.
unfoldable pub settled :
    SlotFile → SlotStore → List SlotEntry → List SlotEntry → ℕ → Answer → Committed
unfolding align_up
settled file s others entries end (failed code) = record {
  answer = failed code;
  file = file;
  store = s;
  others = others;
  committed = [];
}
settled file s others entries end (wrote size) = record {
  answer = wrote size;
  file = file;
  store = record s { read_off = align_up end; claimed_end = max s.claimed_end end };
  others = others;
  committed = entries;
}

-- Where the next block goes.
unfoldable pub base_of : SlotFile → SlotStore → ℕ
unfolding align_up
base_of f s = align_up (max (max f.size s.read_off) s.claimed_end)

unfoldable pub refused : ℕ → SlotFile → SlotStore → Committed
refused code f s = record { answer = failed code; file = f; store = s; others = []; committed = [] }

module _ (crc32c : List ℕ → ℕ) where
  -- The first 60 bytes of a block.
  unfoldable pub head_of : ℕ → ℕ → ℕ → List ℕ → List ℕ
  unfolding le
  head_of store_id block_len n table =
      block_magic
      ++ le 8 store_id
      ++ le 8 block_len
      ++ le 4 n
      ++ le 4 (crc32c table)
      ++ replicate 28 0

  -- `refresh`, once it has the mutex: whether its `flock` is granted is a parameter.
  unfoldable pub refresh : Bool → (ℕ → ℕ → Bool) → SlotFile → SlotStore → SlotStore × List SlotEntry
  unfolding read_blocks
  refresh granted full f s =
      if ltb f.size (add64 s.read_off block_header)
      then (s, [])
      else if not granted
      then (s, [])
      else read_blocks crc32c full f.bytes f.size s

module _ (crc32c : List ℕ → ℕ) (crc32c_from : ℕ → List ℕ → ℕ) where
  unfoldable pub entry_of : ℕ → ℕ → SlotRecord → SlotEntry
  unfolding record_crc
  entry_of store_id off r =
      if r.kind == k_kept
      then record { slot = r.slot; kind = r.kind; off = 0; len = 0; crc = 0 }
      else record {
        slot = r.slot;
        kind = r.kind;
        off = off;
        len = length r.bytes % 2 ^ 32;
        crc = record_crc crc32c crc32c_from store_id r.slot r.bytes;
      }

  -- The entries of a block's records, the first of which has its bytes at `off`.
  unfoldable pub entries_of : ℕ → ℕ → List SlotRecord → List SlotEntry
  unfolding entry_of stored_bytes
  entries_of store_id off [] = []
  entries_of store_id off (r ∷ recs) =
      entry_of store_id off r ∷ entries_of store_id (add64 off (length (stored_bytes r))) recs

  -- The block of records written at `base`: what no record fills is zero.
  unfoldable pub block_of : ℕ → ℕ → List SlotRecord → List ℕ
  unfolding head_of table_of entries_of data_of block_len_of le total_bytes
  block_of store_id base recs =
      let n = length recs in
      let table =
        table_of (entries_of store_id (add64 base (block_header + n * entry_bytes)) recs) in
      let head = head_of crc32c store_id (block_len_of recs) n table in
      let records = data_of recs in
      head
      ++ le 4 (crc32c head)
      ++ table
      ++ (records ++ replicate (total_bytes recs - length records) 0)

  -- From the records that are to be written on.
  unfoldable pub append_block :
      CommitCalls → List SlotRecord → List SlotEntry → SlotFile → SlotStore → Committed
  unfolding base_of block_of entries_of write_at write_answer total_bytes settled
  append_block calls write others f s =
      let base = base_of f s in
      let block = block_of s.store_id base write in
      settled (write_at f base (take calls.landed block)) s others
        (entries_of s.store_id (add64 base (block_header + length write * entry_bytes)) write)
        (add64 base (length block)) (write_answer calls (length block) (total_bytes write))

  -- With the others' entries read.
  unfoldable pub commit_write :
      CommitCalls → List SlotRecord → List SlotEntry → SlotFile → SlotStore → Committed
  unfolding untaken append_block
  commit_write calls recs others f s =
      let write = untaken (calls.taken others) recs in
      if length write == 0
      then record { answer = wrote 0; file = f; store = s; others = others; committed = [] }
      else append_block calls write others f s

  -- With what `flock` answered.
  unfoldable pub commit_locked :
      Option ℕ → CommitCalls → List SlotRecord → SlotFile → SlotStore → Committed
  unfolding refused read_blocks commit_write
  commit_locked (some code) calls recs f s = refused code f s
  commit_locked none calls recs f s =
      let r = read_blocks crc32c calls.full f.bytes f.size s in
      if not calls.still_named then refused estale f s else commit_write calls recs r.1 f r.0

  -- `commit`.
  unfoldable pub commit : CommitCalls → List SlotRecord → SlotFile → SlotStore → Committed
  unfolding refused commit_locked
  commit calls recs f s =
      if s.declined then refused einval f s else commit_locked calls.lock_error calls recs f s
