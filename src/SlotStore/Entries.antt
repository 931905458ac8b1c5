-- ===== src/SlotStore/Entries.antt =====
-- src/core/SlotStore.cc: `decodeEntry` undoes `encodeEntry`, and a block's entries lie in the block.
use xrd_ucache.Base.{
  ℕ, suc, ◌+◌, ◌*◌, ◌%◌, ◌^◌, ◌≤◌, ◌<◌, ◌≡◌, refl, arith, true, false, ◌&&◌, List, [], ◌∷◌, ◌++◌,
  ◌==◌, if◌then◌else◌, add64, leb, length, All, ap, Bool-cases, inl, inr, length-append,
}
use xrd_ucache.Sidecar.Codec.{le, from_le}
use xrd_ucache.Sidecar.Codec.Words.{from_le-le}
use xrd_ucache.SlotStore.{
  SlotEntry, SlotRecord, k_kept, entry_bytes, encode_entry, entry_at, known_kind, record_crc,
}
use xrd_ucache.SlotStore.Blocks.{in_block, decode_entries}
use xrd_ucache.SlotStore.Commit.{table_of, entry_of, entries_of, stored_bytes, data_of, total_bytes}

-- What the types of an entry keep true of it.
pub record IsEntry (e : SlotEntry) : Type 0 where
  pub slot : e.slot < 2 ^ 32
  pub off : e.off < 2 ^ 64
  pub len : e.len < 2 ^ 32
  pub crc : e.crc < 2 ^ 32

-- What a caller keeps true of a record.
pub record IsRecord (r : SlotRecord) : Type 0 where
  pub slot : r.slot < 2 ^ 32
  pub kind : known_kind r.kind ≡ true
  pub size : length r.bytes < 2 ^ 32

entry_at-encode_entry : (e : SlotEntry) → IsEntry e → entry_at (encode_entry e) ≡ e
unfolding entry_at encode_entry le
entry_at-encode_entry e h =
    let slot : from_le (le 4 e.slot) ≡ e.slot =
      from_le-le 4 e.slot (let b = h.slot in omega arith) in
    let off : from_le (le 8 e.off) ≡ e.off = from_le-le 8 e.off (let b = h.off in omega arith) in
    let len : from_le (le 4 e.len) ≡ e.len = from_le-le 4 e.len (let b = h.len in omega arith) in
    let crc : from_le (le 4 e.crc) ≡ e.crc = from_le-le 4 e.crc (let b = h.crc in omega arith) in
    rw (slot, off, len, crc) refl

pub length-table_of : (l : List SlotEntry) → length (table_of l) ≡ length l * entry_bytes
unfolding table_of encode_entry le
length-table_of [] = refl
length-table_of (e ∷ l) = omega (arith, length-table_of l)

taken_first :
    (pos block_len : ℕ) (x e : SlotEntry) (k l : List SlotEntry)
    → x ≡ e
    → in_block pos block_len e ≡ true
    → k ≡ l
    → (if in_block pos block_len x then x ∷ k else k) ≡ e ∷ l
taken_first pos block_len x e k l first inside rest = rw (first, inside, rest) refl

pub decode_entries-table_of :
    (pos block_len : ℕ) (l : List SlotEntry)
    → All (λ e. IsEntry e × (in_block pos block_len e ≡ true)) l
    → decode_entries pos block_len (length l) (table_of l) ≡ l
unfolding decode_entries table_of
decode_entries-table_of pos block_len [] a = refl
decode_entries-table_of pos block_len (e ∷ l) a =
    taken_first pos block_len (entry_at (encode_entry e)) e
      (decode_entries pos block_len (length l) (table_of l)) l (entry_at-encode_entry e a.0.0) a.0.1
      (decode_entries-table_of pos block_len l a.1)

pub data_of-total_bytes : (recs : List SlotRecord) → length (data_of recs) ≤ total_bytes recs
unfolding data_of total_bytes stored_bytes
data_of-total_bytes [] = omega arith
data_of-total_bytes (r ∷ recs) =
    let rest = data_of-total_bytes recs in
    let parts = length-append (stored_bytes r) (data_of recs) in
    elim (Bool-cases (r.kind == k_kept)) [
      | inl c ↦ rw c (omega arith)
      | inr c ↦ rw c (omega (arith, length-append r.bytes (data_of recs)))
    ]

module _ (crc32c : List ℕ → ℕ) (crc32c_from : ℕ → List ℕ → ℕ) (store_id : ℕ) where
  record_crc-bound :
      (slot : ℕ) (l : List ℕ)
      → ((c : ℕ) (l : List ℕ) → crc32c_from c l < 2 ^ 32)
      → record_crc crc32c crc32c_from store_id slot l < 2 ^ 32
  unfolding record_crc
  record_crc-bound slot l bound = bound (crc32c (le 8 store_id ++ le 4 slot ++ le 4 (length l))) l

  -- An entry of a record whose bytes are in the block.
  entry_of-in_block :
      (base block_len off : ℕ) (r : SlotRecord)
      → ((c : ℕ) (l : List ℕ) → crc32c_from c l < 2 ^ 32)
      → IsRecord r
      → base ≤ off
      → off + length (stored_bytes r) ≤ base + block_len
      → base + block_len < 2 ^ 64
      → IsEntry (entry_of crc32c crc32c_from store_id off r)
        × (in_block base block_len (entry_of crc32c crc32c_from store_id off r) ≡ true)
  unfolding entry_of in_block stored_bytes
  entry_of-in_block base block_len off r bound w lo hi small =
      elim (Bool-cases (r.kind == k_kept)) [
        | inl c ↦
            let known = w.kind in
            let slot = w.slot in
            rw c (
              record { slot = slot; off = omega arith; len = omega arith; crc = omega arith },
              rw (known, c) refl,
            )
        | inr c ↦
            let known = w.kind in
            let slot = w.slot in
            let size = w.size in
            let sum = record_crc-bound r.slot r.bytes bound in
            let held : off + length r.bytes ≤ base + block_len = stored_fits c in
            let lies : (leb base off
                  && leb (add64 off (length r.bytes % 2 ^ 32)) (add64 base block_len))
                ≡ true =
              ground arith in
            rw c (
              record { slot = slot; off = omega arith; len = omega arith; crc = sum },
              rw (known, c, lies) refl,
            )
      ]
    where
      stored_fits : (r.kind == k_kept) ≡ false → off + length r.bytes ≤ base + block_len
      stored_fits c = ground (arith, c, hi)

  pub entries_of-in_block :
      (base block_len off : ℕ) (recs : List SlotRecord)
      → ((c : ℕ) (l : List ℕ) → crc32c_from c l < 2 ^ 32)
      → All IsRecord recs
      → base ≤ off
      → off + length (data_of recs) ≤ base + block_len
      → base + block_len < 2 ^ 64
      → All
          (λ e. IsEntry e × (in_block base block_len e ≡ true))
          (entries_of crc32c crc32c_from store_id off recs)
  unfolding entries_of data_of
  entries_of-in_block base block_len off [] bound w lo hi small = tt
  entries_of-in_block base block_len off (r ∷ recs) bound w lo hi small =
      let parts = length-append (stored_bytes r) (data_of recs) in
      let first =
        entry_of-in_block base block_len off r bound w.0 lo (omega (arith, parts)) small in
      (
        first,
        entries_of-in_block base block_len (add64 off (length (stored_bytes r))) recs bound w.1
            (omega (arith, parts)) (omega (arith, parts)) small,
      )

  pub length-entries_of :
      (off : ℕ) (recs : List SlotRecord)
      → length (entries_of crc32c crc32c_from store_id off recs) ≡ length recs
  unfolding entries_of
  length-entries_of off [] = refl
  length-entries_of off (r ∷ recs) =
      ap suc (length-entries_of (add64 off (length (stored_bytes r))) recs)
