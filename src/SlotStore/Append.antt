-- ===== src/SlotStore/Append.antt =====
-- src/core/SlotStore.cc: what a commit that answers well has put into the file.
use xrd_ucache.Base.{
  ℕ, zero, suc, ◌+◌, ◌*◌, ◌%◌, ◌^◌, ◌≤◌, ◌<◌, ◌≡◌, ◌≢◌, refl, arith, Bool, true, List, [], ◌∷◌,
  ◌++◌, none, some, ◌==◌, if◌then◌else◌, add64, leb, length, take, slice, All, ap, ◌∙◌, sym,
  Bool-cases, Option-cases, inl, inr, length-append,
}
use xrd_ucache.Sidecar.Codec.Pieces.{slice-blit}
use xrd_ucache.SlotStore.{
  SlotEntry, SlotRecord, SlotFile, SlotStore, read_record, record_crc, k_kept, block_header,
  entry_bytes,
}
use xrd_ucache.SlotStore.Commit.{
  CommitCalls, wrote, write_at, block_of, settled, write_answer, untaken, data_of, stored_bytes,
  total_bytes, entries_of, entry_of, block_len_of,
}
use xrd_ucache.SlotStore.Entries.{IsRecord, data_of-total_bytes}
use xrd_ucache.SlotStore.Layout.{
  slice_part, take-append, drop-append, first_off, length-block_of, block_of-records,
}

pub All-untaken {κ} :
    (P : SlotRecord → Type κ) (taken : ℕ → Bool) (recs : List SlotRecord)
    → All P recs
    → All P (untaken taken recs)
unfolding untaken
All-untaken P taken [] a = tt
All-untaken P taken (r ∷ recs) a = elim (Bool-cases (taken r.slot)) [
  | inl c ↦ rw c (All-untaken P taken recs a.1)
  | inr c ↦ rw c (a.0, All-untaken P taken recs a.1)
]

-- The bytes that a write puts down are there.
pub slice-write_at :
    (f : SlotFile) (base : ℕ) (l : List ℕ) → slice (write_at f base l).bytes base (length l) ≡ l
unfolding write_at slice
slice-write_at f base [] = refl
slice-write_at f base (x ∷ l) = slice-blit f.bytes base (x ∷ l)

pub size-write_at :
    (f : SlotFile) (base : ℕ) (l : List ℕ)
    → f.size ≤ base
    → 0 < length l
    → (write_at f base l).size ≡ base + length l
unfolding write_at
size-write_at f base [] h k = absurd (omega arith)
size-write_at f base (x ∷ l) h k = omega arith

pub take-all {ℓ} : {A : Type ℓ} (n : ℕ) (l : List A) → length l ≤ n → take n l ≡ l
take-all zero [] h = refl
take-all zero (x ∷ l) h = absurd (omega arith)
take-all (suc n) [] h = refl
take-all (suc n) (x ∷ l) h = ap (λ k. x ∷ k) (take-all n l (omega arith))

-- A commit that commits something had its whole write land.
pub settled-landed :
    (calls : CommitCalls) (size n end : ℕ) (file : SlotFile) (s : SlotStore)
    (others entries : List SlotEntry)
    → (settled file s others entries end (write_answer calls size n)).committed ≢ []
    → (size ≤ calls.landed) × (write_answer calls size n ≡ wrote n)
unfolding settled write_answer
settled-landed calls size n end file s others entries some_new =
    elim (Option-cases calls.write_error) [
      | inr (code, a) ↦ absurd (some_new (rw a refl))
      | inl a ↦ elim (Bool-cases (leb size calls.landed)) [
        | inl b ↦ (ground (arith, b), rw (a, b) refl)
        | inr b ↦ absurd (some_new (rw (a, b) refl))
      ]
    ]

module _ (crc32c : List ℕ → ℕ) (crc32c_from : ℕ → List ℕ → ℕ) (full : ℕ → ℕ → Bool) where
  -- The entries are of these records, one by one, and each reads its record's bytes. Of a kept record
  -- there is nothing to read.
  unfoldable pub ReadsBack : SlotFile → SlotStore → List SlotRecord → List SlotEntry → Type 0
  ReadsBack f s [] [] = Unit
  ReadsBack f s [] (e ∷ l) = ⊥
  ReadsBack f s (r ∷ recs) [] = ⊥
  ReadsBack f s (r ∷ recs) (e ∷ l) =
      (e.slot ≡ r.slot)
      × (e.kind ≡ r.kind)
      × (read_record crc32c crc32c_from full f s e
          ≡ (if r.kind == k_kept then none else some r.bytes))
      × ReadsBack f s recs l

  read_record-entry_of :
      (f : SlotFile) (s : SlotStore) (off : ℕ) (r : SlotRecord)
      → IsRecord r
      → ((pos n : ℕ) → full pos n ≡ true)
      → off + length (stored_bytes r) ≤ f.size
      → slice f.bytes off (length (stored_bytes r)) ≡ stored_bytes r
      → let e = entry_of crc32c crc32c_from s.store_id off r in
        (e.slot ≡ r.slot)
        × (e.kind ≡ r.kind)
        × (read_record crc32c crc32c_from full f s e
            ≡ (if r.kind == k_kept then none else some r.bytes))
  unfolding entry_of read_record stored_bytes
  read_record-entry_of f s off r w fills room there = elim (Bool-cases (r.kind == k_kept)) [
    | inl c ↦ rw c (refl, refl, rw c refl)
    | inr c ↦
        let size = w.size in
        let all : stored_bytes r ≡ r.bytes = rw c refl in
        let n : length r.bytes % 2 ^ 32 ≡ length r.bytes = omega arith in
        let out : slice f.bytes off (length r.bytes) ≡ r.bytes =
          ap (λ (l : List ℕ). slice f.bytes off (length l)) (sym all) ∙ there ∙ all in
        let long = ap length all in
        let fits : leb (off + length r.bytes) f.size ≡ true = ground (arith, long, room) in
        let filled = fills off (length r.bytes) in
        let sum = record_crc crc32c crc32c_from s.store_id r.slot r.bytes in
        let same : (sum == sum) ≡ true = ground arith in
        rw c (refl, refl, rw (n, c, out, filled, fits, same) refl)
  ]

  ReadsBack-entries_of :
      (f : SlotFile) (s : SlotStore) (off : ℕ) (recs : List SlotRecord)
      → All IsRecord recs
      → ((pos n : ℕ) → full pos n ≡ true)
      → off + length (data_of recs) ≤ f.size
      → f.size < 2 ^ 64
      → slice f.bytes off (length (data_of recs)) ≡ data_of recs
      → ReadsBack f s recs (entries_of crc32c crc32c_from s.store_id off recs)
  unfolding ReadsBack entries_of data_of
  ReadsBack-entries_of f s off [] w fills room small there = tt
  ReadsBack-entries_of f s off (r ∷ recs) w fills room small there =
      let front = stored_bytes r in
      let back = data_of recs in
      let parts = length-append front back in
      let part = slice_part f.bytes off in
      let at : off + 0 ≡ off = omega arith in
      let first : slice f.bytes off (length front) ≡ front =
        ap (λ k. slice f.bytes k (length front)) (sym at)
        ∙ part 0 (length front) (front ++ back) there (omega (arith, parts))
        ∙ take-append front back in
      let next : off + length front ≡ add64 off (length front) = omega (arith, parts) in
      let rest : slice f.bytes (add64 off (length front)) (length back) ≡ back =
        ap (λ k. slice f.bytes k (length back)) (sym next)
        ∙ part (length front) (length back) (front ++ back) there (omega (arith, parts))
        ∙ ap (take (length back)) (drop-append front back)
        ∙ take-all (length back) back (omega arith) in
      let (slot, kind, read) =
        read_record-entry_of f s off r w.0 fills (omega (arith, parts)) first in
      (
        slot,
        kind,
        read,
        ReadsBack-entries_of f s (add64 off (length front)) recs w.1 fills (omega (arith, parts))
            small rest,
      )

  -- A block in the file has its records where its entries say.
  pub block_of-ReadsBack :
      (f : SlotFile) (s : SlotStore) (base : ℕ) (recs : List SlotRecord)
      → All IsRecord recs
      → ((pos n : ℕ) → full pos n ≡ true)
      → base + length (block_of crc32c crc32c_from s.store_id base recs) ≤ f.size
      → f.size < 2 ^ 64
      → block_header + length recs * entry_bytes + total_bytes recs < 2 ^ 64
      → slice f.bytes base (length (block_of crc32c crc32c_from s.store_id base recs))
        ≡ block_of crc32c crc32c_from s.store_id base recs
      → ReadsBack f s recs (
          entries_of crc32c crc32c_from s.store_id
            (first_off crc32c crc32c_from s.store_id base recs)
            recs)
  block_of-ReadsBack f s base recs w fills room small little there =
      let n = length recs in
      let block = block_of crc32c crc32c_from s.store_id base recs in
      let off = first_off crc32c crc32c_from s.store_id base recs in
      let records = data_of recs in
      let size : length block ≡ block_len_of recs =
        length-block_of crc32c crc32c_from s.store_id base recs little in
      let total : block_len_of recs ≡ block_header + n * entry_bytes + total_bytes recs =
        unfold block_len_of in omega arith in
      let fit = data_of-total_bytes recs in
      let at : base + (block_header + n * entry_bytes) ≡ off = omega arith in
      let part =
        slice_part f.bytes base (block_header + n * entry_bytes) (length records) block there
          (omega arith) in
      let bytes : slice f.bytes off (length records) ≡ records =
        ap (λ k. slice f.bytes k (length records)) (sym at)
        ∙ part
        ∙ block_of-records crc32c crc32c_from s.store_id base recs in
      ReadsBack-entries_of f s off recs w fills (omega arith) small bytes
