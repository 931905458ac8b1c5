-- ===== src/SlotStore/Layout.antt =====
-- src/core/SlotStore.cc: where the parts of a block lie, once `commit` has put it down.
use xrd_ucache.Base.{
  ℕ, ◌+◌, ◌*◌, ◌-◌, ◌^◌, ◌≤◌, ◌<◌, ◌≡◌, refl, arith, List, [], ◌∷◌, ◌++◌, add64, length,
  length-append, length-replicate, replicate, take, drop, Content, slice, take-drop-slice, sym, ap,
  ◌∙◌,
}
use xrd_ucache.Sidecar.Codec.{le, get}
use xrd_ucache.Sidecar.Codec.Words.{length-le, get-le}
use xrd_ucache.SlotStore.{SlotRecord, block_header, entry_bytes}
use xrd_ucache.SlotStore.Blocks.{block_magic}
use xrd_ucache.SlotStore.Commit.{
  table_of, entries_of, data_of, total_bytes, head_of, block_len_of, block_of,
}
use xrd_ucache.SlotStore.Entries.{length-table_of, length-entries_of, data_of-total_bytes}

-- A part of a span that is known.
pub slice_part :
    (f : Content) (base k n : ℕ) (l : List ℕ)
    → slice f base (length l) ≡ l
    → k + n ≤ length l
    → slice f (base + k) n ≡ take n (drop k l)
slice_part f base k n l e h =
    sym (take-drop-slice f base (length l) k n h) ∙ ap (λ j. take n (drop k j)) e

pub take-append {ℓ} :
    {A : Type ℓ} (front back : List A) → take (length front) (front ++ back) ≡ front
take-append [] back = refl
take-append (x ∷ front) back = ap (λ l. x ∷ l) (take-append front back)

pub drop-append {ℓ} :
    {A : Type ℓ} (front back : List A) → drop (length front) (front ++ back) ≡ back
drop-append [] back = refl
drop-append (x ∷ front) back = drop-append front back

module _ (crc32c : List ℕ → ℕ) where
  pub length-head_of :
      (id size n : ℕ) (table : List ℕ) → length (head_of crc32c id size n table) ≡ 60
  unfolding head_of le
  length-head_of id size n table = refl

  -- The fields of a block's header, in a file that has the block at `base`.
  pub record Holds (f : Content) (base id size n : ℕ) (table : List ℕ) : Type 0 where
    pub magic : slice f base 8 ≡ block_magic
    pub store_id : get f (base + 8) 8 ≡ id
    pub block_len : get f (base + 16) 8 ≡ size
    pub count : get f (base + 24) 4 ≡ n
    pub entries_crc : get f (base + 28) 4 ≡ crc32c table
    pub header_crc : get f (base + 60) 4 ≡ crc32c (slice f base 60)
    pub rows : slice f (base + block_header) (length table) ≡ table

  pub Holds-put :
      (f : Content) (base id size n : ℕ) (table back : List ℕ)
      → ((l : List ℕ) → crc32c l < 2 ^ 32)
      → id < 2 ^ 64
      → size < 2 ^ 64
      → n < 2 ^ 32
      → (let head = head_of crc32c id size n table in
          let block = head ++ le 4 (crc32c head) ++ table ++ back in
          slice f base (length block) ≡ block)
      → Holds f base id size n table
  unfolding head_of
  Holds-put f base id size n table back bound small_id small few e =
      let head = head_of crc32c id size n table in
      let block : List ℕ = head ++ le 4 (crc32c head) ++ table ++ back in
      let long : length block ≡ 64 + length table + length back =
        unfold le in omega (arith, length-append table back) in
      let part : (k n : ℕ) → k + n ≤ 64 → slice f (base + k) n ≡ take n (drop k block) =
        λ k n h. slice_part f base k n block e (omega (arith, long)) in
      let at : base + 0 ≡ base = omega arith in
      let first : slice f base 60 ≡ head =
        unfold le in ap (λ k. slice f k 60) (sym at) ∙ part 0 60 (omega arith) in
      record {
        magic = unfold le in ap (λ k. slice f k 8) (sym at) ∙ part 0 8 (omega arith);
        store_id = get-le f (base + 8) 8 id (omega arith) (unfold le in part 8 8 (omega arith));
        block_len =
            get-le f (base + 16) 8 size (omega arith) (unfold le in part 16 8 (omega arith));
        count = get-le f (base + 24) 4 n (omega arith) (unfold le in part 24 4 (omega arith));
        entries_crc =
            get-le f (base + 28) 4 (crc32c table) (let b = bound table in omega arith)
              (unfold le in part 28 4 (omega arith));
        header_crc =
            get-le f (base + 60) 4 (crc32c head) (let b = bound head in omega arith)
              (unfold le in part 60 4 (omega arith))
            ∙ ap crc32c (sym first);
        rows =
            slice_part f base 64 (length table) block e (omega (arith, long))
            ∙ (unfold le in take-append table back);
      }

length_parts :
    (a b c d e : List ℕ)
    → length (a ++ b ++ c ++ (d ++ e)) ≡ length a + length b + length c + length d + length e
length_parts a b c d e = omega (
  arith,
  length-append (a ++ b ++ c) (d ++ e),
  length-append (a ++ b) c,
  length-append a b,
  length-append d e,
)

-- What a commit of these records puts down at `base`.
module _ (crc32c : List ℕ → ℕ) (crc32c_from : ℕ → List ℕ → ℕ) (id base : ℕ)
    (recs : List SlotRecord) where
  abbrev pub first_off : ℕ
  first_off = add64 base (block_header + length recs * entry_bytes)

  abbrev pub table : List ℕ
  table = table_of (entries_of crc32c crc32c_from id first_off recs)

  pub length-table : length table ≡ length recs * entry_bytes
  length-table =
      length-table_of (entries_of crc32c crc32c_from id first_off recs)
      ∙ ap (λ n. n * entry_bytes) (length-entries_of crc32c crc32c_from id first_off recs)

  pub length-block_of :
      block_header + length recs * entry_bytes + total_bytes recs < 2 ^ 64
      → length (block_of crc32c crc32c_from id base recs) ≡ block_len_of recs
  unfolding block_of block_len_of
  length-block_of small =
      let n = length recs in
      let head = head_of crc32c id (block_len_of recs) n table in
      let records = data_of recs in
      let gap = total_bytes recs - length records in
      let parts = length_parts head (le 4 (crc32c head)) table records (replicate gap 0) in
      parts
      ∙ omega (
        arith,
        length-head_of crc32c id (block_len_of recs) n table,
        length-le 4 (crc32c head),
        length-table,
        length-replicate {A = ℕ} gap 0,
        data_of-total_bytes recs,
      )

  -- A block that is in the file has its fields there.
  pub block_of-Holds :
      (f : Content)
      → ((l : List ℕ) → crc32c l < 2 ^ 32)
      → id < 2 ^ 64
      → length recs < 2 ^ 32
      → slice f base (length (block_of crc32c crc32c_from id base recs))
        ≡ block_of crc32c crc32c_from id base recs
      → Holds crc32c f base id (block_len_of recs) (length recs) table
  unfolding block_of
  block_of-Holds f bound small_id few e =
      let records = data_of recs in
      Holds-put crc32c f base id (block_len_of recs) (length recs) table
        (records ++ replicate (total_bytes recs - length records) 0) bound small_id
        (unfold block_len_of in omega arith) few e

  -- The records come after the entries.
  pub block_of-records :
      take
        (length (data_of recs))
        (drop (block_header + length recs * entry_bytes) (block_of crc32c crc32c_from id base recs))
      ≡ data_of recs
  unfolding block_of
  block_of-records =
      let head = head_of crc32c id (block_len_of recs) (length recs) table in
      let front = head ++ le 4 (crc32c head) ++ table in
      let records = data_of recs in
      let back = records ++ replicate (total_bytes recs - length records) 0 in
      let size : length front ≡ block_header + length recs * entry_bytes = omega (
        arith,
        length-append (head ++ le 4 (crc32c head)) table,
        length-append head (le 4 (crc32c head)),
        length-head_of crc32c id (block_len_of recs) (length recs) table,
        length-le 4 (crc32c head),
        length-table,
      ) in
      let behind = ap (λ k. drop k (front ++ back)) (sym size) ∙ drop-append front back in
      ap (take (length records)) behind
      ∙ take-append records (replicate (total_bytes recs - length records) 0)
