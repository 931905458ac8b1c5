-- ===== src/Sidecar/Codec/RoundTrip.antt =====
-- src/core/MetaFile.cc: `deserialize` undoes `serialize`.
use xrd_ucache.Base.{
  ℕ, ◌+◌, ◌*◌, ◌/◌, ◌^◌, ◌≤◌, ◌<◌, ◌≡◌, refl, inl, inr, arith, true, false, not, ◌&&◌, ◌||◌, List,
  [], ◌∷◌, length, some, Content, slice, blit, sym, ap, ◌∙◌, ◌==◌, if◌then◌else◌, ltb, Bool-cases,
  get_or, get_elem?,
}
use mathlib.Core.Path.{subst}
use xrd_ucache.Sidecar.{MetaData, npages, npages_of, IsSized}
use xrd_ucache.Sidecar.Codec.{
  le, get, magic, format_version, header_size, crc_field_off, flags_word, bitmap_off, crcs_off,
  align8, image_size, size_of, pieces, body, no_crc, is_power, crc_table, same_bytes, parsed,
  parse_table, serialize, deserialize,
}
use xrd_ucache.Sidecar.Codec.Words.{length-le, get-le, length-crc_table, parse_table-crc_table}
use xrd_ucache.Sidecar.Codec.Image.{IsStorable, body-nth, signed_field, signed_crc, unsigned_body}
use xrd_ucache.Sidecar.Codec.Fields.{Holds, parsed-Holds}

-- The image with its checksum field written.
abbrev signed : MetaData → ℕ → Content
signed m v = blit (body m) crc_field_off (le 4 v)

word_field :
    (m : MetaData) (v i n off w : ℕ)
    → w < 256 ^ n
    → get_elem? (pieces m) i ≡ some (off, le n w)
    → off + n ≤ crc_field_off
    → get (signed m v) off n ≡ w
word_field m v i n off w h e before =
    get-le (signed m v) off n w h
      (signed_field (body m) v off n (inl before) ∙ body-nth m i n off (le n w) e (length-le n w))

kind_field : (m : MetaData) (v : ℕ) → signed m v 40 ≡ m.cksum_kind
unfolding slice pieces
kind_field m v =
    let one : List ℕ = m.cksum_kind ∷ [] in
    let there =
      signed_field (body m) v 40 1 (inl (omega arith)) ∙ body-nth m 7 1 40 one refl refl in
    ap (λ l. get_or l 0 0) there

key_field : (m : MetaData) (v : ℕ) → slice (signed m v) header_size (length m.key) ≡ m.key
unfolding pieces
key_field m v =
    signed_field (body m) v header_size (length m.key) (inr (omega arith))
    ∙ body-nth m 10 (length m.key) header_size m.key refl refl

bits_field :
    (m : MetaData) (v : ℕ)
    → IsSized m
    → slice (signed m v) (bitmap_off (length m.key)) ((npages m + 7) / 8) ≡ m.bitmap.bits
unfolding pieces bitmap_off align8
bits_field m v s =
    let sized = s.valid.sized in
    let bits = s.bits in
    let count : length m.bitmap.bits ≡ (npages m + 7) / 8 = sized ∙ ap (λ n. (n + 7) / 8) bits in
    let at = bitmap_off (length m.key) in
    signed_field (body m) v at ((npages m + 7) / 8) (inr (omega arith))
    ∙ body-nth m 11 ((npages m + 7) / 8) at m.bitmap.bits refl count

whole_table :
    (l : List ℕ) (n : ℕ)
    → length l ≡ n
    → (if not (n == 0) && length l == n then crc_table l else []) ≡ crc_table l
unfolding crc_table
whole_table [] n e = elim (Bool-cases (not (n == 0) && 0 == n)) [
  | inl c ↦ rw c refl
  | inr c ↦ rw c refl
]
whole_table (x ∷ l) n e =
    let met : (not (n == 0) && length (x ∷ l) == n) ≡ true = ground (arith, e) in rw met refl

-- The table is written whole, or is empty.
table_piece :
    (m : MetaData)
    → IsSized m
    → (if not (npages m == 0) && length m.page_crcs == npages m then crc_table m.page_crcs else [])
      ≡ crc_table m.page_crcs
table_piece m s = let crcs = s.crcs in whole_table m.page_crcs (npages m) crcs

table_field :
    (m : MetaData) (v : ℕ)
    → IsStorable m
    → parse_table (signed m v) (crcs_off (length m.key) ((npages m + 7) / 8)) (npages m)
      ≡ m.page_crcs
unfolding pieces crcs_off bitmap_off align8
table_field m v s =
    let sized = s.sized.valid.sized in
    let bits = s.sized.bits in
    let crcs = s.sized.crcs in
    let count : length m.bitmap.bits ≡ (npages m + 7) / 8 = sized ∙ ap (λ n. (n + 7) / 8) bits in
    let at = crcs_off (length m.key) (length m.bitmap.bits) in
    let table = crc_table m.page_crcs in
    let n = 4 * length m.page_crcs in
    let there : slice (signed m v) at n ≡ table =
      signed_field (body m) v at n (inr (omega arith))
      ∙ body-nth m 12 n at table (ap (λ l. some (at, l)) (table_piece m s.sized))
          (length-crc_table m.page_crcs) in
    let read = parse_table-crc_table (signed m v) at m.page_crcs s.crcs there in
    subst (λ k. parse_table (signed m v) (crcs_off (length m.key) k) (npages m) ≡ m.page_crcs) count
      (subst (λ k. parse_table (signed m v) at k ≡ m.page_crcs) crcs read)

flags_word-bound : (m : MetaData) → m.other_flags < 2 ^ 30 → flags_word m < 256 ^ 4
unfolding flags_word
flags_word-bound m h = elim (Bool-cases m.pinned) [
  | inl c ↦ elim (Bool-cases m.complete) [
    | inl d ↦ rw (c, d) (omega arith)
    | inr d ↦ rw (c, d) (omega arith)
  ]
  | inr c ↦ elim (Bool-cases m.complete) [
    | inl d ↦ rw (c, d) (omega arith)
    | inr d ↦ rw (c, d) (omega arith)
  ]
]

signed-Holds : (m : MetaData) (v : ℕ) → IsStorable m → Holds (signed m v) m
unfolding pieces
signed-Holds m v s = record {
  page_size = word_field m v 2 4 8 m.page_size (omega (arith, s.page_size)) refl (omega arith);
  word = word_field m v 3 4 12 (flags_word m) (flags_word-bound m s.flags) refl (omega arith);
  file_size = word_field m v 4 8 16 m.file_size (omega (arith, s.file_size)) refl (omega arith);
  atime = word_field m v 5 8 24 m.atime (omega (arith, s.atime)) refl (omega arith);
  origin_mtime =
      word_field m v 6 8 32 m.origin_mtime (omega (arith, s.origin_mtime)) refl (omega arith);
  cksum_kind = kind_field m v;
  origin_cksum =
      word_field m v 8 4 44 m.origin_cksum (omega (arith, s.origin_cksum)) refl (omega arith);
  key = key_field m v;
  bits = bits_field m v s.sized;
  table = table_field m v s;
}

size_of-min :
    (m : MetaData)
    → npages m < 2 ^ 60
    → length m.key ≤ 65536
    → length m.bitmap.bits ≤ 2 ^ 60
    → header_size ≤ size_of m
unfolding size_of image_size crcs_off bitmap_off align8
size_of-min m h k b = omega arith

module _ (crc : List ℕ → ℕ) where
  -- An image that meets each check.
  deserialize-accepts :
      (p : Content) (n key_len np : ℕ)
      → get p 48 4 ≡ key_len
      → npages_of (get p 8 4) (get p 16 8) ≡ np
      → header_size ≤ n
      → slice p 0 4 ≡ magic
      → get p 4 4 ≡ format_version
      → is_power (get p 8 4) ≡ true
      → n ≡ image_size key_len ((np + 7) / 8) np
      → key_len ≤ 65536
      → crc (slice (blit p crc_field_off no_crc) 0 n) ≡ get p crc_field_off 4
      → deserialize crc p n ≡ some (parsed p key_len np)
  unfolding deserialize
  deserialize-accepts p n key_len np k e long head version power size small same =
      let begins : (ltb n header_size || not (same_bytes (slice p 0 4) magic)) ≡ false =
        rw head (unfold same_bytes in ground (arith, long)) in
      let known : not (get p 4 4 == format_version) ≡ false = ground (arith, version) in
      let pages : not (is_power (get p 8 4)) ≡ false = rw power refl in
      let whole : (not (n == image_size key_len ((np + 7) / 8) np) || ltb 65536 key_len) ≡ false =
        ground (arith, size, small) in
      let intact : not (crc (slice (blit p crc_field_off no_crc) 0 n) == get p crc_field_off 4)
          ≡ false =
        ground (arith, same) in
      rw (k, e) (rw (begins, known, pages, whole, intact) refl)

  -- For metadata that fits its types, with a page size that is a power of two, a key of at most
  -- 64 KiB, fewer than 2 ^ 60 pages, a valid bitmap and a checksum for each page, and a checksum
  -- function with 32-bit values, the image that `serialize` makes is read back as the metadata.
  pub deserialize-serialize :
      (m : MetaData)
      → ((l : List ℕ) → crc l < 2 ^ 32)
      → IsStorable m
      → deserialize crc (serialize crc m).0 (serialize crc m).1 ≡ some m
  unfolding deserialize serialize pieces
  deserialize-serialize m bound s =
      let n = size_of m in
      let v = crc (slice (body m) 0 n) in
      let p = signed m v in
      let holds = signed-Holds m v s in
      let head : slice p 0 4 ≡ magic =
        signed_field (body m) v 0 4 (inl (omega arith)) ∙ body-nth m 0 4 0 magic refl refl in
      let version = word_field m v 1 4 4 format_version (omega arith) refl (omega arith) in
      let key_len =
        word_field m v 9 4 48 (length m.key) (omega (arith, s.key)) refl (omega arith) in
      let stored =
        get-le p crc_field_off 4 v (omega (arith, bound (slice (body m) 0 n)))
          (signed_crc (body m) v) in
      let zeroed = ap crc (unsigned_body m v n) in
      let count = s.sized.valid.sized ∙ ap (λ k. (k + 7) / 8) s.sized.bits in
      let np : npages_of (get p 8 4) (get p 16 8) ≡ npages m =
        unfold npages in rw (holds.page_size, holds.file_size) refl in
      let power = s.power in
      let sized : n ≡ image_size (length m.key) ((npages m + 7) / 8) (npages m) =
        unfold size_of in ap (λ k. image_size (length m.key) k (npages m)) count in
      let near : length m.bitmap.bits ≤ 2 ^ 60 = let few = s.pages in omega (arith, count) in
      let long = size_of-min m s.pages s.key near in
      deserialize-accepts p n (length m.key) (npages m) key_len np long head version
        (ap is_power holds.page_size ∙ power) sized s.key (zeroed ∙ sym stored)
      ∙ ap some (parsed-Holds p m s.sized holds)
