-- ===== src/SlotStore/HeaderRoundTrip.antt =====
-- src/core/SlotStore.cc: `decodeSlotHeader` undoes `encodeSlotHeader`.
use xrd_ucache.Base.{
  ℕ, zero, suc, ◌+◌, ◌^◌, ◌≤◌, ◌<◌, ◌≡◌, refl, inl, arith, Bool, true, false, not, List, [], ◌∷◌,
  length, min, take, some, Content, slice, blit, blit-outside, slice_ext, sym, ap, ◌∙◌, ◌==◌,
  if◌then◌else◌, ltb, get_or, get_elem?, length-take,
}
use xrd_ucache.Sidecar.Codec.{le, get, same_bytes, zero_image}
use xrd_ucache.Sidecar.Codec.Words.{length-le, get-le}
use xrd_ucache.Sidecar.Codec.Pieces.{Ascends, puts-nth, slice-blit}
use xrd_ucache.SlotStore.{SlotStoreHeader, header_bytes}
use xrd_ucache.SlotStore.Header.{
  slots_magic, slots_version, codecs_max, header_crc_off, header_pieces, header_body, header_of,
  encode_slot_header, decode_slot_header, newer_format,
}

-- What the types keep true of a header.
pub record IsHeader (h : SlotStoreHeader) : Type 0 where
  pub layout_version : h.layout_version < 2 ^ 32
  pub slot_factor100 : h.slot_factor100 < 2 ^ 16
  pub origin_size : h.origin_size < 2 ^ 64
  pub origin_mtime : h.origin_mtime < 2 ^ 64
  pub origin_cksum : h.origin_cksum < 2 ^ 32
  pub virtual_size : h.virtual_size < 2 ^ 64
  pub n_slots : h.n_slots < 2 ^ 32
  pub layout_hash : h.layout_hash < 2 ^ 64
  pub store_id : h.store_id < 2 ^ 64
  pub blob_len : h.blob_len < 2 ^ 64
  pub blob_crc : h.blob_crc < 2 ^ 32

-- How many bytes of codecs are kept.
abbrev codecs_of : SlotStoreHeader → ℕ
codecs_of h = min (length h.codecs) codecs_max

header_pieces-Ascends : (h : SlotStoreHeader) → Ascends 0 (header_pieces h)
unfolding header_pieces le
header_pieces-Ascends h = ground arith

said : (b : Bool) → not ((if b then 1 else 0) == 0) ≡ b
said true = refl
said false = refl

take-min {ℓ} : {A : Type ℓ} (n : ℕ) (l : List A) → take (min (length l) n) l ≡ take n l
take-min zero [] = refl
take-min zero (x ∷ l) =
    let none_kept : min (suc (length l)) 0 ≡ 0 = omega arith in rw none_kept refl
take-min (suc n) [] = let none_kept : min 0 (suc n) ≡ 0 = omega arith in rw none_kept refl
take-min (suc n) (x ∷ l) =
    let more : min (suc (length l)) (suc n) ≡ suc (min (length l) n) = omega arith in
    rw more (ap (λ k. x ∷ k) (take-min n l))

abbrev signed : SlotStoreHeader → ℕ → Content
signed h v = blit (header_body h) header_crc_off (le 4 v)

-- For whatever begins with the image.
module _ (h : SlotStoreHeader) (v : ℕ) (p : Content)
    (agrees : (x : ℕ) → x < header_bytes → p x ≡ signed h v x) where
  -- The checksum changes nothing before it.
  before_crc : (off n : ℕ) → off + n ≤ header_crc_off → slice p off n ≡ slice (header_body h) off n
  before_crc off n small = slice_ext p (header_body h) off n (λ x lo hi.
      agrees x (omega arith)
      ∙ blit-outside (header_body h) header_crc_off (le 4 v) x (inl (omega arith)))

  -- A field as it was put down.
  field_at :
      (i n off : ℕ) (l : List ℕ)
      → get_elem? (header_pieces h) i ≡ some (off, l)
      → length l ≡ n
      → off + n ≤ header_crc_off
      → slice p off n ≡ l
  unfolding header_body
  field_at i n off l e k small =
      before_crc off n small
      ∙ puts-nth i (header_pieces h) zero_image 0 n (off, l) (header_pieces-Ascends h) e k

  word_at :
      (i n off w : ℕ)
      → w < 256 ^ n
      → get_elem? (header_pieces h) i ≡ some (off, le n w)
      → off + n ≤ header_crc_off
      → get p off n ≡ w
  word_at i n off w small e room =
      get-le p off n w small (field_at i n off (le n w) e (length-le n w) room)

  byte_at :
      (i off b : ℕ)
      → get_elem? (header_pieces h) i ≡ some (off, b ∷ [])
      → off + 1 ≤ header_crc_off
      → p off ≡ b
  unfolding slice
  byte_at i off b e room = ap (λ l. get_or l 0 0) (field_at i 1 off (b ∷ []) e refl room)

  holds_header :
      IsHeader h → v < 2 ^ 32 → header_of p ≡ record h { codecs = take codecs_max h.codecs }
  unfolding header_of header_pieces
  holds_header w small =
      let n = codecs_of h in
      let count : get p 84 2 ≡ n = word_at 16 2 84 n (omega arith) refl (omega arith) in
      let size : length (take n h.codecs) ≡ n = omega (arith, length-take n h.codecs) in
      let short : take n h.codecs ≡ take codecs_max h.codecs = take-min codecs_max h.codecs in
      let codecs : slice p 86 (get p 84 2) ≡ take codecs_max h.codecs =
        ap (slice p 86) count
        ∙ field_at 17 n 86 (take n h.codecs) refl size (omega arith)
        ∙ short in
      let declined : not (p 18 == 0) ≡ h.declined =
        ap (λ b. not (b == 0)) (byte_at 4 18 (if h.declined then 1 else 0) refl (omega arith))
        ∙ said h.declined in
      rw
        (
          codecs,
          declined,
          word_at 2 4 12 h.layout_version (let b = w.layout_version in omega arith) refl
              (omega arith),
          byte_at 3 16 h.container refl (omega arith),
          word_at 5 4 20 h.n_slots (let b = w.n_slots in omega arith) refl (omega arith),
          word_at 6 8 24 h.origin_size (let b = w.origin_size in omega arith) refl (omega arith),
          word_at 7 8 32 h.origin_mtime (let b = w.origin_mtime in omega arith) refl (omega arith),
          byte_at 8 40 h.cksum_kind refl (omega arith),
          word_at 9 2 42 h.slot_factor100 (let b = w.slot_factor100 in omega arith) refl
              (omega arith),
          word_at 10 4 44 h.origin_cksum (let b = w.origin_cksum in omega arith) refl (omega arith),
          word_at 11 8 48 h.virtual_size (let b = w.virtual_size in omega arith) refl (omega arith),
          word_at 12 8 56 h.layout_hash (let b = w.layout_hash in omega arith) refl (omega arith),
          word_at 13 8 64 h.store_id (let b = w.store_id in omega arith) refl (omega arith),
          word_at 14 8 72 h.blob_len (let b = w.blob_len in omega arith) refl (omega arith),
          word_at 15 4 80 h.blob_crc (let b = w.blob_crc in omega arith) refl (omega arith),
        )
        refl

module _ (crc32c : List ℕ → ℕ) where
  -- What begins with the image of a header is decoded as the header.
  pub decode-agrees :
      (h : SlotStoreHeader) (p : Content)
      → ((l : List ℕ) → crc32c l < 2 ^ 32)
      → IsHeader h
      → ((x : ℕ) → x < header_bytes → p x ≡ encode_slot_header crc32c h x)
      → decode_slot_header crc32c p header_bytes
        ≡ some (record h { codecs = take codecs_max h.codecs })
  unfolding decode_slot_header encode_slot_header header_pieces
  decode-agrees h p bound w agrees =
      let v = crc32c (slice (header_body h) 0 header_crc_off) in
      let small = bound (slice (header_body h) 0 header_crc_off) in
      let begins : slice p 0 8 ≡ slots_magic =
        field_at h v p agrees 0 8 0 slots_magic refl refl (omega arith) in
      let known = word_at h v p agrees 1 4 8 slots_version (omega arith) refl (omega arith) in
      let n = word_at h v p agrees 16 2 84 (codecs_of h) (omega arith) refl (omega arith) in
      let same : slice p header_crc_off 4 ≡ le 4 v =
        slice_ext p (signed h v) header_crc_off 4 (λ x lo hi. agrees x (omega arith))
        ∙ ap (slice (signed h v) header_crc_off) (sym (length-le 4 v))
        ∙ slice-blit (header_body h) header_crc_off (le 4 v) in
      let stored : get p header_crc_off 4 ≡ v = get-le p header_crc_off 4 v (omega arith) same in
      let summed : crc32c (slice p 0 header_crc_off) ≡ v =
        ap crc32c (before_crc h v p agrees 0 header_crc_off (omega arith)) in
      let a : not (same_bytes (slice p 0 8) slots_magic) ≡ false =
        rw begins (unfold same_bytes in refl) in
      let b : not (get p header_crc_off 4 == crc32c (slice p 0 header_crc_off)) ≡ false =
        rw (stored, summed) (ground arith) in
      let c : not (get p 8 4 == slots_version) ≡ false = ground (arith, known) in
      let d : ltb codecs_max (get p 84 2) ≡ false = ground (arith, n) in
      rw (a, b, c, d) (ap some (holds_header h v p agrees w small))

  -- The version of such an image is this build's.
  pub newer_format-agrees :
      (h : SlotStoreHeader) (p : Content) (n : ℕ)
      → ((x : ℕ) → x < header_bytes → p x ≡ encode_slot_header crc32c h x)
      → newer_format p n ≡ false
  unfolding newer_format encode_slot_header header_pieces
  newer_format-agrees h p n agrees =
      let v = crc32c (slice (header_body h) 0 header_crc_off) in
      let known = word_at h v p agrees 1 4 8 slots_version (omega arith) refl (omega arith) in
      ground (arith, known)
