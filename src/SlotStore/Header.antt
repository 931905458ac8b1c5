-- ===== src/SlotStore/Header.antt =====
-- src/core/SlotStore.cc: `encodeSlotHeader` and `decodeSlotHeader`, and what a header tells of a file.
use xrd_ucache.Base.{
  ℕ, ◌+◌, ◌-◌, ◌*◌, ◌/◌, Bool, false, not, ◌&&◌, ◌||◌, List, [], ◌∷◌, Option, none, some, ◌==◌,
  if◌then◌else◌, ltb, leb, length, min, take, Content, slice, blit,
}
use xrd_ucache.Sidecar.Codec.{le, get, same_bytes, Piece, puts, zero_image}
use xrd_ucache.SlotStore.{SlotStoreHeader, SlotFile, header_bytes, k_align}

-- 'U', 'C', 'S', 'L', 'O', 'T', 'S', '1'.
abbrev pub slots_magic : List ℕ
slots_magic = 85 ∷ 67 ∷ 83 ∷ 76 ∷ 79 ∷ 84 ∷ 83 ∷ 49 ∷ []

abbrev pub slots_version : ℕ
slots_version = 2

abbrev pub codecs_max : ℕ
codecs_max = 256

abbrev pub header_crc_off : ℕ
header_crc_off = header_bytes - 4

-- The writes of `encodeSlotHeader` before the checksum.
unfoldable pub header_pieces : SlotStoreHeader → List Piece
unfolding le
header_pieces h =
    let n = min (length h.codecs) codecs_max in
    (0, slots_magic)
    ∷ (8, le 4 slots_version)
    ∷ (12, le 4 h.layout_version)
    ∷ (16, h.container ∷ [])
    ∷ (18, (if h.declined then 1 else 0) ∷ [])
    ∷ (20, le 4 h.n_slots)
    ∷ (24, le 8 h.origin_size)
    ∷ (32, le 8 h.origin_mtime)
    ∷ (40, h.cksum_kind ∷ [])
    ∷ (42, le 2 h.slot_factor100)
    ∷ (44, le 4 h.origin_cksum)
    ∷ (48, le 8 h.virtual_size)
    ∷ (56, le 8 h.layout_hash)
    ∷ (64, le 8 h.store_id)
    ∷ (72, le 8 h.blob_len)
    ∷ (80, le 4 h.blob_crc)
    ∷ (84, le 2 n)
    ∷ (86, take n h.codecs)
    ∷ []

unfoldable pub header_body : SlotStoreHeader → Content
unfolding puts header_pieces
header_body h = puts (header_pieces h) zero_image

-- The header of an image that passed the checks.
unfoldable pub header_of : Content → SlotStoreHeader
unfolding get
header_of p = record {
  layout_version = get p 12 4;
  container = p 16;
  slot_factor100 = get p 42 2;
  declined = not (p 18 == 0);
  codecs = slice p 86 (get p 84 2);
  origin_size = get p 24 8;
  origin_mtime = get p 32 8;
  cksum_kind = p 40;
  origin_cksum = get p 44 4;
  virtual_size = get p 48 8;
  n_slots = get p 20 4;
  layout_hash = get p 56 8;
  store_id = get p 64 8;
  blob_len = get p 72 8;
  blob_crc = get p 80 4;
}

-- `newerFormat`.
unfoldable pub newer_format : Content → ℕ → Bool
unfolding same_bytes get
newer_format p n = leb 12 n && same_bytes (slice p 0 8) slots_magic && ltb slots_version (get p 8 4)

-- How much of n bytes a read of a file from its beginning gets, on a disk that fills it.
unfoldable pub got_of : SlotFile → ℕ → ℕ
got_of f n = min n f.size

-- What `readHeadAndBlob` comes to.
pub data Read : Type 0 where
  k_ok : SlotStoreHeader → List ℕ → Read
  k_unusable : Read
  k_newer : Read

unfoldable pub not_declined : Option SlotStoreHeader → Bool
not_declined none = false
not_declined (some h) = not h.declined

-- `newer`.
unfoldable pub newer : SlotFile → Bool
unfolding got_of newer_format
newer f = got_of f 12 == 12 && newer_format f.bytes 12

unfoldable pub past_layout : SlotFile → Option SlotStoreHeader → Bool
past_layout f none = false
past_layout f (some h) =
    not h.declined && ltb (((header_bytes + h.blob_len + k_align - 1) / k_align) * k_align) f.size

module _ (crc32c : List ℕ → ℕ) where
  -- `encodeSlotHeader`: an image of 4 KiB.
  unfoldable pub encode_slot_header : SlotStoreHeader → Content
  unfolding header_body le
  encode_slot_header h =
      let b = header_body h in blit b header_crc_off (le 4 (crc32c (slice b 0 header_crc_off)))

  -- `decodeSlotHeader` of n bytes.
  unfoldable pub decode_slot_header : Content → ℕ → Option SlotStoreHeader
  unfolding get same_bytes header_of
  decode_slot_header p n =
      if ltb n header_bytes || not (same_bytes (slice p 0 8) slots_magic)
      then none
      else if not (get p header_crc_off 4 == crc32c (slice p 0 header_crc_off))
      then none
      else if not (get p 8 4 == slots_version)
      then none
      else if ltb codecs_max (get p 84 2)
      then none
      else some (header_of p)

  unfoldable pub checked_blob : SlotFile → Option SlotStoreHeader → Read
  checked_blob f none = k_unusable
  checked_blob f (some h) =
      let blob = slice f.bytes header_bytes h.blob_len in
      if not (h.blob_len == 0)
        && not (leb (header_bytes + h.blob_len) f.size && crc32c blob == h.blob_crc)
      then k_unusable
      else k_ok h blob

  -- `readHeadAndBlob`.
  unfoldable pub read_head_and_blob : SlotFile → Read
  unfolding got_of newer_format decode_slot_header checked_blob
  read_head_and_blob f =
      let got = got_of f header_bytes in
      if leb 12 got && newer_format f.bytes got
      then k_newer
      else if not (got == header_bytes)
      then k_unusable
      else checked_blob f (decode_slot_header f.bytes header_bytes)

  -- `serving`, of the file at the path.
  unfoldable pub serving : SlotFile → Bool
  unfolding got_of newer_format decode_slot_header not_declined
  serving f =
      let got = got_of f header_bytes in
      (leb 12 got && newer_format f.bytes got)
      || (got == header_bytes && not_declined (decode_slot_header f.bytes header_bytes))

  -- `holdsRecords`.
  unfoldable pub holds_records : SlotFile → Bool
  unfolding got_of decode_slot_header past_layout
  holds_records f =
      got_of f header_bytes == header_bytes
      && past_layout f (decode_slot_header f.bytes header_bytes)
