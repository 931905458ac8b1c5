-- ===== src/Sidecar/Codec.antt =====
-- src/core/MetaFile.cc: `serialize` and `deserialize`. An image is its bytes by offset, with a size;
-- the checksum (crc32c) of a list of bytes is a parameter. The flag word is taken apart into its two
-- flags and the rest.
use xrd_ucache.Base.{
  ℕ, zero, suc, ◌+◌, ◌-◌, ◌*◌, ◌/◌, ◌%◌, ◌^◌, Bool, true, false, not, ◌&&◌, ◌||◌, List, [], ◌∷◌,
  ◌++◌, Option, none, some, ◌==◌, if◌then◌else◌, add64, ltb, leb, length, Content, slice, blit,
}
pub mod Words
pub mod Pieces
pub mod Image
pub mod Fields
pub mod RoundTrip
pub mod Files
mod Tests
use Prim.Native.Nat.{bit_and}
use xrd_ucache.Bitmap
use xrd_ucache.Bitmap.{PageBitmap}
use xrd_ucache.Sidecar.{MetaData, npages, npages_of}

-- `put`: the n bytes of a word, the lowest first.
unfoldable pub le : ℕ → ℕ → List ℕ
le zero v = []
le (suc n) v = v % 256 ∷ le n (v / 256)

unfoldable pub from_le : List ℕ → ℕ
from_le [] = 0
from_le (b ∷ l) = b + 256 * from_le l

-- `get` of n bytes.
unfoldable pub get : Content → ℕ → ℕ → ℕ
unfolding from_le
get p off n = from_le (slice p off n)

unfoldable pub align8 : ℕ → ℕ
align8 n = (n + 7) / 8 * 8

abbrev pub header_size : ℕ
header_size = 56

abbrev pub crc_field_off : ℕ
crc_field_off = 52

-- 'U', 'C', 'A', 'C'.
abbrev pub magic : List ℕ
magic = 85 ∷ 67 ∷ 65 ∷ 67 ∷ []

abbrev pub format_version : ℕ
format_version = 1

unfoldable pub flags_word : MetaData → ℕ
flags_word m = (if m.pinned then 1 else 0) + (if m.complete then 2 else 0) + 4 * m.other_flags

-- The table of checksums, four bytes each.
unfoldable pub crc_table : List ℕ → List ℕ
unfolding le
crc_table [] = []
crc_table (c ∷ l) = le 4 c ++ crc_table l

-- A write at an offset.
abbrev pub Piece : Type 0
Piece = ℕ × List ℕ

-- The writes of a list, in order.
unfoldable pub puts : List Piece → Content → Content
unfolding blit
puts [] f = f
puts (p ∷ l) f = puts l (blit f p.0 p.1)

unfoldable pub bitmap_off : ℕ → ℕ
unfolding align8
bitmap_off key_len = align8 (header_size + key_len)

unfoldable pub crcs_off : ℕ → ℕ → ℕ
unfolding bitmap_off
crcs_off key_len bitmap_size = bitmap_off key_len + bitmap_size

unfoldable pub image_size : ℕ → ℕ → ℕ → ℕ
unfolding crcs_off
image_size key_len bitmap_size n = add64 (crcs_off key_len bitmap_size) ((n * 4) % 2 ^ 64)

-- The writes of `serialize` before the image's checksum. Metadata without a whole table of checksums
-- leaves it zero.
unfoldable pub pieces : MetaData → List Piece
unfolding le flags_word bitmap_off crcs_off crc_table npages
pieces m =
    (0, magic)
    ∷ (4, le 4 format_version)
    ∷ (8, le 4 m.page_size)
    ∷ (12, le 4 (flags_word m))
    ∷ (16, le 8 m.file_size)
    ∷ (24, le 8 m.atime)
    ∷ (32, le 8 m.origin_mtime)
    ∷ (40, m.cksum_kind ∷ [])
    ∷ (44, le 4 m.origin_cksum)
    ∷ (48, le 4 (length m.key))
    ∷ (header_size, m.key)
    ∷ (bitmap_off (length m.key), m.bitmap.bits)
    ∷ (
      crcs_off (length m.key) (length m.bitmap.bits),
      if not (npages m == 0) && length m.page_crcs == npages m then crc_table m.page_crcs else [],
    )
    ∷ []

unfoldable pub size_of : MetaData → ℕ
unfolding image_size npages
size_of m = image_size (length m.key) (length m.bitmap.bits) (npages m)

-- Four zero bytes.
abbrev pub no_crc : List ℕ
no_crc = 0 ∷ 0 ∷ 0 ∷ 0 ∷ []

abbrev pub zero_image : Content
zero_image x = 0

-- The image with its checksum field zero.
unfoldable pub body : MetaData → Content
unfolding puts pieces
body m = puts (pieces m) zero_image

unfoldable pub same_bytes : List ℕ → List ℕ → Bool
same_bytes [] [] = true
same_bytes [] (y ∷ l) = false
same_bytes (x ∷ k) [] = false
same_bytes (x ∷ k) (y ∷ l) = x == y && same_bytes k l

unfoldable pub parse_table : Content → ℕ → ℕ → List ℕ
unfolding get
parse_table p off zero = []
parse_table p off (suc n) = get p off 4 ∷ parse_table p (off + 4) n

abbrev pub is_power : ℕ → Bool
is_power n = not (n == 0) && bit_and n (n - 1) == 0

-- The metadata of an image that passed the checks.
unfoldable pub parsed : Content → ℕ → ℕ → MetaData
unfolding get parse_table bitmap_off crcs_off
parsed p key_len n =
    let word = get p 12 4 in
    let size = (n + 7) / 8 in
    record {
      page_size = get p 8 4;
      pinned = word % 2 == 1;
      complete = word / 2 % 2 == 1;
      other_flags = word / 4;
      file_size = get p 16 8;
      atime = get p 24 8;
      origin_mtime = get p 32 8;
      cksum_kind = p 40;
      origin_cksum = get p 44 4;
      key = slice p header_size key_len;
      bitmap =
          Bitmap.recount
            (record { bits = slice p (bitmap_off key_len) size; npages = n; count = 0 });
      page_crcs = parse_table p (crcs_off key_len size) n;
    }

module _ (crc : List ℕ → ℕ) where
  -- `serialize`.
  unfoldable pub serialize : MetaData → Content × ℕ
  unfolding body size_of le
  serialize m =
      let img = body m in (blit img crc_field_off (le 4 (crc (slice img 0 (size_of m)))), size_of m)

  -- `deserialize`.
  unfoldable pub deserialize : Content → ℕ → Option MetaData
  unfolding get npages_of image_size parsed same_bytes
  deserialize p n =
      let page_size = get p 8 4 in
      let key_len = get p 48 4 in
      let stored = get p crc_field_off 4 in
      let np = npages_of page_size (get p 16 8) in
      if ltb n header_size || not (same_bytes (slice p 0 4) magic)
      then none
      else if not (get p 4 4 == format_version)
      then none
      else if not (is_power page_size)
      then none
      else if not (n == image_size key_len ((np + 7) / 8) np) || ltb 65536 key_len
      then none
      else if not (crc (slice (blit p crc_field_off no_crc) 0 n) == stored)
      then none
      else some (parsed p key_len np)
