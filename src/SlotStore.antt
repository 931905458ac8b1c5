-- ===== src/SlotStore.antt =====
-- src/core/SlotStore.cc and SlotStore.h: the store of a file's converted records. A header is written
-- once; then each commit adds a block of entries and records past everything that was there.
pub mod Header
pub mod HeaderRoundTrip
pub mod Blocks
pub mod Commit
pub mod Entries
pub mod Layout
pub mod Found
pub mod Reader
pub mod Ends
pub mod Append
pub mod Kept
pub mod Placed
pub mod Seen
pub mod Create
pub mod Created
pub mod Tests
use xrd_ucache.Base.{
  ℕ, zero, suc, ◌+◌, ◌-◌, ◌*◌, ◌/◌, ◌^◌, Bool, true, false, not, ◌&&◌, ◌||◌, List, [], ◌∷◌, ◌++◌,
  Option, none, some, ◌==◌, if◌then◌else◌, add64, ltb, leb, length, take, drop, get_or, Content,
  slice,
}
use xrd_ucache.Sidecar.Codec.{from_le, le}

pub record SlotStoreHeader : Type 0 where
  pub layout_version : ℕ
  pub container : ℕ
  pub slot_factor100 : ℕ
  pub declined : Bool
  pub codecs : List ℕ
  pub origin_size : ℕ
  pub origin_mtime : ℕ
  pub cksum_kind : ℕ
  pub origin_cksum : ℕ
  pub virtual_size : ℕ
  pub n_slots : ℕ
  pub layout_hash : ℕ
  pub store_id : ℕ
  pub blob_len : ℕ
  pub blob_crc : ℕ

pub record SlotEntry : Type 0 where
  pub slot : ℕ
  pub kind : ℕ
  pub off : ℕ
  pub len : ℕ
  pub crc : ℕ

pub record SlotRecord : Type 0 where
  pub slot : ℕ
  pub kind : ℕ
  pub bytes : List ℕ

-- A file: its bytes and its size.
pub record SlotFile : Type 0 where
  pub bytes : Content
  pub size : ℕ

-- What a process knows of an open store.
pub record SlotStore : Type 0 where
  pub store_id : ℕ
  pub declined : Bool
  pub read_off : ℕ
  pub claimed_end : ℕ

abbrev pub k_zstd : ℕ
k_zstd = 1

abbrev pub k_raw : ℕ
k_raw = 2

abbrev pub k_kept : ℕ
k_kept = 3

abbrev pub header_bytes : ℕ
header_bytes = 4096

abbrev pub k_align : ℕ
k_align = 4096

abbrev pub block_header : ℕ
block_header = 64

abbrev pub entry_bytes : ℕ
entry_bytes = 24

unfoldable pub align_up : ℕ → ℕ
align_up v = add64 v (k_align - 1) / k_align * k_align

-- `encodeEntry`: the bytes that it does not set are zero.
unfoldable pub encode_entry : SlotEntry → List ℕ
unfolding le
encode_entry e = le 4 e.slot ++ (e.kind ∷ 0 ∷ 0 ∷ 0 ∷ []) ++ le 8 e.off ++ le 4 e.len ++ le 4 e.crc

unfoldable pub entry_at : List ℕ → SlotEntry
unfolding from_le
entry_at p = record {
  slot = from_le (take 4 p);
  kind = get_or p 4 0;
  off = from_le (take 8 (drop 8 p));
  len = from_le (take 4 (drop 16 p));
  crc = from_le (take 4 (drop 20 p));
}

-- What `decodeEntry` answers of the kind.
unfoldable pub known_kind : ℕ → Bool
known_kind k = k == k_zstd || k == k_raw || k == k_kept

-- The constructor, on a header.
unfoldable pub opened : SlotStoreHeader → SlotStore
unfolding align_up
opened h = record {
  store_id = h.store_id;
  declined = h.declined;
  read_off = align_up (add64 header_bytes h.blob_len);
  claimed_end = 0;
}

module _ (crc32c : List ℕ → ℕ) (crc32c_from : ℕ → List ℕ → ℕ) where
  -- `recordCrc`: the second checksum goes on from the seed's.
  unfoldable pub record_crc : ℕ → ℕ → List ℕ → ℕ
  unfolding le
  record_crc store_id slot p =
      crc32c_from (crc32c (le 8 store_id ++ le 4 slot ++ le 4 (length p))) p

  -- `readRecord`. A read that the disk does not fill, or past the file's end, is refused.
  unfoldable pub read_record : (ℕ → ℕ → Bool) → SlotFile → SlotStore → SlotEntry → Option (List ℕ)
  unfolding record_crc
  read_record full f s e =
      let out = slice f.bytes e.off e.len in
      if e.kind == k_kept
      then none
      else if not (full e.off e.len && leb (e.off + e.len) f.size)
      then none
      else if record_crc s.store_id e.slot out == e.crc
      then some out
      else none
