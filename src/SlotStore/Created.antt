-- ===== src/SlotStore/Created.antt =====
-- src/core/SlotStore.cc: what `openOrCreate` serves and removes.
use xrd_ucache.Base.{
  ℕ, ◌+◌, ◌^◌, ◌≤◌, ◌<◌, ◌≡◌, ◌⊎◌, refl, inl, arith, true, false, List, [], ◌∷◌, some, ◌==◌, leb,
  min, length, All, Option, slice, blit-outside, ap, ◌∙◌,
}
use xrd_ucache.Sidecar.Codec.Pieces.{slice-blit}
use xrd_ucache.SlotStore.{SlotStoreHeader, SlotFile, header_bytes}
use xrd_ucache.SlotStore.Header.{
  k_ok, k_unusable, newer, newer_format, got_of, decode_slot_header, read_head_and_blob,
  checked_blob, codecs_max, encode_slot_header,
}
use xrd_ucache.SlotStore.HeaderRoundTrip.{IsHeader, decode-agrees, newer_format-agrees}
use xrd_ucache.SlotStore.Append.{take-all}
use xrd_ucache.SlotStore.Create.{
  found, missing, linked, Attempt, Outcome, served, no_store, Opened, header_for, created_file,
}

module _ (crc32c : List ℕ → ℕ) where
  -- At some attempt.
  abbrev pub Once : (Attempt → Type 0) → List Attempt → Type 0
  Once P [] = ⊥
  Once P (a ∷ l) = P a ⊎ Once P l

  -- The path names the file.
  abbrev pub Names : SlotFile → Attempt → Type 0
  Names f a = (mtime : Option ℕ) × (a.opening ≡ found f mtime)

  -- The path names nothing, and a store of that id is written whole and linked there.
  pub record Creates (id : ℕ) (a : Attempt) : Type 0 where
    pub free : a.opening ≡ missing
    pub opened : a.tmp_open ≡ true
    pub whole : a.written ≡ true
    pub placed : a.link ≡ linked
    pub own_id : a.new_store_id ≡ id

  -- The path names the file, last changed more than a minute before.
  abbrev pub IsOld : SlotFile → Attempt → Type 0
  IsOld f a = (mtime : ℕ) × (a.opening ≡ found f (some mtime)) × (mtime + 60 < a.now)

  -- What is served is the store that an attempt created, or a whole one that the path named.
  abbrev pub IsOrigin : SlotStoreHeader → List ℕ → List Attempt → Outcome → Type 0
  IsOrigin want blob l no_store = Unit
  IsOrigin want blob l (served h b true) =
      (id : ℕ) × Once (Creates id) l × (h ≡ header_for crc32c want blob id) × (b ≡ blob)
  IsOrigin want blob l (served h b false) =
      (f : SlotFile) × Once (Names f) l × (read_head_and_blob crc32c f ≡ k_ok h b)

  -- What is removed cannot be used, is not a newer format's, and was old when it was found.
  pub record IsDebris (l : List Attempt) (f : SlotFile) : Type 0 where
    pub unusable : read_head_and_blob crc32c f ≡ k_unusable
    pub older : newer f ≡ false
    pub old : Once (IsOld f) l

  pub record IsSafe (want : SlotStoreHeader) (blob : List ℕ) (l : List Attempt) (o : Opened)
      : Type 0 where
    pub origin : IsOrigin want blob l o.outcome
    pub unlinked : All (IsDebris l) o.unlinked

  checked_blob-whole :
      (f : SlotFile) (h : SlotStoreHeader) (blob : List ℕ)
      → slice f.bytes header_bytes h.blob_len ≡ blob
      → header_bytes + h.blob_len ≤ f.size
      → crc32c blob ≡ h.blob_crc
      → checked_blob crc32c f (some h) ≡ k_ok h blob
  unfolding checked_blob
  checked_blob-whole f h blob there room sum =
      let inside : leb (header_bytes + h.blob_len) f.size ≡ true = ground arith in
      let same : (crc32c blob == h.blob_crc) ≡ true = ground arith in
      rw (there, inside, same) (ground arith)

  read_head-whole :
      (f : SlotFile) (h : SlotStoreHeader) (blob : List ℕ)
      → header_bytes ≤ f.size
      → newer_format f.bytes header_bytes ≡ false
      → decode_slot_header crc32c f.bytes header_bytes ≡ some h
      → checked_blob crc32c f (some h) ≡ k_ok h blob
      → read_head_and_blob crc32c f ≡ k_ok h blob
  unfolding read_head_and_blob got_of
  read_head-whole f h blob long older decoded whole =
      let got : min header_bytes f.size ≡ header_bytes = omega arith in
      rw (got, older) (ap (checked_blob crc32c f) decoded ∙ whole)

  newer-older : (f : SlotFile) → newer_format f.bytes 12 ≡ false → newer f ≡ false
  unfolding newer
  newer-older f older = rw older (ground arith)

  -- The file that a creation links, for a header that fits its types and at most 256 bytes of codecs,
  -- is read by everyone after as that header and layout, and is not taken for a newer format's.
  pub read_head_and_blob-created_file :
      (want : SlotStoreHeader) (blob : List ℕ) (id : ℕ)
      → ((l : List ℕ) → crc32c l < 2 ^ 32)
      → IsHeader (header_for crc32c want blob id)
      → length want.codecs ≤ codecs_max
      → (read_head_and_blob crc32c (created_file crc32c want blob id)
          ≡ k_ok (header_for crc32c want blob id) blob)
        × (newer (created_file crc32c want blob id) ≡ false)
  unfolding header_for
  read_head_and_blob-created_file want blob id bound w short =
      let h = header_for crc32c want blob id in
      let f = created_file crc32c want blob id in
      let image = encode_slot_header crc32c h in
      let agrees : (x : ℕ) → x < header_bytes → f.bytes x ≡ image x =
        λ x before. unfold created_file in blit-outside image header_bytes blob x (inl before) in
      let decoded =
        decode-agrees crc32c h f.bytes bound w agrees
        ∙ ap (λ l. some (record h { codecs = l })) (take-all codecs_max want.codecs short) in
      let there : slice f.bytes header_bytes (length blob) ≡ blob =
        unfold created_file in slice-blit image header_bytes blob in
      let size : f.size ≡ header_bytes + length blob = unfold created_file in refl in
      let whole = checked_blob-whole f h blob there (omega arith) refl in
      (
        read_head-whole f h blob (omega arith)
            (newer_format-agrees crc32c h f.bytes header_bytes agrees) decoded whole,
        newer-older f (newer_format-agrees crc32c h f.bytes 12 agrees),
      )
