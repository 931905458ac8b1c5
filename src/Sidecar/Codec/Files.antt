-- ===== src/Sidecar/Codec/Files.antt =====
-- src/core/MetaFile.cc: `store`, `load` and `loadSummary`. What each system call answers is a parameter,
-- an error being its positive number; a file is its bytes by offset, with a size.
use xrd_ucache.Base.{
  ℕ, ◌+◌, ◌/◌, ◌^◌, ◌≤◌, ◌<◌, ◌≡◌, ◌≢◌, refl, ◌⊎◌, inl, inr, arith, Bool, true, false, not, ◌&&◌,
  ◌||◌, List, [], Option, none, some, Content, slice, ap, ◌∙◌, ◌==◌, if◌then◌else◌, ltb, min,
  Bool-cases, blit,
}
use xrd_ucache.Sidecar.{MetaData, npages_of}
use xrd_ucache.Sidecar.Codec.{
  get, no_crc, crc_field_off, magic, format_version, header_size, image_size, same_bytes, is_power,
  parsed, serialize, deserialize,
}
use xrd_ucache.Sidecar.Codec.Image.{IsStorable}
use xrd_ucache.Sidecar.Codec.RoundTrip.{deserialize-serialize}

abbrev pub Stored : Type 0
Stored = Content × ℕ

-- The sidecar and its temporary file.
pub record Disk : Type 0 where
  pub sidecar : Option Stored
  pub temporary : Option Stored

-- What the calls of one `store` answer.
pub record Calls : Type 0 where
  pub open_error : ℕ
  pub write_error : ℕ
  pub written : ℕ
  pub sync_error : ℕ
  pub close_error : ℕ
  pub rename_error : ℕ

-- EIO.
abbrev pub io_error : ℕ
io_error = 5

-- The error after the write, the sync and the close.
unfoldable pub write_result : Calls → Bool → ℕ → ℕ
write_result c fsync size =
    let wrote =
      if c.write_error == 0 then (if c.written == size then 0 else io_error) else c.write_error in
    let synced = if wrote == 0 && fsync then c.sync_error else wrote in
    if synced == 0 then c.close_error else synced

-- What of a file a read of a whole file brings, the read being of as many bytes as it answers.
pub record Reads : Type 0 where
  pub opens : Bool
  pub arrived : ℕ

-- A check that was passed.
unless :
    (b : Bool) (r : Option MetaData) (m : MetaData)
    → (if b then none else r) ≡ some m
    → (b ≡ false) × (r ≡ some m)
unless true r m e = absurd (cc)
unless false r m e = (refl, e)

abbrev drop_table : Option MetaData → Option MetaData
drop_table none = none
drop_table (some m) = some (record m { page_crcs = [] })

module _ (crc : List ℕ → ℕ) where
  -- `store`: its result, and the files that it leaves.
  unfoldable pub store : Calls → Bool → MetaData → Disk → ℕ × Disk
  unfolding write_result serialize
  store c fsync m d =
      let image = serialize crc m in
      let rc = write_result c fsync image.1 in
      let gone = record d { temporary = none } in
      if not (c.open_error == 0)
      then (c.open_error, d)
      else if not (rc == 0)
      then (rc, gone)
      else if not (c.rename_error == 0)
      then (c.rename_error, gone)
      else (0, record { sidecar = some (image.0, min c.written image.1); temporary = none })

  -- `load`.
  unfoldable pub load : Reads → Option Stored → Option MetaData
  unfolding deserialize
  load r none = none
  load r (some (p, size)) =
      if size == 0 || ltb (2 ^ 31) size
      then none
      else if not r.opens
      then none
      else if not (r.arrived == size)
      then none
      else deserialize crc p size

  loads_back :
      (p : Content) (size : ℕ)
      → 0 < size
      → size ≤ 2 ^ 31
      → load (record { opens = true; arrived = size }) (some (p, size)) ≡ deserialize crc p size
  unfolding load
  loads_back p size pos small =
      let fits : (size == 0 || ltb (2 ^ 31) size) ≡ false = ground (arith, pos, small) in
      let all : not (size == size) ≡ false = ground arith in rw (fits, all) refl

  written_all :
      (c : Calls) (fsync : Bool) (size : ℕ)
      → write_result c fsync size ≡ 0
      → min c.written size ≡ size
  unfolding write_result
  written_all c fsync size e = ground (arith, e)

  -- A store of metadata that fits its types, in an image of at most 2 GiB, whatever its calls answer,
  -- either fails and leaves the sidecar as it was, or answers 0 and leaves a sidecar that a load
  -- whose read is complete reads back as the metadata.
  pub store-load :
      (c : Calls) (fsync : Bool) (m : MetaData) (d : Disk)
      → ((l : List ℕ) → crc l < 2 ^ 32)
      → IsStorable m
      → 0 < (serialize crc m).1
      → (serialize crc m).1 ≤ 2 ^ 31
      → (((store c fsync m d).0 ≢ 0) × ((store c fsync m d).1.sidecar ≡ d.sidecar))
        ⊎ (((store c fsync m d).0 ≡ 0)
            × (load
                  (record { opens = true; arrived = (serialize crc m).1 })
                  (store c fsync m d).1.sidecar
                ≡ some m))
  unfolding store
  store-load c fsync m d bound s pos small =
      let image = serialize crc m in
      let rc = write_result c fsync image.1 in
      elim (Bool-cases (not (c.open_error == 0))) [
        | inl e ↦ rw e (inl (λ z. ground (arith, e, z), refl))
        | inr e ↦ elim (Bool-cases (not (rc == 0))) [
          | inl f ↦ rw (e, f) (inl (λ z. ground (arith, f, z), refl))
          | inr f ↦ elim (Bool-cases (not (c.rename_error == 0))) [
            | inl g ↦ rw (e, f, g) (inl (λ z. ground (arith, g, z), refl))
            | inr g ↦
                let all = written_all c fsync image.1 (ground (arith, f)) in
                let back =
                  loads_back image.0 image.1 pos small ∙ deserialize-serialize crc m bound s in
                rw (e, f, g) (inr (refl, rw all back))
          ]
        ]
      ]

  -- `loadSummary` of a file whose reads are complete: the checks without the checksum, and the
  -- metadata without its table.
  unfoldable pub load_summary : Option Stored → Option MetaData
  unfolding get npages_of image_size parsed same_bytes
  load_summary none = none
  load_summary (some (p, size)) =
      let page_size = get p 8 4 in
      let key_len = get p 48 4 in
      let np = npages_of page_size (get p 16 8) in
      let summary = record (parsed p key_len np) { page_crcs = [] } in
      if ltb size header_size || ltb (2 ^ 31) size
      then none
      else if not (same_bytes (slice p 0 4) magic) || not (get p 4 4 == format_version)
      then none
      else if not (is_power page_size) || ltb 65536 key_len
      then none
      else if not (size == image_size key_len ((np + 7) / 8) np)
      then none
      else some summary

  -- Any image of at most 2 GiB that `deserialize` accepts also gives a summary, which has the same
  -- metadata but no table of checksums.
  pub load_summary-agrees :
      (p : Content) (size : ℕ) (m : MetaData)
      → size ≤ 2 ^ 31
      → deserialize crc p size ≡ some m
      → load_summary (some (p, size)) ≡ some (record m { page_crcs = [] })
  unfolding load_summary deserialize
  load_summary-agrees p size m small e =
      let page_size = get p 8 4 in
      let key_len = get p 48 4 in
      let np = npages_of page_size (get p 16 8) in
      let (a, e1) = unless (ltb size header_size || not (same_bytes (slice p 0 4) magic)) _ m e in
      let (b, e2) = unless (not (get p 4 4 == format_version)) _ m e1 in
      let (c, e3) = unless (not (is_power page_size)) _ m e2 in
      let (d, e4) =
        unless (not (size == image_size key_len ((np + 7) / 8) np) || ltb 65536 key_len) _ m e3 in
      let (f, e5) =
        unless (not (crc (slice (blit p crc_field_off no_crc) 0 size) == get p crc_field_off 4))
          (some (parsed p key_len np)) m e4 in
      let begins : (ltb size header_size || ltb (2 ^ 31) size) ≡ false = ground (arith, a, small) in
      let known : (not (same_bytes (slice p 0 4) magic) || not (get p 4 4 == format_version))
          ≡ false =
        ground (arith, a, b) in
      let shape : (not (is_power page_size) || ltb 65536 key_len) ≡ false = ground (arith, c, d) in
      let whole : not (size == image_size key_len ((np + 7) / 8) np) ≡ false = ground (arith, d) in
      rw (begins, known, shape, whole) (ap (λ (o : Option MetaData). drop_table o) e5)
