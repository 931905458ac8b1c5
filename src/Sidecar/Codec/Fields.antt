-- ===== src/Sidecar/Codec/Fields.antt =====
-- src/core/MetaFile.cc: the metadata that `deserialize` makes of an image whose fields are known.
use xrd_ucache.Base.{
  ℕ, zero, suc, ◌+◌, ◌/◌, ◌%◌, ◌≡◌, refl, arith, length, Content, slice, sym, ap, ◌∙◌, ◌==◌,
  Bool-cases, inl, inr,
}
use xrd_ucache.Bitmap
use xrd_ucache.Bitmap.{PageBitmap}
use xrd_ucache.Sidecar.{MetaData, npages, IsSized}
use xrd_ucache.Sidecar.Codec.{
  get, flags_word, bitmap_off, crcs_off, parse_table, parsed, header_size,
}

-- The fields of an image are those of metadata.
pub record Holds (p : Content) (m : MetaData) : Type 0 where
  pub page_size : get p 8 4 ≡ m.page_size
  pub word : get p 12 4 ≡ flags_word m
  pub file_size : get p 16 8 ≡ m.file_size
  pub atime : get p 24 8 ≡ m.atime
  pub origin_mtime : get p 32 8 ≡ m.origin_mtime
  pub cksum_kind : p 40 ≡ m.cksum_kind
  pub origin_cksum : get p 44 4 ≡ m.origin_cksum
  pub key : slice p header_size (length m.key) ≡ m.key
  pub bits : slice p (bitmap_off (length m.key)) ((npages m + 7) / 8) ≡ m.bitmap.bits
  pub table : parse_table p (crcs_off (length m.key) ((npages m + 7) / 8)) (npages m) ≡ m.page_crcs

pinned-flags_word : (m : MetaData) → (flags_word m % 2 == 1) ≡ m.pinned
unfolding flags_word
pinned-flags_word m = elim (Bool-cases m.pinned) [
  | inl c ↦ rw c (ground arith)
  | inr c ↦ rw c (ground arith)
]

complete-flags_word : (m : MetaData) → (flags_word m / 2 % 2 == 1) ≡ m.complete
unfolding flags_word
complete-flags_word m = elim (Bool-cases m.complete) [
  | inl c ↦ rw c (ground arith)
  | inr c ↦ rw c (ground arith)
]

other-flags_word : (m : MetaData) → flags_word m / 4 ≡ m.other_flags
unfolding flags_word
other-flags_word m = ground arith

-- The count does not depend on the count that was there.
count_below_bits :
    (n c : ℕ) (b : PageBitmap)
    → Bitmap.count_below n (record b { count = c }) ≡ Bitmap.count_below n b
unfolding Bitmap.count_below Bitmap.get
count_below_bits zero c b = refl
count_below_bits (suc n) c b = rw (count_below_bits n c b) refl

recount_bits :
    (b : PageBitmap)
    → Bitmap.IsValid b
    → Bitmap.recount (record { bits = b.bits; npages = b.npages; count = 0 }) ≡ b
unfolding Bitmap.recount
recount_bits b v = let counted = count_below_bits b.npages 0 b ∙ sym v.counted in rw counted refl

pub parsed-Holds :
    (p : Content) (m : MetaData) → IsSized m → Holds p m → parsed p (length m.key) (npages m) ≡ m
unfolding parsed
parsed-Holds p m s h =
    let pinned = ap (λ (w : ℕ). w % 2 == 1) h.word ∙ pinned-flags_word m in
    let complete = ap (λ (w : ℕ). w / 2 % 2 == 1) h.word ∙ complete-flags_word m in
    let other = ap (λ (w : ℕ). w / 4) h.word ∙ other-flags_word m in
    let pages : npages m ≡ m.bitmap.npages = sym s.bits in
    let bitmap : Bitmap.recount (record {
      bits = slice p (bitmap_off (length m.key)) ((npages m + 7) / 8);
      npages = npages m;
      count = 0;
    })
        ≡ m.bitmap =
      rw (h.bits, pages) (recount_bits m.bitmap s.valid) in
    rw
      (
        h.page_size, pinned, complete, other, h.file_size, h.atime, h.origin_mtime, h.cksum_kind,
        h.origin_cksum, h.key, bitmap, h.table,
      )
      refl
