-- ===== src/Sidecar/Codec/Image.antt =====
-- src/core/MetaFile.cc: the fields of an image, with its checksum written.
use xrd_ucache.Base.{
  ℕ, zero, suc, ◌+◌, ◌-◌, ◌^◌, ◌≤◌, ◌<◌, ◌≡◌, refl, ◌⊎◌, inl, inr, arith, true, List, length, All,
  Content, slice, blit, sym, ap, ◌∙◌, blit-inside, blit-outside, slice_ext, get_or, get_elem?, some,
}
use native.Mathlib.Decide.{dec_lt}
use xrd_ucache.Sidecar.{MetaData, npages, IsSized}
use xrd_ucache.Sidecar.Codec.{
  le, header_size, crc_field_off, bitmap_off, crcs_off, align8, pieces, body, zero_image, no_crc,
  is_power,
}
use xrd_ucache.Sidecar.Codec.Words.{length-le}
use xrd_ucache.Sidecar.Codec.Pieces.{Ascends, puts-Misses, puts-nth, slice-blit}

-- What the source's types and the writers of an entry keep true of its metadata.
pub record IsStorable (m : MetaData) : Type 0 where
  pub sized : IsSized m
  pub power : is_power m.page_size ≡ true
  pub page_size : m.page_size < 2 ^ 32
  pub flags : m.other_flags < 2 ^ 30
  pub file_size : m.file_size < 2 ^ 64
  pub atime : m.atime < 2 ^ 64
  pub origin_mtime : m.origin_mtime < 2 ^ 64
  pub origin_cksum : m.origin_cksum < 2 ^ 32
  pub key : length m.key ≤ 65536
  pub crcs : All (λ c. c < 2 ^ 32) m.page_crcs
  pub pages : npages m < 2 ^ 60

pub pieces-Ascends : (m : MetaData) → Ascends 0 (pieces m)
unfolding pieces bitmap_off crcs_off align8 le
pieces-Ascends m = (
  omega arith,
  (
    omega arith,
    (
      omega arith,
      (
        omega arith,
        (
          omega arith,
          (
            omega arith,
            (
              omega arith,
              (
                omega arith,
                (omega arith, (omega arith, (omega arith, (omega arith, (omega arith, tt))))),
              ),
            ),
          ),
        ),
      ),
    ),
  ),
)

-- The checksum field is zero before it is written.
body-crc_field : (m : MetaData) (x : ℕ) → crc_field_off ≤ x → x < header_size → body m x ≡ 0
unfolding body pieces bitmap_off crcs_off align8 le
body-crc_field m x lo hi = puts-Misses (pieces m) zero_image x (
  inr (omega arith),
  (
    inr (omega arith),
    (
      inr (omega arith),
      (
        inr (omega arith),
        (
          inr (omega arith),
          (
            inr (omega arith),
            (
              inr (omega arith),
              (
                inr (omega arith),
                (
                  inr (omega arith),
                  (
                    inr (omega arith),
                    (inl (omega arith), (inl (omega arith), (inl (omega arith), tt))),
                  ),
                ),
              ),
            ),
          ),
        ),
      ),
    ),
  ),
)

-- Each field as it was put down.
pub body-nth :
    (m : MetaData) (i n off : ℕ) (l : List ℕ)
    → get_elem? (pieces m) i ≡ some (off, l)
    → length l ≡ n
    → slice (body m) off n ≡ l
unfolding body
body-nth m i n off l e k = puts-nth i (pieces m) zero_image 0 n (off, l) (pieces-Ascends m) e k

-- The checksum changes no other field.
pub signed_field :
    (f : Content) (v off n : ℕ)
    → (off + n ≤ crc_field_off) ⊎ (header_size ≤ off)
    → slice (blit f crc_field_off (le 4 v)) off n ≡ slice f off n
signed_field f v off n h =
    let size = length-le 4 v in
    slice_ext (blit f crc_field_off (le 4 v)) f off n (λ x lo hi.
      blit-outside f crc_field_off (le 4 v) x
        (elim h [ inl b ↦ inl (omega arith) | inr b ↦ inr (omega (arith, size)) ]))

pub signed_crc :
    (f : Content) (v : ℕ) → slice (blit f crc_field_off (le 4 v)) crc_field_off 4 ≡ le 4 v
signed_crc f v =
    ap (slice (blit f crc_field_off (le 4 v)) crc_field_off) (sym (length-le 4 v))
    ∙ slice-blit f crc_field_off (le 4 v)

zero_there : (k : ℕ) → get_or no_crc k 0 ≡ 0
zero_there zero = refl
zero_there (suc zero) = refl
zero_there (suc (suc zero)) = refl
zero_there (suc (suc (suc zero))) = refl
zero_there (suc (suc (suc (suc k)))) = refl

-- Zeroing the field gives the image that the checksum was taken of.
pub unsigned_body :
    (m : MetaData) (v n : ℕ)
    → slice (blit (blit (body m) crc_field_off (le 4 v)) crc_field_off no_crc) 0 n
      ≡ slice (body m) 0 n
unsigned_body m v n =
    let signed = blit (body m) crc_field_off (le 4 v) in
    let size = length-le 4 v in
    slice_ext (blit signed crc_field_off no_crc) (body m) 0 n (λ x lo hi.
      elim (dec_lt x crc_field_off) [
        | yes before ↦
            blit-outside signed crc_field_off no_crc x (inl before)
            ∙ blit-outside (body m) crc_field_off (le 4 v) x (inl before)
        | no after ↦ elim (dec_lt x header_size) [
          | yes inside ↦
              blit-inside signed crc_field_off no_crc x (omega arith) (omega arith)
              ∙ zero_there (x - crc_field_off)
              ∙ sym (body-crc_field m x (omega arith) inside)
          | no past ↦
              blit-outside signed crc_field_off no_crc x (inr (omega arith))
              ∙ blit-outside (body m) crc_field_off (le 4 v) x (inr (omega (arith, size)))
        ]
      ])
