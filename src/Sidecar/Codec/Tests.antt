-- ===== src/Sidecar/Codec/Tests.antt =====
-- Metadata of a file of two pages, through the codec, with the sum of the bytes for a checksum.
use xrd_ucache.Base.{
  ℕ, ◌+◌, ◌%◌, ◌^◌, ◌<◌, ◌≡◌, ◌≢◌, ◌⊎◌, refl, arith, true, List, [], ◌∷◌, some, none, word_limit,
}
use xrd_ucache.Bitmap
use xrd_ucache.Sidecar.{MetaData, npages, npages_of, fresh, IsSized}
use xrd_ucache.Sidecar.Fresh.{fresh-IsSized}
use xrd_ucache.Sidecar.Codec.{serialize, deserialize}
use xrd_ucache.Sidecar.Codec.Image.{IsStorable}
use xrd_ucache.Sidecar.Codec.RoundTrip.{deserialize-serialize}
use xrd_ucache.Sidecar.Codec.Files.{
  Calls, Disk, store, load, load_summary, store-load, load_summary-agrees,
}

abbrev two_pages : MetaData
two_pages = record (fresh 77 (47 ∷ 97 ∷ []) 5000 4096) {
  pinned = true;
  other_flags = 9;
  page_crcs = 305419896 ∷ 7 ∷ [];
}

fits : npages_of 4096 5000 < word_limit
unfolding npages_of
fits = omega arith

two_pages-IsStorable : IsStorable two_pages
unfolding fresh npages npages_of
two_pages-IsStorable =
    let sized = fresh-IsSized 77 (47 ∷ 97 ∷ []) 5000 4096 fits in
    let bitmap : IsSized two_pages = record {
      valid = sized.valid;
      bits = sized.bits;
      crcs = omega arith;
    } in
    record {
      sized = bitmap;
      power = refl;
      page_size = omega arith;
      flags = omega arith;
      file_size = omega arith;
      atime = omega arith;
      origin_mtime = omega arith;
      origin_cksum = omega arith;
      key = omega arith;
      crcs = (omega arith, (omega arith, tt));
      pages = omega arith;
    }

abbrev sum : List ℕ → ℕ
sum [] = 0
sum (b ∷ l) = (b + sum l) % 2 ^ 32

sum_bound : (l : List ℕ) → sum l < 2 ^ 32
sum_bound [] = omega arith
sum_bound (b ∷ l) = omega arith

deserialize-serialize_example :
    deserialize sum (serialize sum two_pages).0 (serialize sum two_pages).1 ≡ some two_pages
deserialize-serialize_example = deserialize-serialize sum two_pages sum_bound two_pages-IsStorable

abbrev good_calls : Calls
good_calls = record {
  open_error = 0;
  write_error = 0;
  written = 73;
  sync_error = 0;
  close_error = 0;
  rename_error = 0;
}

abbrev empty_disk : Disk
empty_disk = record { sidecar = none; temporary = none }

image_size_is : (serialize sum two_pages).1 ≡ 73
unfolding serialize fresh Bitmap.reset npages npages_of
image_size_is = refl

store-load_example :
    (((store sum good_calls true two_pages empty_disk).0 ≢ 0)
      × ((store sum good_calls true two_pages empty_disk).1.sidecar ≡ none))
    ⊎ (((store sum good_calls true two_pages empty_disk).0 ≡ 0)
        × (load sum
              (record { opens = true; arrived = (serialize sum two_pages).1 })
              (store sum good_calls true two_pages empty_disk).1.sidecar
            ≡ some two_pages))
store-load_example =
    store-load sum good_calls true two_pages empty_disk sum_bound two_pages-IsStorable
      (omega (arith, image_size_is)) (omega (arith, image_size_is))

-- The call that succeeds, and one whose write is short.
stores : (store sum good_calls true two_pages empty_disk).0 ≡ 0
unfolding store fresh Bitmap.reset npages npages_of
stores = refl

short_write : (store sum (record good_calls { written = 70 }) true two_pages empty_disk).0 ≡ 5
unfolding store fresh Bitmap.reset npages npages_of
short_write = refl

load_summary-agrees_example :
    load_summary sum (some ((serialize sum two_pages).0, (serialize sum two_pages).1))
    ≡ some (record two_pages { page_crcs = [] })
load_summary-agrees_example =
    load_summary-agrees sum (serialize sum two_pages).0 (serialize sum two_pages).1 two_pages
      (omega (arith, image_size_is)) deserialize-serialize_example
