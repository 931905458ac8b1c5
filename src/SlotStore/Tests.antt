-- ===== src/SlotStore/Tests.antt =====
-- A store of which the first block was cut short, and a commit of two records behind it.
use xrd_ucache.Base.{
  ℕ, ◌+◌, ◌%◌, ◌^◌, ◌≡◌, ◌≢◌, refl, arith, Bool, true, false, List, [], ◌∷◌, ◌++◌, none, some,
  slice, ◌≤◌, ◌<◌, ◌⊎◌, inl, inr,
}
use mathlib.Core.Path.{subst, sym, ◌∙◌}
use xrd_ucache.SlotStore.{
  SlotStoreHeader, SlotEntry, SlotRecord, SlotFile, SlotStore, known_kind, read_record,
}
use xrd_ucache.SlotStore.Header.{k_ok, read_head_and_blob, newer}
use xrd_ucache.SlotStore.HeaderRoundTrip.{IsHeader}
use xrd_ucache.SlotStore.Create.{
  found, missing, linked, exists_already, Attempt, header_for, created_file,
}
use xrd_ucache.SlotStore.Created.{read_head_and_blob-created_file}
use xrd_ucache.Sidecar.Codec.{get}
use xrd_ucache.SlotStore.Blocks.{Scan, read_blocks, scan_blocks, rounds}
use xrd_ucache.SlotStore.Ends.{NoneWraps, read_blocks-ends}
use xrd_ucache.SlotStore.Commit.{CommitCalls, Committed, wrote, commit}
use xrd_ucache.SlotStore.Kept.{reach_of, read_record-commit}
use xrd_ucache.SlotStore.Append.{ReadsBack}
use xrd_ucache.SlotStore.Reader.{is_whole, IsClear}
use xrd_ucache.SlotStore.Placed.{IsFitting}
use xrd_ucache.SlotStore.Seen.{commit-ReadsBack, commit-read_blocks}

total : List ℕ → ℕ
total [] = 0
total (x ∷ l) = x + total l

-- Any function of the bytes with 32-bit values serves as the checksum.
abbrev sum_of : List ℕ → ℕ
sum_of l = total l % 2 ^ 32

abbrev sum_from : ℕ → List ℕ → ℕ
sum_from c l = (c + total l) % 2 ^ 32

abbrev fills : ℕ → ℕ → Bool
fills pos n = true

abbrev torn_file : SlotFile
torn_file = record { bytes = λ x. 0; size = 5000 }

abbrev fresh_store : SlotStore
fresh_store = record { store_id = 7; declined = false; read_off = 4096; claimed_end = 0 }

abbrev good_calls : CommitCalls
good_calls = record {
  lock_error = none;
  still_named = true;
  full = fills;
  taken = λ l slot. false;
  landed = 10000;
  write_error = none;
}

abbrev two_records : List SlotRecord
two_records =
    record { slot = 1; kind = 1; bytes = 5 ∷ 6 ∷ [] }
    ∷ record { slot = 2; kind = 3; bytes = [] }
    ∷ []

abbrev two_entries : List SlotEntry
two_entries =
    record { slot = 1; kind = 1; off = 8304; len = 2; crc = 21 }
    ∷ record { slot = 2; kind = 3; off = 0; len = 0; crc = 0 }
    ∷ []

abbrev done : Committed
done = commit sum_of sum_from good_calls two_records torn_file fresh_store

answers : done.answer ≡ wrote 2
unfolding commit total slice
answers = refl

commits : done.committed ≡ two_entries
unfolding commit total slice
commits = refl

reads_back :
    read_record sum_of sum_from fills done.file fresh_store
      (record { slot = 1; kind = 1; off = 8304; len = 2; crc = 21 })
    ≡ some (5 ∷ 6 ∷ [])
unfolding commit total slice read_record
reads_back = refl

some_new : done.committed ≢ []
some_new e = let same = sym commits ∙ e in absurd (cc)

fits : IsFitting sum_of sum_from good_calls two_records torn_file fresh_store
unfolding slice known_kind commit reach_of
fits = record {
  sum = λ l. omega arith;
  sum_from = λ c l. omega arith;
  store_id = omega arith;
  records = (
    record { slot = omega arith; kind = refl; size = omega arith },
    (record { slot = omega arith; kind = refl; size = omega arith }, tt),
  );
  count = omega arith;
  small = omega arith;
}

commit-ReadsBack_example :
    ReadsBack sum_of sum_from fills done.file fresh_store two_records done.committed
unfolding commit slice
commit-ReadsBack_example =
    commit-ReadsBack sum_of sum_from good_calls fills two_records torn_file fresh_store fits
      (λ pos n. refl) some_new

-- The page in between is zero.
no_block : is_whole sum_of fills done.file.bytes 7 done.file.size 4096 ≡ false
unfolding commit slice is_whole total
no_block = refl

clash : true ≡ false → ⊥
clash e = absurd (cc)

IsClear-between : IsClear sum_of fills done.file.bytes 7 done.file.size 4096 8192
IsClear-between pos lo hi at w =
    let here : pos ≡ 4096 = omega arith in
    let none_there =
      subst (λ k. is_whole sum_of fills done.file.bytes 7 done.file.size k ≡ true) here w in
    absurd (clash (sym none_there ∙ no_block))

commit-read_blocks_example :
    (before : List SlotEntry) × ((read_blocks sum_of fills done.file.bytes done.file.size
        fresh_store).1
      ≡ before ++ done.committed)
    × ((read_blocks sum_of fills done.file.bytes done.file.size fresh_store).0.read_off
        ≡ done.store.read_off)
unfolding commit slice
commit-read_blocks_example =
    commit-read_blocks sum_of sum_from good_calls fills two_records torn_file fresh_store
      fresh_store fits (λ pos n. refl) some_new refl refl (omega arith) IsClear-between

-- The places of a block in that file: debris, and the block.
bounded : NoneWraps sum_of fills done.file.bytes 7 done.file.size 4096
unfolding commit slice
bounded pos lo inside at w = elim (boundary pos lo (omega arith) at) [
  | inl e ↦
      let whole =
        subst (λ k. is_whole sum_of fills done.file.bytes 7 done.file.size k ≡ true) e w in
      absurd (clash (sym whole ∙ no_block))
  | inr e ↦ subst (λ k. k + get done.file.bytes (k + 16) 8 + 4096 ≤ 2 ^ 64) (sym e) claimed
]
  where
    boundary : (k : ℕ) → 4096 ≤ k → k < 12288 → k % 4096 ≡ 0 → (k ≡ 4096) ⊎ (k ≡ 8192)
    boundary k lo hi at = ground arith

    claimed : 8192 + get done.file.bytes (8192 + 16) 8 + 4096 ≤ 2 ^ 64
    claimed = omega arith

read_blocks-ends_example :
    let start : Scan = record { pos = 4096; claimed_end = 0; out = [] } in
    (done.file.size
      < (read_blocks sum_of fills done.file.bytes done.file.size fresh_store).0.read_off + 64)
    × (scan_blocks sum_of fills done.file.bytes 7 done.file.size 1000 start
        ≡ scan_blocks sum_of fills done.file.bytes 7 done.file.size (rounds done.file.size) start)
unfolding commit slice rounds
read_blocks-ends_example =
    read_blocks-ends sum_of fills done.file.bytes done.file.size 1000 fresh_store refl bounded
      (omega arith)

-- A write of the block that is cut short after 100 bytes.
read_record-commit_example :
    read_record sum_of sum_from fills
      (commit sum_of sum_from
        (record good_calls { landed = 100 })
        two_records
        torn_file
        fresh_store).file
      fresh_store
      (record { slot = 9; kind = 2; off = 4200; len = 3; crc = 19 })
    ≡ read_record sum_of sum_from fills torn_file fresh_store
        (record { slot = 9; kind = 2; off = 4200; len = 3; crc = 19 })
unfolding slice commit reach_of
read_record-commit_example =
    read_record-commit sum_of sum_from (record good_calls { landed = 100 }) fills two_records
      torn_file fresh_store (record { slot = 9; kind = 2; off = 4200; len = 3; crc = 19 })
      (omega arith) (omega arith)

abbrev wanted : SlotStoreHeader
wanted = record {
  layout_version = 3;
  container = 1;
  slot_factor100 = 110;
  declined = false;
  codecs = 122 ∷ 115 ∷ [];
  origin_size = 1000000;
  origin_mtime = 1700000000;
  cksum_kind = 2;
  origin_cksum = 99;
  virtual_size = 1200000;
  n_slots = 40;
  layout_hash = 12345;
  store_id = 0;
  blob_len = 0;
  blob_crc = 0;
}

abbrev layout : List ℕ
layout = 1 ∷ 2 ∷ 3 ∷ []

wanted-IsHeader : IsHeader (header_for sum_of wanted layout 7)
unfolding header_for total
wanted-IsHeader = record {
  layout_version = omega arith;
  slot_factor100 = omega arith;
  origin_size = omega arith;
  origin_mtime = omega arith;
  origin_cksum = omega arith;
  virtual_size = omega arith;
  n_slots = omega arith;
  layout_hash = omega arith;
  store_id = omega arith;
  blob_len = omega arith;
  blob_crc = omega arith;
}

read_head_and_blob-created_file_example :
    (read_head_and_blob sum_of (created_file sum_of wanted layout 7)
      ≡ k_ok (header_for sum_of wanted layout 7) layout)
    × (newer (created_file sum_of wanted layout 7) ≡ false)
read_head_and_blob-created_file_example =
    read_head_and_blob-created_file sum_of wanted layout 7 (λ l. omega arith) wanted-IsHeader
      (omega arith)

-- Debris at first, then a store that another process links a moment before.
abbrev tries : List Attempt
tries =
    record {
      opening = found torn_file (some 100);
      now = 161;
      tmp_open = true;
      written = true;
      link = linked;
      new_store_id = 7;
    }
    ∷ record {
      opening = missing;
      now = 161;
      tmp_open = true;
      written = true;
      link = exists_already;
      new_store_id = 8;
    }
    ∷ record {
      opening = found (created_file sum_of wanted layout 9) none;
      now = 162;
      tmp_open = true;
      written = true;
      link = linked;
      new_store_id = 10;
    }
    ∷ []
