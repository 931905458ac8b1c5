-- ===== src/SlotStore/Kept.antt =====
-- src/core/SlotStore.cc: what a commit leaves alone, whatever becomes of its write.
use xrd_ucache.Base.{
  ℕ, ◌+◌, ◌%◌, ◌^◌, ◌≤◌, ◌<◌, ◌≡◌, refl, arith, Bool, true, false, not, List, [], ◌∷◌, Option, none,
  some, ◌==◌, if◌then◌else◌, leb, max, length, take, ◌⊎◌, slice, slice_ext, blit-outside, ap, ◌∙◌,
  inl, inr,
}
use xrd_ucache.SlotStore.{
  SlotEntry, SlotRecord, SlotFile, SlotStore, read_record, align_up, k_align,
}
use xrd_ucache.SlotStore.Blocks.{read_blocks}
use xrd_ucache.SlotStore.Commit.{
  CommitCalls, Committed, Answer, wrote, failed, commit, commit_locked, commit_write, append_block,
  refused, untaken, base_of, write_at, block_of, settled,
}

-- The furthest that anything in the file is known to reach.
unfoldable pub reach_of : SlotFile → SlotStore → ℕ
reach_of f s = max (max f.size s.read_off) s.claimed_end

pub base_of-reach_of :
    (f : SlotFile) (s : SlotStore)
    → reach_of f s + k_align < 2 ^ 64
    → (reach_of f s ≤ base_of f s)
      × (base_of f s < reach_of f s + k_align)
      × (base_of f s % k_align ≡ 0)
unfolding reach_of base_of align_up
base_of-reach_of f s h = omega arith

-- A write past the end leaves what was there.
write_at-below :
    (f : SlotFile) (base x : ℕ) (l : List ℕ) → x < base → (write_at f base l).bytes x ≡ f.bytes x
unfolding write_at
write_at-below f base x [] h = refl
write_at-below f base x (y ∷ l) h = blit-outside f.bytes base (y ∷ l) x (inl h)

write_at-size : (f : SlotFile) (base : ℕ) (l : List ℕ) → f.size ≤ (write_at f base l).size
unfolding write_at
write_at-size f base [] = omega arith
write_at-size f base (y ∷ l) = omega arith

-- The files of which the first is a beginning.
pub record Extends (f g : SlotFile) : Type 0 where
  pub size : f.size ≤ g.size
  pub bytes : (x : ℕ) → x < f.size → g.bytes x ≡ f.bytes x

Extends-refl : (f : SlotFile) → Extends f f
Extends-refl f = record { size = omega arith; bytes = λ x h. refl }

write_at-Extends :
    (f : SlotFile) (base : ℕ) (l : List ℕ) → f.size ≤ base → Extends f (write_at f base l)
write_at-Extends f base l h = record {
  size = write_at-size f base l;
  bytes = λ x below. write_at-below f base x l (omega arith);
}

if_cases {κ} :
    (P : Committed → Type κ) (b : Bool) (x y : Committed) → P x → P y → P (if b then x else y)
if_cases P true x y h k = h
if_cases P false x y h k = k

pub settled-file :
    (file : SlotFile) (s : SlotStore) (others entries : List SlotEntry) (end : ℕ) (a : Answer)
    → (settled file s others entries end a).file ≡ file
unfolding settled
settled-file file s others entries end (failed code) = refl
settled-file file s others entries end (wrote size) = refl

module _ (crc32c : List ℕ → ℕ) (crc32c_from : ℕ → List ℕ → ℕ) where
  -- The store once it has read what others committed.
  abbrev pub caught_up : CommitCalls → SlotFile → SlotStore → SlotStore
  caught_up calls f s = (read_blocks crc32c calls.full f.bytes f.size s).0

  abbrev pub others_of : CommitCalls → SlotFile → SlotStore → List SlotEntry
  others_of calls f s = (read_blocks crc32c calls.full f.bytes f.size s).1

  -- A commit is refused, has nothing to write, or adds a block.
  abbrev pub Comes :
      CommitCalls → List SlotRecord → List SlotEntry → SlotFile → SlotStore → Committed → Type 0
  Comes calls recs others f s c =
      ((c.file ≡ f) × (c.committed ≡ []))
      ⊎ (c ≡ append_block crc32c crc32c_from calls (untaken (calls.taken others) recs) others f s)

  commit_write-Comes :
      (calls : CommitCalls) (recs : List SlotRecord) (others : List SlotEntry) (f : SlotFile)
      (s : SlotStore)
      → Comes calls recs others f s (commit_write crc32c crc32c_from calls recs others f s)
  unfolding commit_write
  commit_write-Comes calls recs others f s =
      if_cases (Comes calls recs others f s) (length (untaken (calls.taken others) recs) == 0) _ _
        (inl (refl, refl)) (inr refl)

  commit_locked-Comes :
      (rc : Option ℕ) (calls : CommitCalls) (recs : List SlotRecord) (f : SlotFile) (s : SlotStore)
      → Comes calls recs
          (others_of calls f s)
          f
          (caught_up calls f s)
          (commit_locked crc32c crc32c_from rc calls recs f s)
  unfolding commit_locked refused
  commit_locked-Comes (some code) calls recs f s = inl (refl, refl)
  commit_locked-Comes none calls recs f s =
      let others = others_of calls f s in
      if_cases (Comes calls recs others f (caught_up calls f s)) (not calls.still_named) _ _
        (inl (refl, refl)) (commit_write-Comes calls recs others f (caught_up calls f s))

  pub commit-Comes :
      (calls : CommitCalls) (recs : List SlotRecord) (f : SlotFile) (s : SlotStore)
      → Comes calls recs
          (others_of calls f s)
          f
          (caught_up calls f s)
          (commit crc32c crc32c_from calls recs f s)
  unfolding commit refused
  commit-Comes calls recs f s =
      if_cases (Comes calls recs (others_of calls f s) f (caught_up calls f s)) s.declined _ _
        (inl (refl, refl)) (commit_locked-Comes calls.lock_error calls recs f s)

  -- A commit only adds to the file.
  commit-Extends :
      (calls : CommitCalls) (recs : List SlotRecord) (f : SlotFile) (s : SlotStore)
      → reach_of f (caught_up calls f s) + k_align < 2 ^ 64
      → Extends f (commit crc32c crc32c_from calls recs f s).file
  unfolding append_block
  commit-Extends calls recs f s small = elim (commit-Comes calls recs f s) [
    | inl (same, _) ↦ rw same (Extends-refl f)
    | inr added ↦
        let s' = caught_up calls f s in
        let write = untaken (calls.taken (others_of calls f s)) recs in
        let base = base_of f s' in
        let (past, _, _) = base_of-reach_of f s' small in
        let landed = take calls.landed (block_of crc32c crc32c_from s'.store_id base write) in
        let there =
          ap (λ (c : Committed). c.file) added ∙ settled-file (write_at f base landed) s' _ _ _ _ in
        rw there (write_at-Extends f base landed (unfold reach_of in omega arith))
  ]

  -- Whatever a commit comes to, a cut-short or failed write included, a record that lay in the file
  -- before it reads as it did, if the file and what it claims stay below 2 ^ 64.
  pub read_record-commit :
      (calls : CommitCalls) (full : ℕ → ℕ → Bool) (recs : List SlotRecord) (f : SlotFile)
      (s : SlotStore) (e : SlotEntry)
      → reach_of f (caught_up calls f s) + k_align < 2 ^ 64
      → e.off + e.len ≤ f.size
      → read_record crc32c crc32c_from full (commit crc32c crc32c_from calls recs f s).file s e
        ≡ read_record crc32c crc32c_from full f s e
  unfolding read_record
  read_record-commit calls full recs f s e small inside =
      let more = commit-Extends calls recs f s small in
      let g = (commit crc32c crc32c_from calls recs f s).file in
      let size = more.size in
      let same : slice g.bytes e.off e.len ≡ slice f.bytes e.off e.len =
        slice_ext g.bytes f.bytes e.off e.len (λ x lo hi. more.bytes x (omega arith)) in
      let after : leb (e.off + e.len) g.size ≡ true = ground arith in
      let before : leb (e.off + e.len) f.size ≡ true = ground arith in rw (same, after, before) refl
