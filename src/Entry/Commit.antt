-- ===== src/Entry/Commit.antt =====
-- src/core/FileEntry.cc: `flushMeta`, which commits to the sidecar what this handle changed. Also in
-- three parts: the snapshot under the mutex, the commit under the file's lock, the adoption under the
-- mutex again. `MetaFile::store` is atomic: it replaces the sidecar or leaves it.
pub mod Merge
pub mod Adopt
pub mod Rearm
pub mod Stored
mod Tests
use Prim.Native.Nat.{bit_and}
use xrd_ucache.Base.{
  ℕ, zero, suc, ◌+◌, ◌-◌, ◌^◌, Bool, true, false, ◌&&◌, ◌||◌, not, List, [], ◌∷◌, Option, none,
  some, if◌then◌else◌, ltb, leb, ◌==◌, length, get_or, max, ◌≡◌, ◌⊎◌, arith,
}
use xrd_ucache.Base.{set as write}
use xrd_ucache.Bitmap
use xrd_ucache.Bitmap.{PageBitmap}
use xrd_ucache.Sidecar.{MetaData, npages}
use xrd_ucache.Entry.{Entry, Config, ValidateMode, no_check, by_size, by_size_mtime, by_cksum}

pub same_key : List ℕ → List ℕ → Bool
same_key [] [] = true
same_key (x ∷ xs) (y ∷ ys) = x == y && same_key xs ys
same_key _ _ = false

-- `Config::validPageSize`.
pub valid_page_size : ℕ → Bool
valid_page_size p = leb 4096 p && leb p (2 ^ 20) && bit_and p (p - 1) == 0

-- What identifies the file at the origin.
pub record Origin : Type 0 where
  pub key : List ℕ
  pub size : ℕ
  pub mtime : ℕ
  pub cksum_kind : ℕ
  pub cksum : ℕ

-- `adoptable`: is this the sidecar of this file?
pub adoptable : ValidateMode → Origin → MetaData → Bool
unfolding same_key valid_page_size
adoptable validate o m =
    same_key m.key o.key
    && m.file_size == o.size
    && valid_page_size m.page_size
    && npages m == length m.page_crcs
    && elim validate [
      | by_size_mtime ↦ m.origin_mtime == o.mtime
      | by_cksum ↦ o.cksum_kind == 0 || (m.cksum_kind == o.cksum_kind && m.origin_cksum == o.cksum)
      | _ ↦ true
    ]

-- The locals that the first part hands on.
pub record Snapshot : Type 0 where
  pub image : MetaData
  pub sets : PageBitmap
  pub clears : PageBitmap
  pub pin_touched : Bool

pub snapshot_of : Entry → Snapshot
snapshot_of e = record {
  image = e.meta;
  sets = e.set_since;
  clears = e.cleared_since;
  pin_touched = e.pin_touched;
}

-- The entry with its changes handed on.
pub handed_on : ℕ → Entry → Entry
handed_on now e = record e {
  set_since = Bitmap.clear_all e.set_since;
  cleared_since = Bitmap.clear_all e.cleared_since;
  pin_touched = false;
  dirty = false;
  last_flush = now;
}

-- The first part; none when nothing is to be stored now.
pub commit_begin : Config → ℕ → Bool → Entry → Option (Entry × Snapshot)
unfolding snapshot_of handed_on
commit_begin cfg now force e =
    if not e.dirty || (not force && ltb now (e.last_flush + cfg.meta_flush_seconds))
    then none
    else some (handed_on now e, snapshot_of e)

-- One page of the image on disk with this handle's change.
merge_page : Snapshot → ℕ → MetaData → MetaData
merge_page s i out =
    if Bitmap.get s.clears i
    then record out { bitmap = Bitmap.clear out.bitmap i; page_crcs = write out.page_crcs i 0 }
    else if Bitmap.get s.sets i
    then record out {
      bitmap = Bitmap.set out.bitmap i;
      page_crcs = write out.page_crcs i (get_or s.image.page_crcs i 0);
    }
    else out

-- The loop at page i, with `rounds` pages left.
pub merge_pages : Snapshot → ℕ → ℕ → MetaData → MetaData
unfolding merge_page
merge_pages s zero i out = out
merge_pages s (suc rounds) i out = merge_pages s rounds (i + 1) (merge_page s i out)

-- kFlagComplete from the count.
pub with_complete : MetaData → MetaData
with_complete m = let n = npages m in record m { complete = not (n == 0) && m.bitmap.count == n }

-- The image on disk with the changes of the snapshot.
pub merged_image : Snapshot → MetaData → MetaData
unfolding merge_pages with_complete
merged_image s disk =
    let out = merge_pages s (npages disk) 0 disk in
    let out' = with_complete out in
    record out' {
      pinned = if s.pin_touched then s.image.pinned else out.pinned;
      atime = max out.atime s.image.atime;
    }

-- The identity that a snapshot asks of the image on disk.
pub origin_of : List ℕ → MetaData → Origin
origin_of key m = record {
  key = key;
  size = m.file_size;
  mtime = m.origin_mtime;
  cksum_kind = m.cksum_kind;
  cksum = m.origin_cksum;
}

-- Does the commit start from the image on disk?
pub merges : Config → List ℕ → Snapshot → MetaData → Bool
unfolding adoptable origin_of
merges cfg key s disk =
    disk.page_size == s.image.page_size && adoptable cfg.validate (origin_of key s.image) disk

-- What the commit stores, and whether it was merged.
pub commit_image : Config → List ℕ → Snapshot → Option MetaData → MetaData × Bool
unfolding merges merged_image
commit_image cfg key s none = (s.image, false)
commit_image cfg key s (some disk) =
    if merges cfg key s disk then (merged_image s disk, true) else (s.image, false)

-- After a failed store the changes are pending again, but for a newer opposite one.
rearm_page : Snapshot → ℕ → Entry → Entry
rearm_page s i e =
    let sets' =
      if Bitmap.get s.sets i && not (Bitmap.get e.cleared_since i)
      then Bitmap.set e.set_since i
      else e.set_since in
    let clears' =
      if Bitmap.get s.clears i && not (Bitmap.get sets' i)
      then Bitmap.set e.cleared_since i
      else e.cleared_since in
    record e { set_since = sets'; cleared_since = clears' }

pub rearm_pages : Snapshot → ℕ → ℕ → Entry → Entry
unfolding rearm_page
rearm_pages s zero i e = e
rearm_pages s (suc rounds) i e = rearm_pages s rounds (i + 1) (rearm_page s i e)

-- A page that this handle has not changed since the snapshot takes the committed state.
adopt_page : MetaData → ℕ → Entry → Entry
adopt_page out i e =
    if Bitmap.get e.set_since i || Bitmap.get e.cleared_since i
    then e
    else if Bitmap.get out.bitmap i
    then record e {
      meta = record meta {
        bitmap = Bitmap.set meta.bitmap i;
        page_crcs = write meta.page_crcs i (get_or out.page_crcs i 0);
      };
    }
    else record e {
      meta = record meta {
        bitmap = Bitmap.clear meta.bitmap i;
        page_crcs = write meta.page_crcs i 0;
      };
    }
  where
    open e use {meta}

pub adopt_pages : MetaData → ℕ → ℕ → Entry → Entry
unfolding adopt_page
adopt_pages out zero i e = e
adopt_pages out (suc rounds) i e = adopt_pages out rounds (i + 1) (adopt_page out i e)

-- The last part after a successful merged store.
pub adopt_image : MetaData → Entry → Entry
unfolding adopt_pages with_complete
adopt_image out e =
    let e' = adopt_pages out (npages e.meta) 0 e in
    let meta = with_complete e'.meta in
    record e' {
      meta = record meta {
        pinned = if e'.pin_touched then meta.pinned else out.pinned;
        atime = max meta.atime out.atime;
      };
    }

-- Does the data file still have a name, and does the store succeed?
pub record SidecarWrite : Type 0 where
  pub unlinked : Bool
  pub stored : Bool

-- The commit and the last part, for the entry as it is then.
pub commit_end : Config → List ℕ → SidecarWrite → Snapshot → Entry → Entry
unfolding commit_image rearm_pages adopt_image
commit_end cfg key io s e =
    let image = commit_image cfg key s e.sidecar in
    let failed = record (rearm_pages s (npages e.meta) 0 e) {
      dirty = true;
      pin_touched = e.pin_touched || s.pin_touched;
    } in
    let stored = record e { sidecar = some image.0 } in
    if io.unlinked
    then e
    else if not io.stored
    then failed
    else if image.1
    then adopt_image image.0 stored
    else stored

-- `flushMeta`, run without another thread in between.
pub flush_meta : Config → List ℕ → SidecarWrite → ℕ → Bool → Entry → Entry
unfolding commit_begin commit_end
flush_meta cfg key io now force e = elim (commit_begin cfg now force e) [
  | none ↦ e
  | some (begun, s) ↦ commit_end cfg key io s begun
]

-- Either nothing is stored now, or the entry had a change to store.
pub commit_begin_cases :
    (cfg : Config) (now : ℕ) (force : Bool) (e : Entry)
    → (commit_begin cfg now force e ≡ none)
      ⊎ ((commit_begin cfg now force e ≡ some (handed_on now e, snapshot_of e)) × (e.dirty ≡ true))
unfolding commit_begin
commit_begin_cases cfg now force e = ground arith
