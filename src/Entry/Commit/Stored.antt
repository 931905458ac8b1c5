-- ===== src/Entry/Commit/Stored.antt =====
-- src/core/FileEntry.cc: `flushMeta` when its store succeeds.
use xrd_ucache.Base.{
  ℕ, zero, suc, ◌+◌, ◌<◌, ◌≡◌, refl, ◌∙◌, Bool, true, false, List, some, if◌then◌else◌, get_or,
  arith,
}
use xrd_ucache.Bitmap
use xrd_ucache.Bitmap.Laws.{get-clear_all}
use xrd_ucache.Sidecar.{MetaData, npages, IsSized}
use xrd_ucache.Entry.{Entry, Config}
use xrd_ucache.Entry.Commit.{
  Snapshot, SidecarWrite, snapshot_of, handed_on, commit_begin, commit_end, commit_image, merges,
  merged_image, adopt_image, adopt_page, adopt_pages, flush_meta, adoptable, origin_of,
}
use xrd_ucache.Entry.Commit.Merge.{merged_bit, merged_crc, merged_image-pages}
use xrd_ucache.Entry.Commit.Adopt.{adopt_image-pages}

-- An image that the commit starts from has this handle's geometry.
merges-npages :
    (cfg : Config) (key : List ℕ) (s : Snapshot) (disk : MetaData)
    → merges cfg key s disk ≡ true
    → npages disk ≡ npages s.image
unfolding merges npages adoptable origin_of
merges-npages cfg key s disk h = ground arith

sidecar-adopt_pages :
    (out : MetaData) (rounds i : ℕ) (e : Entry) → (adopt_pages out rounds i e).sidecar ≡ e.sidecar
unfolding adopt_pages adopt_page
sidecar-adopt_pages out zero i e = refl
sidecar-adopt_pages out (suc rounds) i e =
    sidecar-adopt_pages out rounds (i + 1) (adopt_page out i e) ∙ sidecar-adopt_page
  where
    sidecar-adopt_page : (adopt_page out i e).sidecar ≡ e.sidecar
    sidecar-adopt_page = ground arith

sidecar-adopt_image : (out : MetaData) (e : Entry) → (adopt_image out e).sidecar ≡ e.sidecar
unfolding adopt_image
sidecar-adopt_image out e = sidecar-adopt_pages out (npages e.meta) 0 e

-- The commit of a snapshot on the image on disk, when the store succeeds.
commit_end-stored :
    (cfg : Config) (key : List ℕ) (io : SidecarWrite) (s : Snapshot) (e : Entry) (disk : MetaData)
    → e.sidecar ≡ some disk
    → merges cfg key s disk ≡ true
    → io.unlinked ≡ false
    → io.stored ≡ true
    → commit_end cfg key io s e
      ≡ adopt_image (merged_image s disk) (record e { sidecar = some (merged_image s disk) })
unfolding commit_end commit_image
commit_end-stored cfg key io s e disk on_disk same there good = rw (on_disk, same, there, good) refl

commit_begin_forced :
    (cfg : Config) (now : ℕ) (e : Entry)
    → e.dirty ≡ true
    → commit_begin cfg now true e ≡ some (handed_on now e, snapshot_of e)
unfolding commit_begin
commit_begin_forced cfg now e changed = ground arith

-- What is handed on is no longer pending.
adopted_handed_on :
    (out : MetaData) (now : ℕ) (e : Entry) (j : ℕ)
    → IsSized e.meta
    → j < npages e.meta
    → (Bitmap.get (adopt_image out (record (handed_on now e) { sidecar = some out })).meta.bitmap j
        ≡ Bitmap.get out.bitmap j)
      × (get_or
            (adopt_image out (record (handed_on now e) { sidecar = some out })).meta.page_crcs
            j
            0
          ≡ (if Bitmap.get out.bitmap j then get_or out.page_crcs j 0 else 0))
unfolding handed_on
adopted_handed_on out now e j v h = ground (
  arith,
  adopt_image-pages out (record (handed_on now e) { sidecar = some out }) j v h,
  get-clear_all e.set_since j,
  get-clear_all e.cleared_since j,
)

-- After a commit that started from the image on disk and was stored, the handle's own view of every
-- page is what the sidecar now says. A page is absent if this handle cleared it, present with this
-- handle's checksum if it set it, and else as another process left it on disk: present with the
-- checksum on disk, or absent with none.
pub flush_meta_agrees :
    (cfg : Config) (key : List ℕ) (io : SidecarWrite) (now : ℕ) (e : Entry) (disk : MetaData)
    → IsSized e.meta
    → IsSized disk
    → e.dirty ≡ true
    → e.sidecar ≡ some disk
    → merges cfg key (snapshot_of e) disk ≡ true
    → io.unlinked ≡ false
    → io.stored ≡ true
    → (j : ℕ) → j < npages e.meta
    → let e' = flush_meta cfg key io now true e in
      (e'.sidecar ≡ some (merged_image (snapshot_of e) disk))
      × (Bitmap.get e'.meta.bitmap j ≡ merged_bit (snapshot_of e) disk j)
      × (get_or e'.meta.page_crcs j 0
          ≡ (if merged_bit (snapshot_of e) disk j then merged_crc (snapshot_of e) disk j else 0))
      × (Bitmap.get (merged_image (snapshot_of e) disk).bitmap j
          ≡ merged_bit (snapshot_of e) disk j)
      × (get_or (merged_image (snapshot_of e) disk).page_crcs j 0
          ≡ merged_crc (snapshot_of e) disk j)
unfolding flush_meta
flush_meta_agrees cfg key io now e disk v w changed on_disk same there good j h =
    let out = merged_image (snapshot_of e) disk in
    let m = merged_image-pages (snapshot_of e) disk w j here in
    let a = adopted_handed_on out now e j v h in
    rw
      (
        commit_begin_forced cfg now e changed,
        flush_meta,
        commit_end-stored cfg key io (snapshot_of e) (handed_on now e) disk
            (unfold handed_on in on_disk) same there good,
      )
      (
        sidecar-adopt_image out (record (handed_on now e) { sidecar = some out }),
        a.0 ∙ m.1,
        a.1 ∙ kept _ _ _ _ m.1 m.2,
        m.1,
        m.2,
      )
  where
    here : j < npages disk
    here = omega (arith, merges-npages cfg key (snapshot_of e) disk same)

    kept : (b c : Bool) (x y : ℕ) → b ≡ c → x ≡ y → (if b then x else 0) ≡ (if c then y else 0)
    kept b c x y same_bit same_crc = rw (same_bit, same_crc) refl
