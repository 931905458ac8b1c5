-- ===== src/Entry/Commit/Rearm.antt =====
-- src/core/FileEntry.cc: the changes that `flushMeta` holds again after a failed store.
use xrd_ucache.Base.{
  ℕ, zero, suc, ◌+◌, ◌≤◌, ◌<◌, ◌≡◌, refl, sym, ap, ◌∙◌, Bool, true, false, ◌&&◌, ◌||◌, not, List,
  if◌then◌else◌, ltb, leb, ◌==◌, arith, inl, inr, Bool-cases, ==_iff,
}
use xrd_ucache.Bitmap
use xrd_ucache.Bitmap.{PageBitmap}
use xrd_ucache.Bitmap.Laws.{get-set, get-clear_all}
use xrd_ucache.Bitmap.Counts.{set-IsValid, npages-set, clear_all-IsValid, npages-clear_all}
use xrd_ucache.Sidecar.{npages}
use xrd_ucache.Entry.{Entry, Config}
use xrd_ucache.Entry.Commit.{
  Snapshot, SidecarWrite, rearm_page, rearm_pages, commit_end, flush_meta, commit_begin_cases,
  snapshot_of, handed_on,
}

-- The two change bitmaps are valid, with a bit for each page.
pub record HasChanges (e : Entry) : Type 0 where
  pub set_valid : Bitmap.IsValid e.set_since
  pub set_bits : e.set_since.npages ≡ npages e.meta
  pub cleared_valid : Bitmap.IsValid e.cleared_since
  pub cleared_bits : e.cleared_since.npages ≡ npages e.meta

abbrev pub rearmed_set : Snapshot → Entry → ℕ → Bool
rearmed_set s e j =
    Bitmap.get e.set_since j || (Bitmap.get s.sets j && not (Bitmap.get e.cleared_since j))

abbrev pub rearmed_clear : Snapshot → Entry → ℕ → Bool
rearmed_clear s e j =
    Bitmap.get e.cleared_since j || (Bitmap.get s.clears j && not (rearmed_set s e j))

if-IsValid :
    (b : Bool) (m n : PageBitmap)
    → Bitmap.IsValid m
    → Bitmap.IsValid n
    → Bitmap.IsValid (if b then m else n)
if-IsValid true m n v w = v
if-IsValid false m n v w = w

module _ (s : Snapshot) where
  meta-rearm_page : (i : ℕ) (e : Entry) → (rearm_page s i e).meta ≡ e.meta
  unfolding rearm_page
  meta-rearm_page i e = refl

  get-rearm_page_set :
      (i j : ℕ) (e : Entry)
      → HasChanges e
      → i < npages e.meta
      → Bitmap.get (rearm_page s i e).set_since j
        ≡ (if i == j then rearmed_set s e j else Bitmap.get e.set_since j)
  unfolding rearm_page
  get-rearm_page_set i j e v h = elim (Bool-cases (i == j)) [
    | inl c ↦
        rw (c, ← (==_iff i j).0 c) (ground (arith, get-set e.set_since i i v.set_valid, v.set_bits))
    | inr c ↦ rw c (ground (arith, c, get-set e.set_since i j v.set_valid, v.set_bits))
  ]

  get-rearm_page_clear :
      (i j : ℕ) (e : Entry)
      → HasChanges e
      → i < npages e.meta
      → Bitmap.get (rearm_page s i e).cleared_since j
        ≡ (if i == j then rearmed_clear s e j else Bitmap.get e.cleared_since j)
  unfolding rearm_page
  get-rearm_page_clear i j e v h = elim (Bool-cases (i == j)) [
    | inl c ↦
        rw (c, ← (==_iff i j).0 c)
          (ground (
            arith,
            get-set e.set_since i i v.set_valid,
            v.set_bits,
            get-set e.cleared_since i i v.cleared_valid,
            v.cleared_bits,
          ))
    | inr c ↦ rw c (ground (arith, c, get-set e.cleared_since i j v.cleared_valid, v.cleared_bits))
  ]

  rearm_page-HasChanges :
      (i : ℕ) (e : Entry) → HasChanges e → i < npages e.meta → HasChanges (rearm_page s i e)
  unfolding rearm_page
  rearm_page-HasChanges i e v h =
      let set_ok = set-IsValid e.set_since i v.set_valid (omega (arith, v.set_bits)) in
      let clear_ok =
        set-IsValid e.cleared_since i v.cleared_valid (omega (arith, v.cleared_bits)) in
      record {
        set_valid =
            if-IsValid (Bitmap.get s.sets i && not (Bitmap.get e.cleared_since i)) _ _ set_ok
              v.set_valid;
        set_bits = ground (arith, npages-set e.set_since i, v.set_bits);
        cleared_valid = if-IsValid _ _ _ clear_ok v.cleared_valid;
        cleared_bits = ground (arith, npages-set e.cleared_since i, v.cleared_bits);
      }

  rearm_pages-HasChanges :
      (rounds i : ℕ) (e : Entry)
      → HasChanges e
      → i + rounds ≤ npages e.meta
      → HasChanges (rearm_pages s rounds i e)
  unfolding rearm_pages
  rearm_pages-HasChanges zero i e v h = v
  rearm_pages-HasChanges (suc rounds) i e v h =
      rearm_pages-HasChanges rounds (i + 1) (rearm_page s i e)
        (rearm_page-HasChanges i e v (omega arith)) (omega (arith, ap npages (meta-rearm_page i e)))

  get-rearm_pages :
      (rounds i j : ℕ) (e : Entry)
      → HasChanges e
      → i + rounds ≤ npages e.meta
      → (Bitmap.get (rearm_pages s rounds i e).set_since j
          ≡ (if leb i j && ltb j (i + rounds) then rearmed_set s e j else Bitmap.get e.set_since j))
        × (Bitmap.get (rearm_pages s rounds i e).cleared_since j ≡ (
            if leb i j && ltb j (i + rounds)
            then rearmed_clear s e j
            else Bitmap.get e.cleared_since j))
  unfolding rearm_pages
  get-rearm_pages zero i j e v h = ground arith
  get-rearm_pages (suc rounds) i j e v h = ground (
    arith,
    get-rearm_pages rounds (i + 1) j (rearm_page s i e) (rearm_page-HasChanges i e v (omega arith))
        (omega (arith, ap npages (meta-rearm_page i e))),
    get-rearm_page_set i j e v (omega arith),
    get-rearm_page_clear i j e v (omega arith),
  )

  meta-rearm_pages : (rounds i : ℕ) (e : Entry) → (rearm_pages s rounds i e).meta ≡ e.meta
  unfolding rearm_pages
  meta-rearm_pages zero i e = refl
  meta-rearm_pages (suc rounds) i e =
      meta-rearm_pages rounds (i + 1) (rearm_page s i e) ∙ meta-rearm_page i e

  rest-rearm_pages :
      (rounds i : ℕ) (e : Entry)
      → ((rearm_pages s rounds i e).sidecar ≡ e.sidecar)
        × ((rearm_pages s rounds i e).pin_touched ≡ e.pin_touched)
  unfolding rearm_pages rearm_page
  rest-rearm_pages zero i e = (refl, refl)
  rest-rearm_pages (suc rounds) i e = rest-rearm_pages rounds (i + 1) (rearm_page s i e)

-- No page is pending as set and as cleared.
abbrev pub AreDisjoint : Entry → Type 0
AreDisjoint e = (j : ℕ) → (Bitmap.get e.set_since j && Bitmap.get e.cleared_since j) ≡ false

-- What the handle has pending is the same before and after, for page j.
pub record SamePending (e e' : Entry) (j : ℕ) : Type 0 where
  pub dirty : e'.dirty ≡ e.dirty
  pub pin : e'.pin_touched ≡ e.pin_touched
  pub view : e'.meta ≡ e.meta
  pub stored : e'.sidecar ≡ e.sidecar
  pub set : Bitmap.get e'.set_since j ≡ Bitmap.get e.set_since j
  pub cleared : Bitmap.get e'.cleared_since j ≡ Bitmap.get e.cleared_since j

module _ (now : ℕ) (e : Entry) (v : HasChanges e) (apart : AreDisjoint e) where
  given : Entry
  unfolding handed_on
  given = handed_on now e

  given-HasChanges : HasChanges given
  unfolding given
  given-HasChanges = record {
    set_valid = clear_all-IsValid e.set_since v.set_valid;
    set_bits = npages-clear_all e.set_since ∙ v.set_bits;
    cleared_valid = clear_all-IsValid e.cleared_since v.cleared_valid;
    cleared_bits = npages-clear_all e.cleared_since ∙ v.cleared_bits;
  }

  -- Arming again what was handed on gives the changes back.
  rearm_handed_on :
      (j : ℕ)
      → j < npages e.meta
      → (Bitmap.get (rearm_pages (snapshot_of e) (npages e.meta) 0 given).set_since j
          ≡ Bitmap.get e.set_since j)
        × (Bitmap.get (rearm_pages (snapshot_of e) (npages e.meta) 0 given).cleared_since j
            ≡ Bitmap.get e.cleared_since j)
  unfolding given snapshot_of
  rearm_handed_on j h = ground (
    arith,
    get-rearm_pages (snapshot_of e) (npages e.meta) 0 j given given-HasChanges (omega arith),
    get-clear_all e.set_since j,
    get-clear_all e.cleared_since j,
    apart j,
  )

-- A commit whose store fails loses no change: the sidecar and the handle's view are as before, and
-- every change that was pending is pending again, the pin and the dirty flag included.
pub flush_meta_failed :
    (cfg : Config) (key : List ℕ) (io : SidecarWrite) (now : ℕ) (force : Bool) (e : Entry)
    → HasChanges e
    → AreDisjoint e
    → io.unlinked ≡ false
    → io.stored ≡ false
    → (j : ℕ) → j < npages e.meta
    → SamePending e (flush_meta cfg key io now force e) j
unfolding flush_meta commit_end given
flush_meta_failed cfg key io now force e v apart there bad j h =
    elim (commit_begin_cases cfg now force e) [
      | inl skip ↦
          rw (skip, flush_meta)
            (record {
              dirty = refl;
              pin = refl;
              view = refl;
              stored = refl;
              set = refl;
              cleared = refl;
            })
      | inr (go, was_dirty) ↦
          rw (go, flush_meta, there, bad)
            (record {
              dirty = sym was_dirty;
              pin = unfold handed_on snapshot_of in refl;
              view = meta-rearm_pages (snapshot_of e) (npages e.meta) 0 (handed_on now e);
              stored = unfold handed_on in (rest-rearm_pages (snapshot_of e) (npages e.meta) 0 _).0;
              set = (rearm_handed_on now e v apart j h).0;
              cleared = (rearm_handed_on now e v apart j h).1;
            })
    ]
