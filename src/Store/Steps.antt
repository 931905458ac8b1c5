-- ===== src/Store/Steps.antt =====
-- src/core/CacheStore.cc: the store's operations in any order, and the files of an entry that is open
-- all along. What the entry itself writes to its files is not a step here.
pub mod Evict
pub mod Admit
pub mod Clean
pub mod Safe
use xrd_ucache.Base.{
  ℕ, zero, suc, ◌≡◌, refl, ◌⊎◌, inl, inr, arith, Bool, true, false, not, ◌&&◌, ◌||◌, List, [], ◌∷◌,
  if◌then◌else◌, Bool-cases, All, All-intro, sym, ap, ◌∙◌, ◌==◌, ltb, add64,
}
use mathlib.Core.Logic.{◌≢◌}
use xrd_ucache.Store.{
  Suffix, dot_data, dot_meta, dot_tdata, dot_tmeta, dot_tok, dot_val, dot_slots, File, Settings,
  Outside, Store, Registered, listed, unlink, pruned, is_live, erase,
}
use xrd_ucache.Store.Scan.{MetaScan, scan_objects, scan_bytes, usage_bytes}
use xrd_ucache.Store.Evict.{
  evict_now, evict_locked, unlink_entry, sweep_orphans, sweep_rest, sort_by_atime,
}
use xrd_ucache.Store.Evict.Sort.{All-sort_by_atime}
use xrd_ucache.Store.Evict.Keeps.{
  entry_files, evict_now-keeps, Shielded, listed-entry_files, sweep_rest-entry_files,
  unlink-entry_files, unlink_entry-entry_files,
}
use xrd_ucache.Store.Open.{
  maybe_evict, note_persisted, admit, admit_new, register, invalidate, remove_entry, decline,
  count_key, seen, rate_limited, over_budget, low_disk, eviction_off,
}
use xrd_ucache.Store.Cleanup.{
  CleanupMode, clean_all, older_than, newer_than, to_size, cleanup, remove_victim, remove_victims,
  reconciled, victims_of, to_size_victims, aged_victims, protected_entry, spared_by_age,
}

-- An operation of the store; `invalidate` and `remove_entry` are for another key.
pub data Step (cfg : Settings) (h : ℕ) : Store → Store → Type 0 where
  persist :
      (env : Outside) (n : ℕ) (b : Bool) (s : Store) → Step cfg h s (note_persisted cfg env n b s)
  ask : (env : Outside) (g : ℕ) (s : Store) → Step cfg h s (admit cfg env g s).1
  enter : (env : Outside) (g : ℕ) (s : Store) → Step cfg h s (register cfg env g s)
  evict : (env : Outside) (s : Store) → Step cfg h s (evict_now cfg env s).1
  clean :
      (mode : CleanupMode) (arg : ℕ) (keep_pinned dry_run : Bool) (env : Outside) (s : Store)
      → Step cfg h s (cleanup mode arg keep_pinned dry_run env s).1
  drop_other : (env : Outside) (g : ℕ) (s : Store) → g ≢ h → Step cfg h s (invalidate env g s)
  remove_other : (env : Outside) (g : ℕ) (s : Store) → g ≢ h → Step cfg h s (remove_entry env g s).1

pub data Steps (cfg : Settings) (h : ℕ) (s : Store) : Store → Type 0 where
  here : Steps cfg h s s
  next : {t u : Store} → Steps cfg h s t → Step cfg h t u → Steps cfg h s u

-- The entry is open in this process, and its sidecar is on disk.
pub record IsOpen (h : ℕ) (s : Store) : Type 0 where
  pub live : is_live h s.registry ≡ true
  pub sidecar : listed h dot_meta s.files ≡ true

-- It stays open, and its files stay as they are.
pub record Keeps (h : ℕ) (s t : Store) : Type 0 where
  pub live : is_live h t.registry ≡ true
  pub files : entry_files h t.files ≡ entry_files h s.files

pub Keeps-IsOpen : (h : ℕ) (s t : Store) → IsOpen h s → Keeps h s t → IsOpen h t
Keeps-IsOpen h s t o k = record {
  live = k.live;
  sidecar =
      sym (listed-entry_files h t.files)
      ∙ ap (listed h dot_meta) k.files
      ∙ listed-entry_files h s.files
      ∙ o.sidecar;
}

pub Keeps-trans : (h : ℕ) (s t u : Store) → Keeps h s t → Keeps h t u → Keeps h s u
Keeps-trans h s t u a b = record { live = b.live; files = b.files ∙ a.files }

pub is_live-pruned : (h : ℕ) (l : List Registered) → is_live h (pruned l) ≡ is_live h l
unfolding is_live pruned
is_live-pruned h [] = refl
is_live-pruned h (r ∷ l) = ground (arith, is_live-pruned h l)

pub is_live-erase : (h g : ℕ) (l : List Registered) → g ≢ h → is_live h (erase g l) ≡ is_live h l
unfolding is_live erase
is_live-erase h g [] n = refl
is_live-erase h g (r ∷ l) n = ground (arith, is_live-erase h g l n)

pub is_live-cons :
    (h : ℕ) (r : Registered) (l : List Registered) → is_live h l ≡ true → is_live h (r ∷ l) ≡ true
unfolding is_live
is_live-cons h r l e = ground arith

pub Keeps-if :
    {h : ℕ} {s t u : Store} (b : Bool) → Keeps h s t → Keeps h s u → Keeps h s (if b then t else u)
Keeps-if true a c = a
Keeps-if false a c = c
