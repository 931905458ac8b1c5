-- ===== src/Store/Tests.antt =====
-- Two entries on a disk, the first one open, and the store's operations on them.
use xrd_ucache.Base.{
  ℕ, ◌<◌, ◌≤◌, ◌-◌, ◌^◌, add64, ◌≡◌, refl, arith, true, false, [], ◌∷◌, none, some, inl, inr,
  All-intro,
}
use xrd_ucache.Sidecar.{fresh}
use xrd_ucache.Bitmap
use xrd_ucache.Store.{
  File, dot_data, dot_meta, dot_tdata, Settings, Outside, Store, listed, is_live, pruned,
}
use xrd_ucache.Store.Scan.{scan_objects, scan_bytes}
use xrd_ucache.Store.Evict.{
  evict_now, evict_pass, evict_locked, limits_of, sort_by_atime, first_pass, need_evict,
}
use xrd_ucache.Store.Evict.Loop.{treat_all}
use xrd_ucache.Store.Evict.Sort.{exact_bytes}
use xrd_ucache.Store.Open.Blocked.{any_recent, evict_locked-blocked}
use xrd_ucache.Store.Cleanup.{to_size, victims_of}
use xrd_ucache.Store.Cleanup.Chosen.{IsOldestEnough, victims_of-IsEnough}
use xrd_ucache.Store.Budget.{effective_min_free}
use xrd_ucache.Store.Evict.Keeps.{entry_files, evict_now-keeps}
use xrd_ucache.Store.Evict.Lru.{IsLru, evict_pass-IsLru, evict_pass-accounts}
use xrd_ucache.Store.Open.{note_persisted, admit, declined, admitted}
use xrd_ucache.Store.Steps.{persist, evict, Steps, here, next, IsOpen, Keeps}
use xrd_ucache.Store.Steps.Safe.{Steps-Keeps}

abbrev file : ℕ → ℕ → File
file h n = record { hash = h; suffix = dot_data; bytes = n; mtime = 0 }

abbrev sidecar : ℕ → File
sidecar h = record { hash = h; suffix = dot_meta; bytes = 64; mtime = 0 }

abbrev overlay : ℕ → File
overlay h = record { hash = h; suffix = dot_tdata; bytes = 30; mtime = 0 }

abbrev settings : Settings
settings = record {
  max_bytes = 100;
  low_bytes = 10;
  high_bytes = 20;
  min_free_bytes = 0;
  budget_auto = false;
  evict_check_seconds = 10;
  evict_protect_seconds = 0;
}

abbrev outside : Outside
outside = record {
  now = 9000;
  space = some (500, 1000);
  locks = true;
  unlinks = λ h s. true;
  summary = λ h. some (fresh h (h ∷ []) 4 4);
  loaded = λ h. none;
  holds_records = λ h. false;
}

abbrev store : Store
store = record {
  registry = record { hash = 1; alive = true } ∷ record { hash = 3; alive = false } ∷ [];
  files = file 1 4 ∷ sidecar 1 ∷ overlay 1 ∷ file 2 4 ∷ sidecar 2 ∷ overlay 2 ∷ overlay 5 ∷ [];
  approx_usage = 30;
  last_evicted = 1;
  last_check = 0;
  admission_blocked = false;
  blocked_warned = false;
  admissions_bypassed = 0;
  evicted_entries = 0;
  evicted_bytes = 0;
  orphans_swept = 0;
  dumps_stats = true;
  seen_keys = [];
  files_opened = 0;
}

-- The second entry and the orphan go, the open entry stays.
evicts_two : (evict_now settings outside store).1.files ≡ file 1 4 ∷ sidecar 1 ∷ overlay 1 ∷ []
unfolding evict_now fresh Bitmap.reset is_live
evicts_two = refl

live_one : is_live 1 (pruned store.registry) ≡ true
unfolding is_live pruned
live_one = refl

listed_one : listed 1 dot_meta store.files ≡ true
unfolding listed
listed_one = refl

evict_now-keeps_example :
    entry_files 1 (evict_now settings outside store).1.files ≡ entry_files 1 store.files
evict_now-keeps_example =
    evict_now-keeps settings outside store 1 listed_one
      (All-intro _ (λ x. λ e. inr (inl (rw e live_one))) (scan_objects outside false store.files))

evict_pass-IsLru_example : IsLru settings outside store
evict_pass-IsLru_example = evict_pass-IsLru settings outside store

store-IsOpen : IsOpen 1 store
unfolding is_live listed
store-IsOpen = record { live = refl; sidecar = refl }

abbrev persisted : Store
persisted = note_persisted settings outside 5 true store

store-Steps : Steps settings 1 store (evict_now settings outside persisted).1
store-Steps = next (next here (persist outside 5 true store)) (evict outside persisted)

Steps-Keeps_example : Keeps 1 store (evict_now settings outside persisted).1
Steps-Keeps_example = Steps-Keeps store-Steps store-IsOpen

scan_is_small : exact_bytes (scan_objects outside false store.files) < 2 ^ 64
unfolding exact_bytes scan_objects scan_bytes fresh Bitmap.reset
scan_is_small = omega arith

evict_pass-accounts_example :
    ((evict_pass settings outside store).usage
      ≤ exact_bytes (scan_objects outside false store.files))
    × ((evict_pass settings outside store).evicted_bytes
        ≡ add64 0 (
            exact_bytes (scan_objects outside false store.files)
            - (evict_pass settings outside store).usage))
evict_pass-accounts_example = evict_pass-accounts settings outside store scan_is_small (omega arith)

-- Every entry was read within the window, so the pass frees nothing and growth stops.
abbrev window : Settings
window = record settings { evict_protect_seconds = 8000 }

abbrev busy : Outside
busy = record outside { summary = λ h. some (fresh 8000 (h ∷ []) 4 4) }

growth_stops : (evict_locked window busy store).admission_blocked ≡ true
unfolding evict_locked fresh Bitmap.reset is_live
growth_stops = refl

evict_locked-blocked_example :
    (evict_pass window busy store
      ≡ treat_all
          (limits_of window busy (pruned store.registry))
          busy
          (sort_by_atime (scan_objects busy false store.files))
          (first_pass busy (scan_objects busy false store.files) store))
    × (need_evict (limits_of window busy (pruned store.registry)) (evict_pass window busy store)
        ≡ true)
    × (any_recent
          (limits_of window busy (pruned store.registry))
          busy
          (sort_by_atime (scan_objects busy false store.files))
        ≡ true)
evict_locked-blocked_example = evict_locked-blocked window busy store growth_stops

not_open : is_live 7 store.registry ≡ false
unfolding is_live
not_open = refl

declines_new : (admit window busy 7 store).0 ≡ declined
unfolding admit fresh Bitmap.reset
declines_new = refl

admits_old : (admit window busy 2 store).0 ≡ admitted
unfolding admit
admits_old = refl

victims_of-IsEnough_example :
    IsOldestEnough outside store.registry true 40
      (scan_objects outside false store.files)
      (victims_of to_size outside store.registry true 40 (scan_objects outside false store.files))
victims_of-IsEnough_example =
    victims_of-IsEnough outside store.registry true 40 (scan_objects outside false store.files)
      scan_is_small

abbrev automatic : Settings
automatic = record settings { max_bytes = 0; budget_auto = true }

floor_is_tenth : effective_min_free automatic outside ≡ 100
unfolding effective_min_free
floor_is_tenth = refl
