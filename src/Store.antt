-- ===== src/Store.antt =====
-- src/core/CacheStore.cc, src/core/CacheStore.h: the store's state, the scan of its sidecars and the
-- free-space floor. A hash is a number. The files of all shards are one list, in the order of the
-- sorted shards; what a scan, a sweep or an unlink does to a file does not depend on its shard.
pub mod Budget
pub mod Scan
pub mod Evict
pub mod Open
pub mod Cleanup
pub mod Steps
mod Tests
use xrd_ucache.Base.{
  ℕ, zero, suc, ◌+◌, Bool, true, false, not, ◌&&◌, ◌||◌, List, [], ◌∷◌, Option, none, some, ◌==◌,
  if◌then◌else◌,
}
use xrd_ucache.Sidecar.{MetaData}

-- The suffixes of the files of an entry. `slots_tmp` is `.slots.tmp.<pid>.<n>`, the file in which a
-- slot store is created.
pub data Suffix : Type 0 where
  dot_data dot_meta dot_tdata dot_tmeta dot_tok dot_val dot_cost dot_slots : Suffix
  tdata_tmp tmeta_tmp slots_tmp other_suffix : Suffix

unfoldable pub suffix_code : Suffix → ℕ
suffix_code dot_data = 0
suffix_code dot_meta = 1
suffix_code dot_tdata = 2
suffix_code dot_tmeta = 3
suffix_code dot_tok = 4
suffix_code dot_val = 5
suffix_code dot_cost = 6
suffix_code dot_slots = 7
suffix_code tdata_tmp = 8
suffix_code tmeta_tmp = 9
suffix_code slots_tmp = 10
suffix_code other_suffix = 11

pub record File : Type 0 where
  pub hash : ℕ
  pub suffix : Suffix
  pub bytes : ℕ
  pub mtime : ℕ

unfoldable pub is_file : ℕ → Suffix → File → Bool
unfolding suffix_code
is_file h s f = f.hash == h && suffix_code f.suffix == suffix_code s

-- `stat`: the size of a file that is there.
unfoldable pub stat : ℕ → Suffix → List File → Option ℕ
unfolding is_file
stat h s [] = none
stat h s (f ∷ l) = if is_file h s f then some f.bytes else stat h s l

-- Whether the listing has a name.
unfoldable pub listed : ℕ → Suffix → List File → Bool
unfolding is_file
listed h s [] = false
listed h s (f ∷ l) = is_file h s f || listed h s l

-- What a file that is unlinked leaves.
unfoldable pub without : ℕ → Suffix → List File → List File
unfolding is_file
without h s [] = []
without h s (f ∷ l) = let rest = without h s l in if is_file h s f then rest else f ∷ rest

-- The settings of a store. `low_bytes` and `high_bytes` are `lowWater * maxBytes` and
-- `highWater * maxBytes`, which the source computes in floating point.
pub record Settings : Type 0 where
  pub max_bytes : ℕ
  pub low_bytes : ℕ
  pub high_bytes : ℕ
  pub min_free_bytes : ℕ
  pub budget_auto : Bool
  pub evict_check_seconds : ℕ
  pub evict_protect_seconds : ℕ

-- What the system answers during one operation: the clock, the free and the total space of the disk,
-- whether the eviction lock is got, whether an unlink answers 0, what `MetaFile::loadSummary` and
-- `MetaFile::load` read, whether a slot store holds records.
pub record Outside : Type 0 where
  pub now : ℕ
  pub space : Option (ℕ × ℕ)
  pub locks : Bool
  pub unlinks : ℕ → Suffix → Bool
  pub summary : ℕ → Option MetaData
  pub loaded : ℕ → Option MetaData
  pub holds_records : ℕ → Bool

-- An item of the registry: the hash, and whether the weak pointer still locks.
pub record Registered : Type 0 where
  pub hash : ℕ
  pub alive : Bool

pub record Store : Type 0 where
  pub registry : List Registered
  pub files : List File
  pub approx_usage : ℕ
  pub last_evicted : ℕ
  pub last_check : ℕ
  pub admission_blocked : Bool
  pub blocked_warned : Bool
  pub admissions_bypassed : ℕ
  pub evicted_entries : ℕ
  pub evicted_bytes : ℕ
  pub orphans_swept : ℕ
  pub dumps_stats : Bool
  pub seen_keys : List ℕ
  pub files_opened : ℕ

-- `unlink`, its answer known.
unfoldable pub unlink : Outside → ℕ → Suffix → List File → List File
unfolding without
unlink env h s files = if env.unlinks h s then without h s files else files

-- What is kept of the registry by the walk that prunes it.
unfoldable pub pruned : List Registered → List Registered
pruned [] = []
pruned (r ∷ l) = let rest = pruned l in if r.alive then r ∷ rest else rest

-- `liveHashes.count`.
unfoldable pub is_live : ℕ → List Registered → Bool
is_live h [] = false
is_live h (r ∷ l) = (r.hash == h && r.alive) || is_live h l

-- `registry_.erase`.
unfoldable pub erase : ℕ → List Registered → List Registered
erase h [] = []
erase h (r ∷ l) = let rest = erase h l in if r.hash == h then rest else r ∷ rest
