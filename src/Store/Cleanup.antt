-- ===== src/Store/Cleanup.antt =====
-- src/core/CacheStore.cc: `cleanup`. The removal runs on several threads, each taking the next victim;
-- the victims are distinct entries, so the order in which they go does not matter, and here it is the
-- order of the list.
pub mod Chosen
pub mod Report
use xrd_ucache.Base.{
  ℕ, zero, suc, ◌+◌, ◌-◌, Bool, true, false, not, ◌&&◌, ◌||◌, List, [], ◌∷◌, Option, none, some,
  ◌==◌, if◌then◌else◌, add64, ltb, leb, min,
}
use xrd_ucache.Store.{
  Suffix, dot_data, File, Settings, Outside, Store, Registered, pruned, is_live, erase,
}
use xrd_ucache.Store.Scan.{MetaScan, scan_objects, scan_bytes, total_from, usage_bytes}
use xrd_ucache.Store.Evict.{sort_by_atime, unlink_entry, pinned_in, sweep_orphans}

pub data CleanupMode : Type 0 where
  clean_all older_than newer_than to_size : CleanupMode

pub record CleanupVictim : Type 0 where
  pub key : List ℕ
  pub bytes : ℕ
  pub atime : ℕ

pub record CleanupReport : Type 0 where
  pub locked : Bool
  pub bytes : ℕ
  pub victims : List CleanupVictim

unfoldable pub protected_entry : Outside → List Registered → Bool → MetaScan → Bool
protected_entry env live keep_pinned s =
    is_live s.hash live || (keep_pinned && (s.pinned || pinned_in (env.loaded s.hash)))

-- The victims of a cleanup to a size, `total` being what the cache still has.
unfoldable pub to_size_victims :
    Outside → List Registered → Bool → ℕ → ℕ → List MetaScan → List MetaScan
unfolding protected_entry scan_bytes
to_size_victims env live keep_pinned arg total [] = []
to_size_victims env live keep_pinned arg total (s ∷ l) =
    let skip = to_size_victims env live keep_pinned arg total l in
    let less = total - min total (scan_bytes s) in
    let take = s ∷ to_size_victims env live keep_pinned arg less l in
    if leb total arg then [] else if protected_entry env live keep_pinned s then skip else take

-- Whether the mode lets an entry stay for its age.
abbrev pub spared_by_age : CleanupMode → ℕ → MetaScan → Bool
spared_by_age older_than cutoff s = leb cutoff s.atime
spared_by_age newer_than cutoff s = ltb s.atime cutoff
spared_by_age clean_all cutoff s = false
spared_by_age to_size cutoff s = false

unfoldable pub aged_victims :
    Outside → List Registered → Bool → CleanupMode → ℕ → List MetaScan → List MetaScan
unfolding protected_entry
aged_victims env live keep_pinned mode cutoff [] = []
aged_victims env live keep_pinned mode cutoff (s ∷ l) =
    let rest = aged_victims env live keep_pinned mode cutoff l in
    if protected_entry env live keep_pinned s || spared_by_age mode cutoff s then rest else s ∷ rest

abbrev pub cutoff_of : ℕ → ℕ → ℕ
cutoff_of now arg = if ltb arg now then now - arg else 0

unfoldable pub victims_of :
    CleanupMode → Outside → List Registered → Bool → ℕ → List MetaScan → List MetaScan
unfolding to_size_victims aged_victims sort_by_atime total_from
victims_of to_size env live keep_pinned arg scans =
    to_size_victims env live keep_pinned arg (total_from 0 scans) (sort_by_atime scans)
victims_of clean_all env live keep_pinned arg scans =
    aged_victims env live keep_pinned clean_all (cutoff_of env.now arg) scans
victims_of older_than env live keep_pinned arg scans =
    aged_victims env live keep_pinned older_than (cutoff_of env.now arg) scans
victims_of newer_than env live keep_pinned arg scans =
    aged_victims env live keep_pinned newer_than (cutoff_of env.now arg) scans

-- The removal of one victim: the registry lets go of it first.
unfoldable pub remove_victim : Outside → MetaScan → Store → Store
unfolding unlink_entry erase scan_bytes
remove_victim env s st =
    let detached = record st { registry = erase s.hash st.registry } in
    if env.unlinks s.hash dot_data
    then record detached {
      files = unlink_entry env s st.files;
      evicted_entries = add64 st.evicted_entries 1;
      evicted_bytes = add64 st.evicted_bytes (scan_bytes s);
    }
    else detached

unfoldable pub remove_victims : Outside → List MetaScan → Store → Store
unfolding remove_victim
remove_victims env [] st = st
remove_victims env (s ∷ l) st = remove_victims env l (remove_victim env s st)

-- The report on the victims that were removed, all of them on a dry run.
unfoldable pub report : Outside → Bool → List MetaScan → ℕ → CleanupReport
unfolding scan_bytes
report env dry_run [] total = record { locked = true; bytes = total; victims = [] }
report env dry_run (s ∷ l) total =
    let kept = report env dry_run l total in
    let more = report env dry_run l (add64 total (scan_bytes s)) in
    let item : CleanupVictim = record { key = s.key; bytes = scan_bytes s; atime = s.atime } in
    if dry_run || env.unlinks s.hash dot_data
    then record more { victims = item ∷ more.victims }
    else kept

unfoldable pub reconciled : Outside → Store → Store
unfolding usage_bytes sweep_orphans
reconciled env st =
    let swept = sweep_orphans env st in record swept { approx_usage = usage_bytes env swept.files }

unfoldable pub cleanup : CleanupMode → ℕ → Bool → Bool → Outside → Store → CleanupReport × Store
unfolding report remove_victims reconciled victims_of scan_objects pruned
cleanup mode arg keep_pinned dry_run env st =
    let live = pruned st.registry in
    let flushed = record st { registry = live } in
    let chosen = victims_of mode env live keep_pinned arg (scan_objects env false st.files) in
    let removed = reconciled env (remove_victims env chosen flushed) in
    (
      if env.locks
          then report env dry_run chosen 0
          else record { locked = false; bytes = 0; victims = [] },
      if env.locks then (if dry_run then flushed else removed) else st,
    )
