-- ===== src/Store/Evict.antt =====
-- src/core/CacheStore.cc: `evictNow`, `sweepReplicaOrphans`. The scan reads the sidecars after the open
-- entries were flushed, so what they commit is part of what `summary` reads.

pub mod Loop
pub mod Sort
pub mod Lru
pub mod Keeps
use xrd_ucache.Base.{
  ℕ, zero, suc, ◌+◌, ◌-◌, ◌/◌, Bool, true, false, not, ◌&&◌, ◌||◌, List, [], ◌∷◌, Option, none,
  some, ◌==◌, if◌then◌else◌, add64, ltb, leb, min,
}
use xrd_ucache.Sidecar.{MetaData}
use xrd_ucache.Store.{
  Suffix, dot_data, dot_meta, dot_tdata, dot_tmeta, dot_tok, dot_val, dot_cost, dot_slots,
  tdata_tmp, tmeta_tmp, slots_tmp, other_suffix, File, Settings, Outside, Store, Registered, listed,
  unlink, pruned, is_live,
}
use xrd_ucache.Store.Scan.{MetaScan, Artifacts, scan_objects, scan_bytes, total_from}

-- The variables of a pass.
pub record Pass : Type 0 where
  pub usage : ℕ
  pub avail : ℕ
  pub saw_protected : Bool
  pub evicted : ℕ
  pub files : List File
  pub evicted_entries : ℕ
  pub evicted_bytes : ℕ

-- What a pass reads once, before its loop: `haveSpace`, the targets, `protectCutoff`, `liveHashes`.
pub record Limits : Type 0 where
  pub max_bytes : ℕ
  pub byte_target : ℕ
  pub have_space : Bool
  pub resume_free : ℕ
  pub protect_cutoff : ℕ
  pub live : List Registered

unfoldable pub need_evict : Limits → Pass → Bool
need_evict l p =
    (not (l.max_bytes == 0) && ltb l.byte_target p.usage)
    || (l.have_space && ltb p.avail l.resume_free)

abbrev pub pinned_in : Option MetaData → Bool
pinned_in none = false
pinned_in (some m) = m.pinned

-- What the loop does with an entry: it is passed over, passed over as read too recently, or removed.
pub data Verdict : Type 0 where
  passed_over too_recent victim : Verdict

unfoldable pub verdict : Limits → Outside → MetaScan → Verdict
verdict l env s =
    if s.pinned || is_live s.hash l.live
    then passed_over
    else if not (l.protect_cutoff == 0) && leb l.protect_cutoff s.atime
    then too_recent
    else if pinned_in (env.loaded s.hash)
    then passed_over
    else if env.unlinks s.hash dot_data
    then victim
    else passed_over

abbrev pub unlink_if : Bool → Outside → ℕ → Suffix → List File → List File
unlink_if b env h s files = if b then unlink env h s files else files

-- The files of an entry go: the data, the sidecar, then the artifacts that the scan saw.
unfoldable pub unlink_entry : Outside → MetaScan → List File → List File
unfolding unlink
unlink_entry env s files =
    let a = s.artifacts in
    let h = s.hash in
    let bare = unlink env h dot_meta (unlink env h dot_data files) in
    let replica = unlink_if a.tmeta env h dot_tmeta (unlink_if a.tdata env h dot_tdata bare) in
    let marks = unlink_if a.val env h dot_val (unlink_if a.tok env h dot_tok replica) in
    unlink_if a.slots env h dot_slots (unlink_if a.cost env h dot_cost marks)

unfoldable pub evict_entry : Outside → MetaScan → Pass → Pass
unfolding unlink_entry scan_bytes
evict_entry env s p =
    let reclaimed = scan_bytes s in
    record p {
      usage = p.usage - min p.usage reclaimed;
      avail = add64 p.avail reclaimed;
      evicted = p.evicted + 1;
      files = unlink_entry env s p.files;
      evicted_entries = add64 p.evicted_entries 1;
      evicted_bytes = add64 p.evicted_bytes reclaimed;
    }

abbrev pub treat : Outside → MetaScan → Verdict → Pass → Pass
treat env s passed_over p = p
treat env s too_recent p = record p { saw_protected = true }
treat env s victim p = evict_entry env s p

-- The loop over the sorted scan.
unfoldable pub evict_loop : Limits → Outside → List MetaScan → Pass → Pass
unfolding need_evict verdict evict_entry
evict_loop l env [] p = p
evict_loop l env (s ∷ rest) p =
    let done = evict_loop l env rest (treat env s (verdict l env s) p) in
    if need_evict l p then done else p

-- The sort by `atime`. `std::sort` leaves the order of equal times open; here they keep the scan's.
unfoldable pub insert : MetaScan → List MetaScan → List MetaScan
insert s [] = s ∷ []
insert s (x ∷ l) = let rest = insert s l in if leb s.atime x.atime then s ∷ x ∷ l else x ∷ rest

unfoldable pub sort_by_atime : List MetaScan → List MetaScan
unfolding insert
sort_by_atime [] = []
sort_by_atime (s ∷ l) = insert s (sort_by_atime l)

abbrev avail_of : Option (ℕ × ℕ) → ℕ
avail_of none = 0
avail_of (some (avail, total)) = avail

abbrev is_some : Option (ℕ × ℕ) → Bool
is_some none = false
is_some (some x) = true

unfoldable pub limits_of : Settings → Outside → List Registered → Limits
limits_of cfg env live = record {
  max_bytes = cfg.max_bytes;
  byte_target = if cfg.max_bytes == 0 then 0 else cfg.low_bytes;
  have_space = ltb 0 cfg.min_free_bytes && is_some env.space;
  resume_free = add64 cfg.min_free_bytes (cfg.min_free_bytes / 10);
  protect_cutoff =
      if not (cfg.evict_protect_seconds == 0) && ltb cfg.evict_protect_seconds env.now
      then env.now - cfg.evict_protect_seconds
      else 0;
  live = live;
}

-- `sweepReplicaOrphans`: whether a file is an artifact that it may remove. A creation file of a slot
-- store needs no missing sidecar, only its age.
abbrev pub orphan : List File → Suffix → ℕ → Bool
orphan all dot_data h = false
orphan all dot_meta h = false
orphan all other_suffix h = false
orphan all slots_tmp h = true
orphan all s h = not (listed h dot_meta all)

unfoldable pub sweeps : Outside → List File → File → Bool
unfolding listed
sweeps env all f =
    (orphan all f.suffix f.hash && leb (add64 f.mtime 3600) env.now) && env.unlinks f.hash f.suffix

-- The files that stay, and how many go, of the rest of the listing `all`.
unfoldable pub sweep_rest : Outside → List File → List File → List File × ℕ
unfolding sweeps
sweep_rest env all [] = ([], 0)
sweep_rest env all (f ∷ l) =
    let rest = sweep_rest env all l in
    if sweeps env all f then (rest.0, add64 rest.1 1) else (f ∷ rest.0, rest.1)

unfoldable pub sweep_orphans : Outside → Store → Store
unfolding sweep_rest
sweep_orphans env st =
    let swept = sweep_rest env st.files st.files in
    record st { files = swept.0; orphans_swept = add64 st.orphans_swept swept.1 }

unfoldable pub first_pass : Outside → List MetaScan → Store → Pass
unfolding total_from
first_pass env scans st = record {
  usage = total_from 0 scans;
  avail = avail_of env.space;
  saw_protected = false;
  evicted = 0;
  files = st.files;
  evicted_entries = st.evicted_entries;
  evicted_bytes = st.evicted_bytes;
}

-- The pass from the scan to the end of its loop.
unfoldable pub evict_pass : Settings → Outside → Store → Pass
unfolding scan_objects limits_of sort_by_atime evict_loop first_pass
evict_pass cfg env st =
    let scans = scan_objects env false st.files in
    evict_loop (limits_of cfg env (pruned st.registry)) env (sort_by_atime scans)
      (first_pass env scans st)

-- `evictNow` with the lock, and with the answer -1 as none when another process has it.
unfoldable pub evict_locked : Settings → Outside → Store → Store
unfolding evict_pass sweep_orphans pruned need_evict limits_of
evict_locked cfg env st =
    let p = evict_pass cfg env st in
    let swept = sweep_orphans env (record st {
      registry = pruned st.registry;
      files = p.files;
      evicted_entries = p.evicted_entries;
      evicted_bytes = p.evicted_bytes;
    }) in
    record swept {
      admission_blocked = need_evict (limits_of cfg env (pruned st.registry)) p && p.saw_protected;
      approx_usage = p.usage;
      last_evicted = p.evicted;
    }

unfoldable pub evict_now : Settings → Outside → Store → Option ℕ × Store
unfolding evict_locked
evict_now cfg env st =
    if env.locks
    then (some (evict_locked cfg env st).last_evicted, evict_locked cfg env st)
    else (none, st)
