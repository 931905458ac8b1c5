-- ===== src/Store/Open.antt =====
-- src/core/CacheStore.cc: `resolveBudget`, `maybeEvict`, `notePersisted`, `open` before and after
-- `FileEntry::open`, `invalidate`, `removeEntry`. The counters of an entry's own record are left out.
pub mod Blocked
use xrd_ucache.Base.{
  ℕ, zero, suc, ◌+◌, Bool, true, false, not, ◌&&◌, ◌||◌, List, [], ◌∷◌, Option, none, some, ◌==◌,
  if◌then◌else◌, add64, ltb,
}
use xrd_ucache.Store.{
  Suffix, dot_data, dot_meta, dot_tdata, dot_tmeta, dot_tok, dot_val, dot_slots, File, Settings,
  Outside, Store, Registered, listed, unlink, is_live, erase,
}
use xrd_ucache.Store.Budget.{effective_min_free}
use xrd_ucache.Store.Scan.{usage_bytes}
use xrd_ucache.Store.Evict.{evict_now}

-- The settings and the store that the constructor ends with.
unfoldable pub resolve_budget : Settings → Outside → Store → Settings × Store
unfolding effective_min_free usage_bytes
resolve_budget cfg env st = (
  if cfg.budget_auto && cfg.min_free_bytes == 0
      then record cfg { min_free_bytes = effective_min_free cfg env }
      else cfg,
  if ltb 0 cfg.max_bytes then record st { approx_usage = usage_bytes env st.files } else st,
)

unfoldable pub over_budget : Settings → Store → Bool
over_budget cfg st = ltb 0 cfg.max_bytes && ltb cfg.high_bytes st.approx_usage

abbrev below_floor : Settings → Option (ℕ × ℕ) → Bool
below_floor cfg none = false
below_floor cfg (some (avail, total)) = ltb avail cfg.min_free_bytes

unfoldable pub low_disk : Settings → Outside → Bool
low_disk cfg env = ltb 0 cfg.min_free_bytes && below_floor cfg env.space

-- The rate limit; `evict_check_seconds` of 0 stands for a setting that is not positive.
unfoldable pub rate_limited : Settings → Outside → Store → Bool
unfolding over_budget
rate_limited cfg env st =
    not (over_budget cfg st && not (st.last_evicted == 0))
    && (ltb 0 cfg.evict_check_seconds && ltb env.now (add64 st.last_check cfg.evict_check_seconds))

abbrev pub eviction_off : Settings → Bool
eviction_off cfg = cfg.max_bytes == 0 && cfg.min_free_bytes == 0

unfoldable pub maybe_evict : Settings → Outside → Store → Store
unfolding rate_limited low_disk over_budget evict_now
maybe_evict cfg env st =
    let checked = record st { last_check = env.now } in
    if eviction_off cfg
    then st
    else if rate_limited cfg env st
    then st
    else if over_budget cfg st || low_disk cfg env
    then (evict_now cfg env checked).1
    else checked

unfoldable pub note_persisted : Settings → Outside → ℕ → Bool → Store → Store
unfolding maybe_evict
note_persisted cfg env bytes allow_evict st =
    let counted =
      if ltb 0 cfg.max_bytes
      then record st { approx_usage = add64 st.approx_usage bytes }
      else st in
    if eviction_off cfg then st else if allow_evict then maybe_evict cfg env counted else counted

-- How `open` goes on: with the entry of this process, with none, or to `FileEntry::open`.
pub data Admission : Type 0 where
  resident declined admitted : Admission

unfoldable pub decline : Store → Store
decline st = record st {
  admissions_bypassed = add64 st.admissions_bypassed 1;
  blocked_warned = true;
}

-- The decision for a key that no entry of this process holds.
unfoldable pub admit_new : Settings → Outside → ℕ → Store → Admission × Store
unfolding maybe_evict decline listed
admit_new cfg env h st =
    let checked = if listed h dot_meta st.files then st else maybe_evict cfg env st in
    if checked.admission_blocked && not (listed h dot_meta checked.files)
    then (declined, decline checked)
    else (admitted, checked)

-- `open` up to `FileEntry::open`.
unfoldable pub admit : Settings → Outside → ℕ → Store → Admission × Store
unfolding admit_new erase is_live
admit cfg env h st =
    if is_live h st.registry
    then (resident, st)
    else admit_new cfg env h (record st { registry = erase h st.registry })

unfoldable pub seen : ℕ → List ℕ → Bool
seen h [] = false
seen h (x ∷ l) = x == h || seen h l

-- The count of distinct keys.
unfoldable pub count_key : ℕ → Store → Store
unfolding seen
count_key h st =
    if st.dumps_stats && not (seen h st.seen_keys)
    then record st { seen_keys = h ∷ st.seen_keys; files_opened = add64 st.files_opened 1 }
    else st

-- `open` after `FileEntry::open` returned an entry: an entry that was registered meanwhile is kept.
unfoldable pub register : Settings → Outside → ℕ → Store → Store
unfolding maybe_evict count_key is_live erase
register cfg env h st =
    if is_live h st.registry
    then st
    else maybe_evict cfg env (
        count_key h
          (record st { registry = record { hash = h; alive = true } ∷ erase h st.registry }))

unfoldable pub invalidate : Outside → ℕ → Store → Store
unfolding unlink erase
invalidate env h st =
    let bytes = unlink env h dot_meta (unlink env h dot_data st.files) in
    let replica = unlink env h dot_tmeta (unlink env h dot_tdata bytes) in
    let marks = unlink env h dot_val (unlink env h dot_tok replica) in
    record st { registry = erase h st.registry; files = unlink env h dot_slots marks }

unfoldable pub remove_entry : Outside → ℕ → Store → Bool × Store
unfolding invalidate listed usage_bytes
remove_entry env h st =
    let existed =
      (listed h dot_meta st.files || listed h dot_data st.files)
      || (listed h dot_tdata st.files || listed h dot_slots st.files) in
    let gone = invalidate env h st in
    (existed, if existed then record gone { approx_usage = usage_bytes env gone.files } else gone)
