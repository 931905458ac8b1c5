-- ===== src/Store/Scan.antt =====
-- src/core/CacheStore.cc: `scanShard` over the listing, `usageBytes`, `listEntries`. The fraction of
-- pages present, a floating-point number for listings, is left out.
use xrd_ucache.SlotStore.{header_bytes}
use xrd_ucache.Base.{
  ℕ, Bool, true, false, ◌&&◌, List, [], ◌∷◌, Option, none, some, ◌==◌, ltb, if◌then◌else◌, add64,
}
use xrd_ucache.Sidecar.{MetaData, cached_bytes}
use xrd_ucache.Store.{
  Suffix, dot_meta, dot_tdata, dot_tmeta, dot_tok, dot_val, dot_cost, dot_slots, File, Outside,
  stat, listed,
}

-- The bits kArt*.
pub record Artifacts : Type 0 where
  pub tdata : Bool
  pub tmeta : Bool
  pub tok : Bool
  pub val : Bool
  pub cost : Bool
  pub slots : Bool

pub record MetaScan : Type 0 where
  pub hash : ℕ
  pub key : List ℕ
  pub file_size : ℕ
  pub atime : ℕ
  pub cached : ℕ
  pub replica_bytes : ℕ
  pub replicated : Bool
  pub slot_declined : Bool
  pub artifacts : Artifacts
  pub pinned : Bool
  pub complete : Bool

unfoldable artifacts_of : ℕ → List File → Artifacts
unfolding listed
artifacts_of h files = record {
  tdata = listed h dot_tdata files;
  tmeta = listed h dot_tmeta files;
  tok = listed h dot_tok files;
  val = listed h dot_val files;
  cost = listed h dot_cost files;
  slots = listed h dot_slots files;
}

-- The size of the overlay is its replica bytes.
unfoldable with_overlay : Option ℕ → MetaScan → MetaScan
with_overlay none s = s
with_overlay (some size) s = record s { replica_bytes = size; replicated = true }

-- A slot store that is longer than its header adds to them.
unfoldable with_slots : Bool → Bool → Option ℕ → MetaScan → MetaScan
with_slots replicated holds none s = s
with_slots replicated holds (some size) s =
    if size == header_bytes
    then record s { slot_declined = true }
    else if ltb header_bytes size
    then record s {
      replica_bytes = add64 s.replica_bytes size;
      replicated =
          if replicated && (if s.replicated then false else true) then holds else s.replicated;
    }
    else s

-- The entry of a sidecar that could be read.
unfoldable scan_entry : Outside → Bool → List File → ℕ → MetaData → MetaScan
unfolding artifacts_of with_overlay with_slots stat cached_bytes
scan_entry env replicated files h m =
    let a = artifacts_of h files in
    let s : MetaScan = record {
      hash = h;
      key = m.key;
      file_size = m.file_size;
      atime = m.atime;
      cached = cached_bytes m;
      replica_bytes = 0;
      replicated = false;
      slot_declined = false;
      artifacts = a;
      pinned = m.pinned;
      complete = m.complete;
    } in
    let o = with_overlay (if a.tdata then stat h dot_tdata files else none) s in
    with_slots replicated (env.holds_records h) (if a.slots then stat h dot_slots files else none) o

unfoldable add_entry :
    Outside → Bool → List File → ℕ → Option MetaData → List MetaScan → List MetaScan
unfolding scan_entry
add_entry env replicated files h none l = l
add_entry env replicated files h (some m) l = scan_entry env replicated files h m ∷ l

abbrev is_sidecar : Suffix → Bool
is_sidecar dot_meta = true
is_sidecar _ = false

-- The loop over the rest of the listing `files`.
unfoldable scan_rest : Outside → Bool → List File → List File → List MetaScan
unfolding add_entry
scan_rest env replicated files [] = []
scan_rest env replicated files (f ∷ l) =
    let rest = scan_rest env replicated files l in
    if is_sidecar f.suffix
    then add_entry env replicated files f.hash (env.summary f.hash) rest
    else rest

unfoldable pub scan_objects : Outside → Bool → List File → List MetaScan
unfolding scan_rest
scan_objects env replicated files = scan_rest env replicated files files

unfoldable pub scan_bytes : MetaScan → ℕ
scan_bytes s = add64 s.cached s.replica_bytes

-- `total += s.cachedBytes + s.replicaBytes`.
unfoldable pub total_from : ℕ → List MetaScan → ℕ
unfolding scan_bytes
total_from total [] = total
total_from total (s ∷ l) = total_from (add64 total (scan_bytes s)) l

unfoldable pub usage_bytes : Outside → List File → ℕ
unfolding scan_objects total_from
usage_bytes env files = total_from 0 (scan_objects env false files)
