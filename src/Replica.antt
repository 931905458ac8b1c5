-- ===== src/Replica.antt =====
-- src/core/ReplicaFile.h, src/core/ReplicaFile.cc, src/core/ReplicaStore.cc: the map of a replica, the
-- structural checks that a sidecar passes, and `ReplicaView::map` and `originRanges`. What
-- `std::lower_bound` finds on a partitioned range is the first item that its test refuses.
pub mod Sound
pub mod Stitch
pub mod Ranges
pub mod Overlay
mod Tests
use xrd_ucache.Base.{
  ℕ, zero, suc, ◌+◌, ◌-◌, Bool, true, false, not, ◌&&◌, ◌||◌, List, [], ◌∷◌, ◌++◌, ◌==◌,
  if◌then◌else◌, add64, ltb, leb, min,
}

-- Virtual [virt_off, virt_off + len) is served from [tdata_off, tdata_off + len) of the overlay.
pub record Extent : Type 0 where
  pub virt_off : ℕ
  pub len : ℕ
  pub tdata_off : ℕ

pub record Range : Type 0 where
  pub off : ℕ
  pub len : ℕ

pub record OrigRange : Type 0 where
  pub virt_off : ℕ
  pub len : ℕ
  pub orig_off : ℕ
  pub orig_len : ℕ

-- The members of `ReplicaMeta` that the map reads.
pub record ReplicaMeta : Type 0 where
  pub origin_size : ℕ
  pub virtual_size : ℕ
  pub tdata_bytes : ℕ
  pub extents : List Extent
  pub superseded : List Range
  pub orig_map : List OrigRange

-- The loop over the extents of `deserialize`.
unfoldable pub sound_extents : ReplicaMeta → ℕ → List Extent → Bool
sound_extents m prev_end [] = true
sound_extents m prev_end (e ∷ l) =
    let stop = add64 e.virt_off e.len in
    let rest = sound_extents m stop l in
    if e.len == 0 || ltb e.virt_off prev_end
    then false
    else if ltb stop e.virt_off || ltb m.virtual_size stop
    then false
    else if ltb (add64 e.tdata_off e.len) e.tdata_off || ltb m.tdata_bytes (add64 e.tdata_off e.len)
    then false
    else rest

-- Its loop over the superseded ranges.
unfoldable pub sound_superseded : ReplicaMeta → List Range → Bool
sound_superseded m [] = true
sound_superseded m (r ∷ l) =
    let rest = sound_superseded m l in
    let stop = add64 r.off r.len in
    if r.len == 0 || (ltb stop r.off || ltb m.origin_size stop) then false else rest

-- The structural checks at the end of `deserialize`.
unfoldable pub is_sound : ReplicaMeta → Bool
unfolding sound_extents sound_superseded
is_sound m =
    not (ltb m.virtual_size m.origin_size)
    && (sound_extents m 0 m.extents && sound_superseded m m.superseded)

-- `Seg`: a run of the request, from the overlay or from the origin.
pub record Seg : Type 0 where
  pub overlay : Bool
  pub virt_off : ℕ
  pub len : ℕ
  pub tdata_off : ℕ

abbrev pub origin_seg : ℕ → ℕ → Seg
origin_seg off len = record { overlay = false; virt_off = off; len = len; tdata_off = 0 }

abbrev pub overlay_seg : ℕ → ℕ → ℕ → Seg
overlay_seg off len tdata_off = record {
  overlay = true;
  virt_off = off;
  len = len;
  tdata_off = tdata_off;
}

-- `lower_bound` by the end of an extent.
unfoldable pub from_end : ℕ → List Extent → List Extent
from_end off [] = []
from_end off (e ∷ l) =
    let rest = from_end off l in if leb (add64 e.virt_off e.len) off then rest else e ∷ l

-- The overlay segment of one extent, and where it ends.
unfoldable pub hit : ℕ → ℕ → Extent → List Seg × ℕ
hit pos stop e =
    let seg_end = min stop (add64 e.virt_off e.len) in
    if ltb pos seg_end
    then (overlay_seg pos (seg_end - pos) (add64 e.tdata_off (pos - e.virt_off)) ∷ [], seg_end)
    else ([], pos)

-- The loop of `map`.
unfoldable pub map_from : ℕ → ℕ → List Extent → List Seg
unfolding hit
map_from pos stop [] = if ltb pos stop then origin_seg pos (stop - pos) ∷ [] else []
map_from pos stop (e ∷ l) =
    let begins = if ltb pos e.virt_off then e.virt_off else pos in
    let found = hit begins stop e in
    let rest = map_from found.1 stop l in
    let gap = if ltb pos e.virt_off then origin_seg pos (e.virt_off - pos) ∷ [] else [] in
    if not (ltb pos stop)
    then []
    else if leb stop e.virt_off
    then origin_seg pos (stop - pos) ∷ []
    else gap ++ (found.0 ++ rest)

-- `ReplicaView::map`.
unfoldable pub map_segments : ReplicaMeta → ℕ → ℕ → List Seg
unfolding map_from from_end
map_segments m off len =
    let stop = min (add64 off len) m.virtual_size in
    if leb m.virtual_size off
    then []
    else if leb stop off
    then []
    else map_from off stop (from_end off m.extents)

-- `passThrough` of `originRanges`: what lies below the end of the origin.
unfoldable pub pass_through : ReplicaMeta → ℕ → ℕ → List Range
pass_through m a b =
    let hi = min b m.origin_size in if ltb a hi then record { off = a; len = hi - a } ∷ [] else []

unfoldable pub orig_from_end : ℕ → List OrigRange → List OrigRange
orig_from_end off [] = []
orig_from_end off (r ∷ l) =
    let rest = orig_from_end off l in if leb (add64 r.virt_off r.len) off then rest else r ∷ l

-- The loop of `originRanges`.
unfoldable pub origin_ranges_from : ReplicaMeta → ℕ → ℕ → List OrigRange → List Range
unfolding pass_through
origin_ranges_from m pos stop [] = if ltb pos stop then pass_through m pos stop else []
origin_ranges_from m pos stop (r ∷ l) =
    let begins = if ltb pos r.virt_off then r.virt_off else pos in
    let seg_end = min stop (add64 r.virt_off r.len) in
    let touched = ltb begins seg_end in
    let rest = origin_ranges_from m (if touched then seg_end else begins) stop l in
    let gap = if ltb pos r.virt_off then pass_through m pos r.virt_off else [] in
    let whole : List Range =
      if touched then record { off = r.orig_off; len = r.orig_len } ∷ [] else [] in
    if not (ltb pos stop)
    then []
    else if leb stop r.virt_off
    then pass_through m pos stop
    else gap ++ (whole ++ rest)

abbrev is_empty : List OrigRange → Bool
is_empty [] = true
is_empty (r ∷ l) = false

-- `ReplicaView::originRanges`: what it appends to `out`.
unfoldable pub origin_ranges : ReplicaMeta → ℕ → ℕ → List Range
unfolding origin_ranges_from orig_from_end
origin_ranges m off len =
    let stop = min (add64 off len) m.virtual_size in
    if is_empty m.orig_map || len == 0
    then []
    else if leb stop off
    then []
    else origin_ranges_from m off stop (orig_from_end off m.orig_map)
