-- ===== src/Replica/Ranges.antt =====
-- src/core/ReplicaStore.cc: what `ReplicaView::originRanges` reports.
use xrd_ucache.Base.{
  ℕ, ◌+◌, ◌≤◌, ◌<◌, ◌≡◌, ◌⊎◌, inl, inr, arith, Bool, true, false, not, ◌&&◌, ◌||◌, List, [], ◌∷◌,
  ◌++◌, ◌==◌, if◌then◌else◌, add64, ltb, leb, All, All-imp, All-append, All-if, Bool-cases, min,
}
use xrd_ucache.Replica.{
  Range, OrigRange, ReplicaMeta, pass_through, orig_from_end, origin_ranges_from, origin_ranges,
  is_empty,
}

-- A range is the original range of an item.
unfoldable pub is_mapped : Range → List OrigRange → Bool
is_mapped r [] = false
is_mapped r (o ∷ l) = (r.off == o.orig_off && r.len == o.orig_len) || is_mapped r l

-- A range is not empty and lies in the origin file, or is the whole original range of an item.
abbrev pub IsKnown : ReplicaMeta → List OrigRange → Range → Type 0
IsKnown m l r = ((0 < r.len) × (r.off + r.len ≤ m.origin_size)) ⊎ (is_mapped r l ≡ true)

IsKnown-cons :
    (m : ReplicaMeta) (o : OrigRange) (l : List OrigRange) (r : Range)
    → IsKnown m l r
    → IsKnown m (o ∷ l) r
unfolding is_mapped
IsKnown-cons m o l r (inl h) = inl h
IsKnown-cons m o l r (inr h) = inr (ground (arith, h))

pass_through-IsKnown :
    (m : ReplicaMeta) (l : List OrigRange) (a b : ℕ) → All (IsKnown m l) (pass_through m a b)
unfolding pass_through
pass_through-IsKnown m l a b = elim (Bool-cases (ltb a (min b m.origin_size))) [
  | inl c ↦ rw c (inl (ground arith, ground arith), tt)
  | inr c ↦ rw c tt
]

whole-IsKnown :
    (m : ReplicaMeta) (o : OrigRange) (l : List OrigRange) (b : Bool)
    → All (IsKnown m (o ∷ l)) (if b then record { off = o.orig_off; len = o.orig_len } ∷ [] else [])
unfolding is_mapped
whole-IsKnown m o l true = (inr (ground arith), tt)
whole-IsKnown m o l false = tt

origin_ranges_from-IsKnown :
    (m : ReplicaMeta) (l : List OrigRange) (pos stop : ℕ)
    → All (IsKnown m l) (origin_ranges_from m pos stop l)
unfolding origin_ranges_from
origin_ranges_from-IsKnown m [] pos stop =
    All-if (IsKnown m []) (ltb pos stop) (pass_through m pos stop) []
      (pass_through-IsKnown m [] pos stop) tt
origin_ranges_from-IsKnown m (o ∷ l) pos stop =
    let P = IsKnown m (o ∷ l) in
    let begins = if ltb pos o.virt_off then o.virt_off else pos in
    let seg_end = min stop (add64 o.virt_off o.len) in
    let touched = ltb begins seg_end in
    let next = if touched then seg_end else begins in
    let after = origin_ranges_from m next stop l in
    let known = origin_ranges_from-IsKnown m l next stop in
    let rest = All-imp (IsKnown m l) P (IsKnown-cons m o l) after known in
    let whole : List Range =
      if touched then record { off = o.orig_off; len = o.orig_len } ∷ [] else [] in
    let gap = if ltb pos o.virt_off then pass_through m pos o.virt_off else [] in
    let gap_known =
      All-if P (ltb pos o.virt_off) (pass_through m pos o.virt_off) []
        (pass_through-IsKnown m (o ∷ l) pos o.virt_off) tt in
    let tail = All-append P whole after (whole-IsKnown m o l touched) rest in
    All-if P (not (ltb pos stop)) []
      (if leb stop o.virt_off then pass_through m pos stop else gap ++ (whole ++ after)) tt
      (All-if P (leb stop o.virt_off) (pass_through m pos stop) (gap ++ (whole ++ after))
        (pass_through-IsKnown m (o ∷ l) pos stop)
        (All-append P gap (whole ++ after) gap_known tail))

IsKnown-if :
    (m : ReplicaMeta) (o : OrigRange) (l rest : List OrigRange) (r : Range) (b : Bool)
    → (IsKnown m rest r → IsKnown m (o ∷ l) r)
    → IsKnown m (if b then rest else o ∷ l) r
    → IsKnown m (o ∷ l) r
IsKnown-if m o l rest r true f h = f h
IsKnown-if m o l rest r false f h = h

IsKnown-orig_from_end :
    (m : ReplicaMeta) (off : ℕ) (l : List OrigRange) (r : Range)
    → IsKnown m (orig_from_end off l) r
    → IsKnown m l r
unfolding orig_from_end
IsKnown-orig_from_end m off [] r h = h
IsKnown-orig_from_end m off (o ∷ l) r h =
    IsKnown-if m o l (orig_from_end off l) r (leb (add64 o.virt_off o.len) off)
      (λ k. IsKnown-cons m o l r (IsKnown-orig_from_end m off l r k)) h

-- Every range reported for a request is not empty and lies in the origin file, or is the whole
-- original range of an item of the map: what the overlay adds past the origin's end gets no
-- coordinates of its own.
pub origin_ranges-IsKnown :
    (m : ReplicaMeta) (off len : ℕ) → All (IsKnown m m.orig_map) (origin_ranges m off len)
unfolding origin_ranges
origin_ranges-IsKnown m off len =
    let P = IsKnown m m.orig_map in
    let left = orig_from_end off m.orig_map in
    let stop = min (add64 off len) m.virtual_size in
    let run = origin_ranges_from m off stop left in
    let known =
      All-imp (IsKnown m left) P (IsKnown-orig_from_end m off m.orig_map) run
        (origin_ranges_from-IsKnown m left off stop) in
    All-if P (is_empty m.orig_map || len == 0) [] (if leb stop off then [] else run) tt
      (All-if P (leb stop off) [] run tt known)
