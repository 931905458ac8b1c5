-- ===== src/Replica/Stitch/Loop.antt =====
-- src/core/ReplicaStore.cc: the loop of `ReplicaView::map`.
use xrd_ucache.Base.{
  ℕ, ◌+◌, ◌-◌, ◌^◌, ◌≤◌, ◌<◌, ◌≡◌, refl, inl, inr, arith, true, List, [], ◌∷◌, ◌++◌, none, some,
  add64, ltb, leb, All, Bool-cases, min, sym, ◌∙◌, ap, lt→ltb,
}
use mathlib.Core.Path.{subst}
use xrd_ucache.Replica.{
  Extent, ReplicaMeta, Seg, origin_seg, overlay_seg, from_end, hit, map_from, map_segments,
  is_sound,
}
use xrd_ucache.Replica.Sound.{IsWord, IsPlaced, IsOrdered, is_sound-IsOrdered}
use xrd_ucache.Replica.Stitch.{
  lookup, IsRight, Tiles, lookup-gap, lookup-cons_after, lookup-cons_inside, Remains,
  from_end-Remains, AllPast, from_end-IsOrdered, ordered-AllPast,
}

-- The segments tile the span and agree with the lookup.
pub record IsStitched (all : List Extent) (pos stop : ℕ) (segs : List Seg) : Type 0 where
  pub tiles : Tiles pos stop segs
  pub right : All (IsRight all) segs

IsStitched-none : (all : List Extent) (pos stop : ℕ) → pos ≡ stop → IsStitched all pos stop []
IsStitched-none all pos stop e = record { tiles = e; right = tt }

IsStitched-cons :
    (all : List Extent) (pos stop next : ℕ) (s : Seg) (segs : List Seg)
    → s.virt_off ≡ pos
    → next ≡ pos + s.len
    → IsRight all s
    → IsStitched all next stop segs
    → IsStitched all pos stop (s ∷ segs)
IsStitched-cons all pos stop next s segs at to r rest = record {
  tiles = (at, subst (λ n. Tiles n stop segs) to rest.tiles);
  right = (r, rest.right);
}

origin_seg-IsRight :
    (all : List Extent) (pos stop : ℕ)
    → pos < stop
    → ((x : ℕ) → pos ≤ x → x < stop → lookup x all ≡ none)
    → IsRight all (origin_seg pos (stop - pos))
origin_seg-IsRight all pos stop h gap = record {
  filled = omega arith;
  agrees = λ x p q. gap x p (omega arith);
}

-- One segment from the origin to the end.
IsStitched-origin :
    (all : List Extent) (pos stop : ℕ)
    → pos < stop
    → ((x : ℕ) → pos ≤ x → x < stop → lookup x all ≡ none)
    → IsStitched all pos stop (origin_seg pos (stop - pos) ∷ [])
IsStitched-origin all pos stop h gap =
    IsStitched-cons all pos stop stop (origin_seg pos (stop - pos)) [] refl (omega arith)
      (origin_seg-IsRight all pos stop h gap) (IsStitched-none all stop stop refl)

hit_lem :
    (pos stop : ℕ) (e : Extent)
    → add64 e.virt_off e.len ≡ e.virt_off + e.len
    → pos < min stop (e.virt_off + e.len)
    → hit pos stop e ≡ (
      overlay_seg pos (min stop (e.virt_off + e.len) - pos) (add64 e.tdata_off (pos - e.virt_off))
          ∷ [],
      min stop (e.virt_off + e.len),
    )
unfolding hit
hit_lem pos stop e exact h = rw (exact, lt→ltb pos (min stop (e.virt_off + e.len)) h) refl

-- The overlay segment of an extent that holds the offset.
overlay_seg-IsRight :
    (m : ReplicaMeta) (all l : List Extent) (e : Extent) (pos stop : ℕ)
    → m.tdata_bytes < 2 ^ 64
    → IsPlaced m 0 e
    → e.virt_off ≤ pos
    → pos < min stop (e.virt_off + e.len)
    → Remains pos stop (e ∷ l) all
    → IsRight all (
        overlay_seg pos
          (min stop (e.virt_off + e.len) - pos)
          (add64 e.tdata_off (pos - e.virt_off)))
overlay_seg-IsRight m all l e pos stop small p lo hi r =
    let stored = p.stored in
    record {
      filled = omega arith;
      agrees = λ x a b.
          let at : add64 e.tdata_off (pos - e.virt_off) + (x - pos)
              ≡ e.tdata_off + (x - e.virt_off) =
            omega arith in
          sym (r x a (omega arith))
          ∙ lookup-cons_inside e l x (omega arith) (omega arith)
          ∙ sym (ap some at);
    }

-- After an extent, the rest finds what all of them find.
Remains-rest :
    (all l : List Extent) (e : Extent) (pos stop : ℕ)
    → pos ≤ min stop (e.virt_off + e.len)
    → Remains pos stop (e ∷ l) all
    → Remains (min stop (e.virt_off + e.len)) stop l all
Remains-rest all l e pos stop h r x a b =
    sym (lookup-cons_after e l x (omega arith)) ∙ r x (omega arith) b

weaken :
    (m : ReplicaMeta) (prev_end : ℕ) (l : List Extent) → IsOrdered m prev_end l → IsOrdered m 0 l
weaken m prev_end [] o = tt
weaken m prev_end (e ∷ l) o =
    let first : IsPlaced m 0 e = record {
      filled = o.0.filled;
      after = omega arith;
      inside = o.0.inside;
      stored = o.0.stored;
      exact = o.0.exact;
    } in
    (first, o.1)

module _ (m : ReplicaMeta) (small : m.tdata_bytes < 2 ^ 64) (all : List Extent) (stop : ℕ) where
  -- The rest of the loop is right, wherever it starts.
  abbrev Goes : List Extent → Type 0
  Goes l =
      (pos : ℕ)
      → IsOrdered m 0 l
      → AllPast pos l
      → Remains pos stop l all
      → pos ≤ stop
      → IsStitched all pos stop (map_from pos stop l)

  -- From inside an extent.
  stitch_hit :
      (e : Extent) (l : List Extent)
      → Goes l
      → (begins : ℕ) → IsOrdered m 0 (e ∷ l)
      → e.virt_off ≤ begins
      → begins < min stop (e.virt_off + e.len)
      → Remains begins stop (e ∷ l) all
      → IsStitched all begins stop ((hit begins stop e).0 ++ map_from (hit begins stop e).1 stop l)
  stitch_hit e l goes begins o lo hi r =
      let next = min stop (e.virt_off + e.len) in
      let rest =
        goes next (weaken m (e.virt_off + e.len) l o.1)
          (ordered-AllPast m next (e.virt_off + e.len) l o.1 (omega arith))
          (Remains-rest all l e begins stop (omega arith) r) (omega arith) in
      let seg = overlay_seg begins (next - begins) (add64 e.tdata_off (begins - e.virt_off)) in
      rw (hit_lem begins stop e o.0.exact hi) (
        IsStitched-cons all begins stop next seg (map_from next stop l) refl (omega arith)
          (overlay_seg-IsRight m all l e begins stop small o.0 lo hi r) rest)

  -- From the gap before an extent.
  stitch_gap :
      (e : Extent) (l : List Extent)
      → Goes l
      → (pos : ℕ) → IsOrdered m 0 (e ∷ l)
      → pos < e.virt_off
      → e.virt_off < stop
      → Remains pos stop (e ∷ l) all
      → IsStitched all pos stop (
          origin_seg pos (e.virt_off - pos)
          ∷ ((hit e.virt_off stop e).0 ++ map_from (hit e.virt_off stop e).1 stop l))
  stitch_gap e l goes pos o lo hi r =
      let filled = o.0.filled in
      let seg = origin_seg pos (e.virt_off - pos) in
      let clear = λ (x : ℕ) (p : pos ≤ x) (q : x < e.virt_off).
        sym (r x p (omega arith)) ∙ lookup-gap m e l 0 x o q in
      IsStitched-cons all pos stop e.virt_off seg
        ((hit e.virt_off stop e).0 ++ map_from (hit e.virt_off stop e).1 stop l) refl (omega arith)
        (origin_seg-IsRight all pos e.virt_off lo clear)
        (stitch_hit e l goes e.virt_off o (omega arith) (omega arith)
          (λ x p k. r x (omega arith) k))

  pub map_from-IsStitched : (l : List Extent) → Goes l
  unfolding map_from lookup
  map_from-IsStitched [] pos o past r le = elim (Bool-cases (ltb pos stop)) [
    | inl c ↦ rw c (IsStitched-origin all pos stop (ground arith) (λ x p q. sym (r x p q)))
    | inr c ↦ rw c (IsStitched-none all pos stop (ground arith))
  ]
  map_from-IsStitched (e ∷ l) pos o past r le =
      let goes = map_from-IsStitched l in
      let none_before : (x : ℕ) → pos ≤ x → x < e.virt_off → x < stop → lookup x all ≡ none =
        λ x p q k. sym (r x p k) ∙ lookup-gap m e l 0 x o q in
      let filled = o.0.filled in
      let ahead = past.0 in
      elim (Bool-cases (ltb pos stop)) [
        | inr c ↦ rw c (IsStitched-none all pos stop (ground arith))
        | inl c ↦ elim (Bool-cases (leb stop e.virt_off)) [
          | inl d ↦
              let clear =
                λ (x : ℕ) (p : pos ≤ x) (q : x < stop). none_before x p (ground arith) q in
              rw (c, d) (IsStitched-origin all pos stop (ground arith) clear)
          | inr d ↦ elim (Bool-cases (ltb pos e.virt_off)) [
            | inl g ↦ rw (c, d, g) (stitch_gap e l goes pos o (ground arith) (ground arith) r)
            | inr g ↦ rw (c, d, g) (stitch_hit e l goes pos o (ground arith) (ground arith) r)
          ]
        ]
      ]

-- For a map that passes the structural checks, of 64-bit words, the segments of a request that begins
-- inside the virtual file and does not wrap follow one another without gaps from its offset to its
-- end or the file's, none is empty, and each of their offsets is served from where a lookup in the
-- extents finds it: from its place in the overlay, or from the origin when no extent has it.
pub map_segments-IsStitched :
    (m : ReplicaMeta) (off len : ℕ)
    → is_sound m ≡ true
    → All IsWord m.extents
    → m.tdata_bytes < 2 ^ 64
    → off < m.virtual_size
    → 0 < len
    → off + len < 2 ^ 64
    → IsStitched m.extents off (min (off + len) m.virtual_size) (map_segments m off len)
unfolding map_segments
map_segments-IsStitched m off len sound words small inside some_len fits =
    let o = is_sound-IsOrdered m sound words in
    let stop = min (off + len) m.virtual_size in
    let (left, past) = from_end-IsOrdered m off 0 m.extents o in
    let run =
      map_from-IsStitched m small m.extents stop (from_end off m.extents) off left past
        (from_end-Remains m off stop 0 m.extents o) (omega arith) in
    let exact : add64 off len ≡ off + len = omega arith in
    elim (Bool-cases (leb m.virtual_size off)) [
      | inl c ↦ absurd (ground arith)
      | inr c ↦ elim (Bool-cases (leb stop off)) [
        | inl d ↦ absurd (ground arith)
        | inr d ↦ rw (exact, c, d) run
      ]
    ]
