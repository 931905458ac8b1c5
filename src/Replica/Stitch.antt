-- ===== src/Replica/Stitch.antt =====
-- src/core/ReplicaStore.cc: `ReplicaView::map` against a lookup of each offset.
pub mod Loop
use xrd_ucache.Base.{
  ℕ, zero, suc, ◌+◌, ◌-◌, ◌^◌, ◌≤◌, ◌<◌, ◌≡◌, refl, ◌⊎◌, inl, inr, arith, Bool, true, false, not,
  ◌&&◌, List, [], ◌∷◌, ◌++◌, Option, none, some, if◌then◌else◌, add64, ltb, leb, All, Bool-cases,
  min, sym, ◌∙◌,
}
use native.Mathlib.Decide.{dec_lt}
use xrd_ucache.Replica.{
  Extent, ReplicaMeta, Seg, origin_seg, overlay_seg, from_end, hit, map_from, map_segments,
  is_sound,
}
use xrd_ucache.Replica.Sound.{IsWord, IsPlaced, IsOrdered, is_sound-IsOrdered}

-- Where an offset of the virtual file is in the overlay.
unfoldable pub lookup : ℕ → List Extent → Option ℕ
lookup x [] = none
lookup x (e ∷ l) =
    let rest = lookup x l in
    if leb e.virt_off x && ltb x (e.virt_off + e.len)
    then some (e.tdata_off + (x - e.virt_off))
    else rest

-- A segment agrees with the lookup at each of its offsets.
abbrev pub expected : Seg → ℕ → Option ℕ
expected s x = if s.overlay then some (s.tdata_off + (x - s.virt_off)) else none

pub record IsRight (all : List Extent) (s : Seg) : Type 0 where
  pub filled : 0 < s.len
  pub agrees : (x : ℕ) → s.virt_off ≤ x → x < s.virt_off + s.len → lookup x all ≡ expected s x

-- The segments follow one another from `pos` to `stop`.
abbrev pub Tiles : ℕ → ℕ → List Seg → Type 0
Tiles pos stop [] = pos ≡ stop
Tiles pos stop (s ∷ l) = (s.virt_off ≡ pos) × Tiles (pos + s.len) stop l

lookup-before :
    (m : ReplicaMeta) (prev_end x : ℕ) (l : List Extent)
    → IsOrdered m prev_end l
    → x < prev_end
    → lookup x l ≡ none
unfolding lookup
lookup-before m prev_end x [] o h = refl
lookup-before m prev_end x (e ∷ l) o h =
    let after = o.0.after in
    let filled = o.0.filled in
    ground (arith, h, after, lookup-before m (e.virt_off + e.len) x l o.1 (omega arith))

pub lookup-cons_after :
    (e : Extent) (l : List Extent) (x : ℕ) → e.virt_off + e.len ≤ x → lookup x (e ∷ l) ≡ lookup x l
unfolding lookup
lookup-cons_after e l x h = ground (arith, h)

pub lookup-cons_inside :
    (e : Extent) (l : List Extent) (x : ℕ)
    → e.virt_off ≤ x
    → x < e.virt_off + e.len
    → lookup x (e ∷ l) ≡ some (e.tdata_off + (x - e.virt_off))
unfolding lookup
lookup-cons_inside e l x h k = ground (arith, h, k)

-- Before the next extent begins there is nothing to find.
pub lookup-gap :
    (m : ReplicaMeta) (e : Extent) (l : List Extent) (prev_end x : ℕ)
    → IsOrdered m prev_end (e ∷ l)
    → x < e.virt_off
    → lookup x (e ∷ l) ≡ none
unfolding lookup
lookup-gap m e l prev_end x o h =
    let filled = o.0.filled in
    ground (arith, h, lookup-before m (e.virt_off + e.len) x l o.1 (omega arith))

-- What is left of the extents finds the same as all of them from `pos` to `stop`.
abbrev pub Remains : ℕ → ℕ → List Extent → List Extent → Type 0
Remains pos stop l all = (x : ℕ) → pos ≤ x → x < stop → lookup x l ≡ lookup x all

pub from_end-Remains :
    (m : ReplicaMeta) (off stop prev_end : ℕ) (l : List Extent)
    → IsOrdered m prev_end l
    → Remains off stop (from_end off l) l
unfolding from_end
from_end-Remains m off stop prev_end [] o x h k = refl
from_end-Remains m off stop prev_end (e ∷ l) o x h k =
    let exact = o.0.exact in
    elim (Bool-cases (leb (add64 e.virt_off e.len) off)) [
      | inl c ↦
          let past : e.virt_off + e.len ≤ x = ground (arith, c, exact, h) in
          rw c (
            from_end-Remains m off stop (e.virt_off + e.len) l o.1 x h k
            ∙ sym (lookup-cons_after e l x past))
      | inr c ↦ rw c refl
    ]

-- The ends of what is left lie past the offset.
abbrev pub AllPast : ℕ → List Extent → Type 0
AllPast off l = All (λ e. off < e.virt_off + e.len) l

pub ordered-AllPast :
    (m : ReplicaMeta) (off prev_end : ℕ) (l : List Extent)
    → IsOrdered m prev_end l
    → off ≤ prev_end
    → AllPast off l
ordered-AllPast m off prev_end [] o h = tt
ordered-AllPast m off prev_end (e ∷ l) o h =
    let filled = o.0.filled in
    let after = o.0.after in
    (omega arith, ordered-AllPast m off (e.virt_off + e.len) l o.1 (omega arith))

pub from_end-IsOrdered :
    (m : ReplicaMeta) (off prev_end : ℕ) (l : List Extent)
    → IsOrdered m prev_end l
    → IsOrdered m 0 (from_end off l) × AllPast off (from_end off l)
unfolding from_end
from_end-IsOrdered m off prev_end [] o = (tt, tt)
from_end-IsOrdered m off prev_end (e ∷ l) o =
    let exact = o.0.exact in
    elim (Bool-cases (leb (add64 e.virt_off e.len) off)) [
      | inl c ↦ rw c (from_end-IsOrdered m off (e.virt_off + e.len) l o.1)
      | inr c ↦
          let past : off < e.virt_off + e.len = ground (arith, c, exact) in
          let first : IsPlaced m 0 e = record {
            filled = o.0.filled;
            after = omega arith;
            inside = o.0.inside;
            stored = o.0.stored;
            exact = exact;
          } in
          rw c
            ((first, o.1), (past, ordered-AllPast m off (e.virt_off + e.len) l o.1 (omega arith)))
    ]
