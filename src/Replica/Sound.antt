-- ===== src/Replica/Sound.antt =====
-- src/core/ReplicaFile.cc: what the structural checks of `deserialize` establish.
use xrd_ucache.Base.{ℕ, ◌+◌, ◌^◌, ◌≤◌, ◌<◌, ◌≡◌, arith, true, List, [], ◌∷◌, add64, All}
use xrd_ucache.Replica.{Extent, ReplicaMeta, sound_extents, is_sound}

-- The fields are 64-bit words.
pub record IsWord (e : Extent) : Type 0 where
  pub virt_off : e.virt_off < 2 ^ 64
  pub len : e.len < 2 ^ 64
  pub tdata_off : e.tdata_off < 2 ^ 64

-- One extent after `prev_end`, inside the virtual file and the overlay.
pub record IsPlaced (m : ReplicaMeta) (prev_end : ℕ) (e : Extent) : Type 0 where
  pub filled : 0 < e.len
  pub after : prev_end ≤ e.virt_off
  pub inside : e.virt_off + e.len ≤ m.virtual_size
  pub stored : e.tdata_off + e.len ≤ m.tdata_bytes
  pub exact : add64 e.virt_off e.len ≡ e.virt_off + e.len

-- Extents in order, not empty, disjoint.
abbrev pub IsOrdered : ReplicaMeta → ℕ → List Extent → Type 0
IsOrdered m prev_end [] = Unit
IsOrdered m prev_end (e ∷ l) = IsPlaced m prev_end e × IsOrdered m (e.virt_off + e.len) l

sound_extents-head :
    (m : ReplicaMeta) (prev_end : ℕ) (e : Extent) (l : List Extent)
    → sound_extents m prev_end (e ∷ l) ≡ true
    → IsWord e
    → IsPlaced m prev_end e × (sound_extents m (e.virt_off + e.len) l ≡ true)
unfolding sound_extents
sound_extents-head m prev_end e l h w =
    let v = w.virt_off in
    let n = w.len in
    let t = w.tdata_off in
    let exact : add64 e.virt_off e.len ≡ e.virt_off + e.len = ground (arith, h, v, n) in
    (
      record {
        filled = ground (arith, h);
        after = ground (arith, h);
        inside = ground (arith, h, exact);
        stored = ground (arith, h, t, n);
        exact = exact;
      },
      ground (arith, h, exact),
    )

pub sound_extents-IsOrdered :
    (m : ReplicaMeta) (prev_end : ℕ) (l : List Extent)
    → sound_extents m prev_end l ≡ true
    → All IsWord l
    → IsOrdered m prev_end l
sound_extents-IsOrdered m prev_end [] h w = tt
sound_extents-IsOrdered m prev_end (e ∷ l) h w =
    let (first, rest) = sound_extents-head m prev_end e l h w.0 in
    (first, sound_extents-IsOrdered m (e.virt_off + e.len) l rest w.1)

pub is_sound-IsOrdered :
    (m : ReplicaMeta) → is_sound m ≡ true → All IsWord m.extents → IsOrdered m 0 m.extents
unfolding is_sound
is_sound-IsOrdered m h w = sound_extents-IsOrdered m 0 m.extents (ground (arith, h)) w
