-- ===== src/Replica/Tests.antt =====
-- A replica with two extents, one past the end of the origin, and an overlay of one page.
use xrd_ucache.Base.{
  ℕ, ◌+◌, ◌*◌, ◌<◌, ◌≡◌, refl, arith, Bool, true, false, List, [], ◌∷◌, All, min, Content, slice,
  get_or,
}
use mathlib.Core.Path.{subst}
use xrd_ucache.Replica.{ReplicaMeta, is_sound, map_segments, origin_seg, overlay_seg, origin_ranges}
use xrd_ucache.Replica.Sound.{IsWord}
use xrd_ucache.Replica.Stitch.Loop.{IsStitched, map_segments-IsStitched}
use xrd_ucache.Replica.Ranges.{IsKnown, origin_ranges-IsKnown}
use xrd_ucache.Replica.Overlay.{Reading, overlay_page, overlay_page_bytes, read_overlay}
use xrd_ucache.Replica.Overlay.Checked.{IsGood}
use xrd_ucache.Replica.Overlay.Right.{read_overlay_right}
use xrd_ucache.Replica.Overlay.Live.{read_overlay_live}

abbrev stitched : ReplicaMeta
stitched = record {
  origin_size = 100;
  virtual_size = 140;
  tdata_bytes = 50;
  extents =
      record { virt_off = 10; len = 10; tdata_off = 0 }
      ∷ record { virt_off = 100; len = 40; tdata_off = 10 }
      ∷ [];
  superseded = record { off = 30; len = 20 } ∷ [];
  orig_map = record { virt_off = 100; len = 40; orig_off = 30; orig_len = 20 } ∷ [];
}

stitched_sound : is_sound stitched ≡ true
unfolding is_sound
stitched_sound = refl

maps_gap_and_hits :
    map_segments stitched 5 100
    ≡ origin_seg 5 5 ∷ overlay_seg 10 10 0 ∷ origin_seg 20 80 ∷ overlay_seg 100 5 10 ∷ []
unfolding map_segments
maps_gap_and_hits = refl

reports_origin :
    origin_ranges stitched 90 20
    ≡ record { off = 90; len = 10 } ∷ record { off = 30; len = 20 } ∷ []
unfolding origin_ranges
reports_origin = refl

-- An extent that begins inside the one before it.
refuses_overlap :
    is_sound (record stitched {
      extents =
          record { virt_off = 10; len = 10; tdata_off = 0 }
          ∷ record { virt_off = 15; len = 10; tdata_off = 10 }
          ∷ [];
    })
    ≡ false
unfolding is_sound
refuses_overlap = refl

stitched-IsWord : All IsWord stitched.extents
stitched-IsWord = (
  record { virt_off = omega arith; len = omega arith; tdata_off = omega arith },
  (record { virt_off = omega arith; len = omega arith; tdata_off = omega arith }, tt),
)

map_segments-IsStitched_example :
    IsStitched stitched.extents 5 (min (5 + 100) 140) (map_segments stitched 5 100)
map_segments-IsStitched_example =
    map_segments-IsStitched stitched 5 100 stitched_sound stitched-IsWord (omega arith)
      (omega arith) (omega arith) (omega arith)

-- The checksum of a page is its first byte, and the byte at each offset is the offset.
abbrev first_byte : List ℕ → ℕ
first_byte l = get_or l 0 0

abbrev offsets : Content
offsets x = x

abbrev whole_reads : ℕ → ℕ → ℕ
whole_reads at n = n

abbrev fresh_reading : Reading
fresh_reading = record {
  view = record { invalid = false; crc_failures = 0; reads = 0; read_bytes = 0 };
  out = λ x. 0;
}

abbrev answer : Reading × Bool
answer = read_overlay first_byte whole_reads offsets 3 (0 ∷ []) 1 2 fresh_reading

answers_true : answer.1 ≡ true
unfolding read_overlay slice
answers_true = refl

read_overlay_right_example :
    ((i : ℕ) → i < 2 → answer.0.out i ≡ offsets (1 + i))
    × ((j : ℕ)
        → 1 < j * overlay_page + overlay_page
        → j * overlay_page < 1 + 2
        → IsGood first_byte whole_reads offsets 3 (0 ∷ []) j)
read_overlay_right_example =
    read_overlay_right first_byte whole_reads offsets 3 (0 ∷ []) 1 2 fresh_reading (omega arith)
      (omega arith) (omega arith) answers_true

first_page-IsGood : IsGood first_byte whole_reads offsets 3 (0 ∷ []) 0
unfolding overlay_page_bytes slice
first_page-IsGood = refl

only_page :
    (j : ℕ)
    → 1 < j * overlay_page + overlay_page
    → j * overlay_page < 1 + 2
    → IsGood first_byte whole_reads offsets 3 (0 ∷ []) j
only_page j p q =
    let zeroth : 0 ≡ j = omega arith in
    subst (IsGood first_byte whole_reads offsets 3 (0 ∷ [])) zeroth first_page-IsGood

read_overlay_live_example : answer.1 ≡ true
read_overlay_live_example =
    read_overlay_live first_byte whole_reads offsets 3 (0 ∷ []) (λ at n. omega arith) 1 2
      fresh_reading (omega arith) (omega arith) (omega arith) only_page

origin_ranges-IsKnown_example :
    All (IsKnown stitched stitched.orig_map) (origin_ranges stitched 90 20)
origin_ranges-IsKnown_example = origin_ranges-IsKnown stitched 90 20
