-- ===== src/Replica/Overlay.antt =====
-- src/core/ReplicaFile.h, src/core/ReplicaStore.cc: the overlay's pages and `ReplicaView::read`. How
-- many bytes each disk read brings is a parameter, as is the checksum (crc32c). A run that lies inside
-- the request is read straight into the caller's buffer, also when it then fails its checks.
pub mod Checked
pub mod Right
pub mod Live
use xrd_ucache.Base.{
  ℕ, zero, suc, ◌+◌, ◌-◌, ◌*◌, ◌/◌, ◌^◌, Bool, true, false, not, ◌&&◌, ◌||◌, List, [], ◌∷◌, ◌==◌,
  if◌then◌else◌, add64, ltb, leb, min, max, length, take, drop, get_or, Content, slice, blit,
}

abbrev pub overlay_page : ℕ
overlay_page = 65536

abbrev pub max_coalesced : ℕ
max_coalesced = 1048576

unfoldable pub overlay_npages : ℕ → ℕ
overlay_npages tdata_bytes = add64 tdata_bytes (overlay_page - 1) / overlay_page

unfoldable pub overlay_page_bytes : ℕ → ℕ → ℕ
overlay_page_bytes tdata_bytes i =
    min (i * overlay_page + overlay_page) tdata_bytes - i * overlay_page

unfoldable pub overlay_run_bytes : ℕ → ℕ → ℕ → ℕ
unfolding overlay_page_bytes
overlay_run_bytes tdata_bytes first last =
    last * overlay_page + overlay_page_bytes tdata_bytes last - first * overlay_page

-- The members of a view that a read changes, with the store's counters.
pub record View : Type 0 where
  pub invalid : Bool
  pub crc_failures : ℕ
  pub reads : ℕ
  pub read_bytes : ℕ

-- A view and the caller's buffer.
pub record Reading : Type 0 where
  pub view : View
  pub out : Content

-- The end of the run that begins at a page, with `rounds` pages after it.
unfoldable pub grow_run : ℕ → ℕ → ℕ → ℕ → ℕ → ℕ
unfolding overlay_run_bytes
grow_run tdata_bytes first last zero rl = rl
grow_run tdata_bytes first last (suc rounds) rl =
    let more = grow_run tdata_bytes first last rounds (rl + 1) in
    if ltb rl last && leb (overlay_run_bytes tdata_bytes first (rl + 1)) max_coalesced
    then more
    else rl

abbrev fail : View → View
fail v = record v { crc_failures = add64 v.crc_failures 1; invalid = true }

module _ (crc : List ℕ → ℕ) (io : ℕ → ℕ → ℕ) (tdata : Content) (tdata_bytes : ℕ)
    (crcs : List ℕ) where
  -- The checks of a run from page i on, `at` bytes into what arrived.
  unfoldable pub verify_run : ℕ → ℕ → ℕ → List ℕ → Bool
  unfolding overlay_page_bytes
  verify_run zero i at got = true
  verify_run (suc rounds) i at got =
      let n = overlay_page_bytes tdata_bytes i in
      let rest = verify_run rounds (i + 1) (at + n) got in
      if ltb (length got) (at + n) || not (crc (take n (drop at got)) == get_or crcs i 0)
      then false
      else rest

  -- One run: read, verified, counted and copied to its part of the request.
  unfoldable pub read_overlay_run : ℕ → ℕ → ℕ → ℕ → Reading → Reading × Bool
  unfolding verify_run overlay_run_bytes
  read_overlay_run off len rf rl s =
      let start = rf * overlay_page in
      let n = overlay_run_bytes tdata_bytes rf rl in
      let got = take (io start n) (slice tdata start n) in
      let begins = max off start in
      let to = min (off + len) (start + n) in
      let v = s.view in
      if verify_run (rl + 1 - rf) rf 0 got
      then (
        record {
          view = record v { reads = add64 v.reads 1; read_bytes = add64 v.read_bytes n };
          out = blit s.out (begins - off) (take (to - begins) (drop (begins - start) got));
        },
        true,
      )
      else (
        record {
          view = fail v;
          out =
              if leb off start && leb (start + n) (off + len)
              then blit s.out (start - off) got
              else s.out;
        },
        false,
      )

  -- The runs from page rf on.
  unfoldable pub read_overlay_runs : ℕ → ℕ → ℕ → ℕ → ℕ → Reading → Reading × Bool
  unfolding read_overlay_run grow_run
  read_overlay_runs off len last zero rf s = (s, ltb last rf)
  read_overlay_runs off len last (suc fuel) rf s =
      let rl = grow_run tdata_bytes rf last (last - rf) rf in
      let step = read_overlay_run off len rf rl s in
      let rest = read_overlay_runs off len last fuel (rl + 1) step.0 in
      if ltb last rf then (s, true) else if step.1 then rest else step

  -- `ReplicaView::read`.
  unfoldable pub read_overlay : ℕ → ℕ → Reading → Reading × Bool
  unfolding read_overlay_runs
  read_overlay off len s =
      let first = off / overlay_page in
      let last = (off + len - 1) / overlay_page in
      let v = s.view in
      if len == 0
      then (s, true)
      else if ltb (add64 off len) off || ltb tdata_bytes (add64 off len)
      then (record s { view = record v { invalid = true } }, false)
      else read_overlay_runs off len last (last + 1 - first) first s
