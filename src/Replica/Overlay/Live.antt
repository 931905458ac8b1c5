-- ===== src/Replica/Overlay/Live.antt =====
-- src/core/ReplicaStore.cc: `ReplicaView::read` serves what is intact on disk.
use xrd_ucache.Base.{
  ℕ, zero, suc, ◌+◌, ◌-◌, ◌*◌, ◌/◌, ◌^◌, ◌≤◌, ◌<◌, ◌≡◌, refl, inl, inr, arith, Bool, true, false,
  not, ◌||◌, List, ◌==◌, if◌then◌else◌, add64, ltb, min, length, take, drop, get_or, Content, slice,
  Bool-cases, ap, ◌∙◌, length-slice, length-take,
}
use mathlib.Core.Path.{subst}
use xrd_ucache.Replica.Overlay.{
  overlay_page, overlay_page_bytes, overlay_run_bytes, Reading, grow_run, verify_run,
  read_overlay_run, read_overlay_runs, read_overlay,
}
use xrd_ucache.Replica.Overlay.Checked.{IsGood, verify_run-page, run_answer, grow_run-bounds}

accept :
    (b c rest : Bool)
    → b ≡ false
    → c ≡ true
    → rest ≡ true
    → (if b || not c then false else rest) ≡ true
accept b c rest e f g = rw (e, f) g

if_true :
    (b : Bool) (rest step : Reading × Bool)
    → b ≡ true
    → rest.1 ≡ true
    → (if b then rest else step).1 ≡ true
if_true b rest step e f = rw e f

module _ (crc : List ℕ → ℕ) (io : ℕ → ℕ → ℕ) (tdata : Content) (tdata_bytes : ℕ) (crcs : List ℕ)
    (complete : (at n : ℕ) → n ≤ io at n) where
  -- A page that arrived whole and is good passes, if the rest of its run does.
  verify_run-pass :
      (rounds start i at n : ℕ)
      → start + at ≡ i * overlay_page
      → at + overlay_page_bytes tdata_bytes i ≤ n
      → IsGood crc io tdata tdata_bytes crcs i
      → verify_run crc io tdata tdata_bytes crcs rounds
          (i + 1)
          (at + overlay_page_bytes tdata_bytes i)
          (take (io start n) (slice tdata start n))
        ≡ true
      → verify_run crc io tdata tdata_bytes crcs
          (suc rounds)
          i
          at
          (take (io start n) (slice tdata start n))
        ≡ true
  unfolding verify_run
  verify_run-pass rounds start i at n e fits good rest =
      let k = io start n in
      let some_k = complete start n in
      let got = take k (slice tdata start n) in
      let whole = overlay_page_bytes tdata_bytes i in
      let count : length got ≡ n =
        length-take k (slice tdata start n)
        ∙ ap (min k) (length-slice tdata start n)
        ∙ omega arith in
      let long : at + whole ≤ length got = omega (arith, count) in
      let page = verify_run-page crc io tdata tdata_bytes crcs start i at k n e long in
      let same = ap crc page ∙ good in
      accept (ltb (length got) (at + whole)) (crc (take whole (drop at got)) == get_or crcs i 0)
        (verify_run crc io tdata tdata_bytes crcs rounds (i + 1) (at + whole) got)
        (ground (arith, long)) (ground (arith, same)) rest

  verify_run-live :
      (rounds start i at n : ℕ)
      → start + at ≡ i * overlay_page
      → (i + rounds) * overlay_page < tdata_bytes
      → n ≡ min ((i + rounds) * overlay_page + overlay_page) tdata_bytes - start
      → start ≤ i * overlay_page
      → ((j : ℕ) → i ≤ j → j ≤ i + rounds → IsGood crc io tdata tdata_bytes crcs j)
      → verify_run crc io tdata tdata_bytes crcs
          (suc rounds)
          i
          at
          (take (io start n) (slice tdata start n))
        ≡ true
  unfolding overlay_page_bytes
  verify_run-live zero start i at n e w size below good =
      verify_run-pass 0 start i at n e (omega arith) (good i (omega arith) (omega arith))
        (unfold verify_run in refl)
  verify_run-live (suc r) start i at n e w size below good =
      verify_run-pass (suc r) start i at n e (omega arith) (good i (omega arith) (omega arith)) (
        verify_run-live r start (i + 1) (at + overlay_page_bytes tdata_bytes i) n (omega arith)
          (omega arith) (omega arith) (omega arith) (λ j p q. good j (omega arith) (omega arith)))

  read_overlay_run-live :
      (off len rf rl : ℕ) (s : Reading)
      → rf ≤ rl
      → rl * overlay_page < tdata_bytes
      → ((j : ℕ) → rf ≤ j → j ≤ rl → IsGood crc io tdata tdata_bytes crcs j)
      → (read_overlay_run crc io tdata tdata_bytes crcs off len rf rl s).1 ≡ true
  unfolding overlay_run_bytes overlay_page_bytes
  read_overlay_run-live off len rf rl s le w good =
      let start = rf * overlay_page in
      let n = overlay_run_bytes tdata_bytes rf rl in
      let count : suc (rl - rf) ≡ rl + 1 - rf = omega arith in
      let met =
        verify_run-live (rl - rf) start rf 0 n (omega arith) (omega arith) (omega arith)
          (omega arith) (λ j p q. good j p (omega arith)) in
      run_answer crc io tdata tdata_bytes crcs off len rf rl s
      ∙ subst
          (λ r.
            verify_run crc io tdata tdata_bytes crcs r rf 0
              (take (io start n) (slice tdata start n))
            ≡ true)
          count met

  read_overlay_runs-live :
      (fuel off len last rf : ℕ) (s : Reading)
      → last < rf + fuel
      → last * overlay_page < tdata_bytes
      → ((j : ℕ) → rf ≤ j → j ≤ last → IsGood crc io tdata tdata_bytes crcs j)
      → (read_overlay_runs crc io tdata tdata_bytes crcs off len last fuel rf s).1 ≡ true
  unfolding read_overlay_runs
  read_overlay_runs-live zero off len last rf s enough w good = ground arith
  read_overlay_runs-live (suc fuel) off len last rf s enough w good =
      let rl = grow_run tdata_bytes rf last (last - rf) rf in
      let step = read_overlay_run crc io tdata tdata_bytes crcs off len rf rl s in
      let rest =
        read_overlay_runs crc io tdata tdata_bytes crcs off len last fuel (rl + 1) step.0 in
      elim (Bool-cases (ltb last rf)) [
        | inl c ↦ rw c refl
        | inr c ↦
            let open_span : rf ≤ last = ground (arith, c) in
            let (lo, hi) = grow_run-bounds tdata_bytes rf last (last - rf) rf open_span in
            let first =
              read_overlay_run-live off len rf rl s lo (omega arith)
                (λ j p q. good j p (omega arith)) in
            let others =
              read_overlay_runs-live fuel off len last (rl + 1) step.0 (omega arith) w
                (λ j p q. good j (omega arith) q) in
            rw c (if_true step.1 rest step first others)
      ]

  -- When disk reads bring what they are asked for, a read of at least one byte inside the overlay,
  -- each page of which has its checksum on disk, ends and answers true.
  pub read_overlay_live :
      (off len : ℕ) (s : Reading)
      → 0 < len
      → off + len ≤ tdata_bytes
      → tdata_bytes < 2 ^ 64
      → ((j : ℕ)
          → off < j * overlay_page + overlay_page
          → j * overlay_page < off + len
          → IsGood crc io tdata tdata_bytes crcs j)
      → (read_overlay crc io tdata tdata_bytes crcs off len s).1 ≡ true
  unfolding read_overlay
  read_overlay_live off len s some_len fits word good =
      let first = off / overlay_page in
      let last = (off + len - 1) / overlay_page in
      let runs =
        read_overlay_runs-live (last + 1 - first) off len last first s (omega arith) (omega arith)
          (λ j p q. good j (omega arith) (omega arith)) in
      elim (Bool-cases (len == 0)) [
        | inl c ↦ absurd (ground (arith, c))
        | inr c ↦ elim (Bool-cases (ltb (add64 off len) off || ltb tdata_bytes (add64 off len))) [
          | inl d ↦ absurd (ground (arith, d))
          | inr d ↦ rw (c, d) runs
        ]
      ]
