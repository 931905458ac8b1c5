-- ===== src/Replica/Overlay/Right.antt =====
-- src/core/ReplicaStore.cc: what `ReplicaView::read` gives when it answers true, and when it does.
use xrd_ucache.Base.{
  ℕ, zero, suc, ◌+◌, ◌-◌, ◌*◌, ◌/◌, ◌^◌, ◌≤◌, ◌<◌, ◌≡◌, refl, inl, inr, arith, Bool, true, false,
  ◌||◌, List, ◌==◌, if◌then◌else◌, add64, ltb, min, max, length, take, drop, Content, slice, blit,
  Bool-cases, sym, ap, ◌∙◌, take-slice-min, length-slice, blit-inside, blit-outside, clip-slice,
  get_or-slice,
}
use mathlib.Core.Path.{subst}
use native.Mathlib.Decide.{dec_lt}
use xrd_ucache.Replica.Overlay.{
  overlay_page, overlay_page_bytes, overlay_run_bytes, Reading, grow_run, verify_run,
  read_overlay_run, read_overlay_runs, read_overlay,
}
use xrd_ucache.Replica.Overlay.Checked.{IsGood, grow_run-bounds, run_answer, verify_run-IsGood}

-- Two steps that answer true both did.
then_right :
    (P : Reading → Type 0) (b : Bool) (step rest : Reading × Bool)
    → step.1 ≡ b
    → (step.1 ≡ true → rest.1 ≡ true → P rest.0)
    → (if b then rest else step).1 ≡ true
    → P (if b then rest else step).0
then_right P true step rest e f v = f e v
then_right P false step rest e f v = absurd (cc)

-- The second answer of a conditional whose test fails.
else_answer :
    (b : Bool) (first second : Reading × Bool)
    → b ≡ false
    → (if b then first else second).1 ≡ true
    → second.1 ≡ true
else_answer true first second e v = absurd (cc)
else_answer false first second e v = v

module _ (crc : List ℕ → ℕ) (io : ℕ → ℕ → ℕ) (tdata : Content) (tdata_bytes : ℕ)
    (crcs : List ℕ) where
  -- The buffer has the bytes of the request below an offset of the overlay.
  abbrev pub HasBelow : ℕ → ℕ → Content → Type 0
  HasBelow off top out = (x : ℕ) → off ≤ x → x < top → out (x - off) ≡ tdata x

  -- The copy of what arrived of a run to its part of the request.
  copied-HasBelow :
      (out : Content) (off start n k top : ℕ)
      → top ≤ start + n
      → start < top
      → n ≤ length (take k (slice tdata start n))
      → HasBelow off (min top start) out
      → HasBelow off top (
          blit out (max off start - off) (
            take
              (top - max off start)
              (drop (max off start - start) (take k (slice tdata start n)))))
  copied-HasBelow out off start n k top hi near long before x p q =
      let begins = max off start in
      let arrived = take-slice-min tdata start n k in
      let size = ap length arrived ∙ length-slice tdata start (min k n) in
      let all : min k n ≡ n = omega (arith, size) in
      let clip =
        ap (λ l. take (top - begins) (drop (begins - start) l))
          (arrived ∙ ap (slice tdata start) all)
        ∙ clip-slice tdata start n begins top (omega arith) hi in
      let count = length-slice tdata begins (top - begins) in
      let piece = slice tdata begins (top - begins) in
      rw clip (elim (dec_lt x begins) [
        | yes early ↦
            blit-outside out (begins - off) piece (x - off) (inl (omega arith))
            ∙ before x p (omega arith)
        | no late ↦
            let at : begins + (x - off - (begins - off)) ≡ x = omega arith in
            blit-inside out (begins - off) piece (x - off) (omega arith) (omega (arith, count))
            ∙ get_or-slice tdata begins (top - begins) (x - off - (begins - off)) (omega arith)
            ∙ ap tdata at
      ])

  -- A run that answers true.
  read_overlay_run-right :
      (off len rf rl : ℕ) (s : Reading)
      → rf ≤ rl
      → rl * overlay_page < off + len
      → off + len ≤ tdata_bytes
      → HasBelow off (min (off + len) (rf * overlay_page)) s.out
      → (read_overlay_run crc io tdata tdata_bytes crcs off len rf rl s).1 ≡ true
      → HasBelow off
          (min (off + len) (rl * overlay_page + overlay_page))
          (read_overlay_run crc io tdata tdata_bytes crcs off len rf rl s).0.out
        × ((j : ℕ) → rf ≤ j → j ≤ rl → IsGood crc io tdata tdata_bytes crcs j)
  unfolding read_overlay_run overlay_run_bytes overlay_page_bytes
  read_overlay_run-right off len rf rl s le in_span fits before v =
      let start = rf * overlay_page in
      let n = overlay_run_bytes tdata_bytes rf rl in
      let got = take (io start n) (slice tdata start n) in
      let count : rl + 1 - rf ≡ suc (rl - rf) = omega arith in
      let met =
        subst (λ r. verify_run crc io tdata tdata_bytes crcs r rf 0 got ≡ true) count
          (sym (run_answer crc io tdata tdata_bytes crcs off len rf rl s) ∙ v) in
      let (arrived, good) =
        verify_run-IsGood crc io tdata tdata_bytes crcs (rl - rf) start rf 0 (io start n) n
          (omega arith) (omega arith) met in
      let top = min (off + len) (start + n) in
      let copied =
        copied-HasBelow s.out off start n (io start n) top (omega arith) (omega arith)
          (omega (arith, arrived)) (λ x p q. before x p (omega arith)) in
      elim (Bool-cases (verify_run crc io tdata tdata_bytes crcs (rl + 1 - rf) rf 0 got)) [
        | inl c ↦ rw c (λ x p q. copied x p (omega arith), λ j p q. good j p (omega arith))
        | inr c ↦ absurd (cc)
      ]

  -- The request is served, and the pages from one on are good.
  abbrev Served : ℕ → ℕ → ℕ → ℕ → Reading → Type 0
  Served off len last rf s =
      HasBelow off (off + len) s.out
      × ((j : ℕ) → rf ≤ j → j ≤ last → IsGood crc io tdata tdata_bytes crcs j)

  -- The runs from a page on that answer true.
  read_overlay_runs-right :
      (fuel off len last rf : ℕ) (s : Reading)
      → last * overlay_page < off + len
      → off + len ≤ last * overlay_page + overlay_page
      → off + len ≤ tdata_bytes
      → rf ≤ last + 1
      → HasBelow off (min (off + len) (rf * overlay_page)) s.out
      → (read_overlay_runs crc io tdata tdata_bytes crcs off len last fuel rf s).1 ≡ true
      → HasBelow off
          (off + len)
          (read_overlay_runs crc io tdata tdata_bytes crcs off len last fuel rf s).0.out
        × ((j : ℕ) → rf ≤ j → j ≤ last → IsGood crc io tdata tdata_bytes crcs j)
  unfolding read_overlay_runs
  read_overlay_runs-right zero off len last rf s near ends fits le before v =
      let over : last < rf = ground (arith, v) in
      (λ x p q. before x p (omega arith), λ j p q. absurd (omega arith))
  read_overlay_runs-right (suc fuel) off len last rf s near ends fits le before v =
      let rl = grow_run tdata_bytes rf last (last - rf) rf in
      let step = read_overlay_run crc io tdata tdata_bytes crcs off len rf rl s in
      let rest =
        read_overlay_runs crc io tdata tdata_bytes crcs off len last fuel (rl + 1) step.0 in
      let P = Served off len last rf in
      let over_now : last < rf → P s =
        λ over. (λ x p q. before x p (omega arith), λ j p q. absurd (omega arith)) in
      let go_on : rf ≤ last → step.1 ≡ true → rest.1 ≡ true → P rest.0 =
        λ open_span first then_rest.
          let (lo, hi) = grow_run-bounds tdata_bytes rf last (last - rf) rf open_span in
          let (copied, good) =
            read_overlay_run-right off len rf rl s lo (omega arith) fits before first in
          let (all, more) =
            read_overlay_runs-right fuel off len last (rl + 1) step.0 near ends fits (omega arith)
              (λ x p q. copied x p (omega arith)) then_rest in
          (
            all,
            λ j p q. elim (dec_lt rl j) [
              | yes later ↦ more j (omega arith) q
              | no early ↦ good j p (omega arith)
            ],
          ) in
      elim (Bool-cases (ltb last rf)) [
        | inl c ↦ rw c (over_now (ground (arith, c)))
        | inr c ↦
            let ran : (if step.1 then rest else step).1 ≡ true =
              else_answer (ltb last rf) (s, true) (if step.1 then rest else step) c v in
            rw c (then_right P step.1 step rest refl (go_on (ground (arith, c))) ran)
      ]

  -- For 64-bit words, a read of at least one byte of the overlay that answers true has put the overlay's bytes of the whole
  -- request into the buffer, and every page that the request overlaps has on disk the checksum that
  -- the sidecar gives it.
  pub read_overlay_right :
      (off len : ℕ) (s : Reading)
      → off < 2 ^ 64
      → len < 2 ^ 64
      → 0 < len
      → (read_overlay crc io tdata tdata_bytes crcs off len s).1 ≡ true
      → ((i : ℕ)
          → i < len
          → (read_overlay crc io tdata tdata_bytes crcs off len s).0.out i ≡ tdata (off + i))
        × ((j : ℕ)
            → off < j * overlay_page + overlay_page
            → j * overlay_page < off + len
            → IsGood crc io tdata tdata_bytes crcs j)
  unfolding read_overlay
  read_overlay_right off len s word_off word_len some_len v =
      let first = off / overlay_page in
      let last = (off + len - 1) / overlay_page in
      let runs =
        read_overlay_runs crc io tdata tdata_bytes crcs off len last (last + 1 - first) first s in
      elim (Bool-cases (len == 0)) [
        | inl c ↦ absurd (ground (arith, c))
        | inr c ↦ elim (Bool-cases (ltb (add64 off len) off || ltb tdata_bytes (add64 off len))) [
          | inl d ↦ absurd (ground (arith, c, d, v))
          | inr d ↦
              let fits : off + len ≤ tdata_bytes = ground (arith, d, word_off, word_len) in
              let v' : runs.1 ≡ true = ground (arith, c, d, v) in
              let (all, good) =
                read_overlay_runs-right (last + 1 - first) off len last first s (omega arith)
                  (omega arith) fits (omega arith) (λ x p q. absurd (omega arith)) v' in
              let from_start : (i : ℕ) → i < len → runs.0.out i ≡ tdata (off + i) = λ i p.
                let at : off + i - off ≡ i = omega arith in
                subst (λ k. runs.0.out k ≡ tdata (off + i)) at
                  (all (off + i) (omega arith) (omega arith)) in
              rw (c, d) (from_start, λ j p q. good j (omega arith) (omega arith))
        ]
      ]
