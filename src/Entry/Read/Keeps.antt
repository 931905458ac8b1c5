-- ===== src/Entry/Read/Keeps.antt =====
-- src/core/FileEntry.cc: a read keeps an entry intact, also when it takes pages back.
use xrd_ucache.Base.{
  ℕ, zero, suc, ◌+◌, ◌-◌, ◌*◌, ◌≤◌, ◌<◌, ◌≡◌, refl, sym, Bool, true, false, ◌||◌, not, List, [],
  ◌∷◌, Content, get_or, arith, ◌==◌, ltb, take, if◌then◌else◌, Bool-cases, inl, inr, length, drop,
  add64, word_limit, div_mul_bounds, lt_of_mul, ◌/◌,
}
use mathlib.Core.Path.{subst}
use xrd_ucache.Sidecar.{npages, page_bytes}
use xrd_ucache.Entry.{Entry, retract_page, touch_atime}
use xrd_ucache.Entry.Intact.{IsIntact, page_of_file}
use xrd_ucache.Entry.Intact.Flush.{rest-IsIntact}
use xrd_ucache.Entry.Intact.Steps.{touch_atime-IsIntact}
use xrd_ucache.Entry.Intact.Demote.{retract_page-IsIntact}
use xrd_ucache.Entry.Read.{
  DiskReads, Run, Plan, pread, demote_page, demote_bad_pages, verify_pages, read_run, read_runs,
  plan_page, plan_pages, answer, read_cached, move_pools,
}
use xrd_ucache.Entry.Read.Runs.{IsSound, AreSound}
use xrd_ucache.Entry.Read.Verify.{entry-read_run}
use xrd_ucache.Entry.Read.Planned.{
  IsPlanned, plan_page-IsPlanned, plan_pages-IsPlanned, meta-plan_page,
}

module _ (crc : List ℕ → ℕ) (origin : Content) (io : DiskReads) where
  demote_page-IsIntact :
      (i : ℕ) (e : Entry)
      → IsIntact crc origin e
      → i < npages e.meta
      → IsIntact crc origin (demote_page i e)
  unfolding demote_page
  demote_page-IsIntact i e v h =
      rest-IsIntact crc origin (retract_page e i) (retract_page-IsIntact crc origin e i v h)

  npages-demote_page : (i : ℕ) (e : Entry) → npages (demote_page i e).meta ≡ npages e.meta
  unfolding demote_page retract_page npages
  npages-demote_page i e = refl

  demote_bad_pages-IsIntact :
      (rounds i : ℕ) (expect : List ℕ) (e : Entry)
      → IsIntact crc origin e
      → i + rounds ≤ npages e.meta
      → IsIntact crc origin (demote_bad_pages crc io rounds i expect e)
  unfolding demote_bad_pages
  demote_bad_pages-IsIntact zero i expect e v h = v
  demote_bad_pages-IsIntact (suc rounds) i expect e v h = elim (Bool-cases bad) [
    | inl b ↦
        rw (b, demote_bad_pages)
          (demote_bad_pages-IsIntact rounds (i + 1) (drop 1 expect) (demote_page i e)
            (demote_page-IsIntact i e v (omega arith)) (omega (arith, npages-demote_page i e)))
    | inr b ↦
        rw (b, demote_bad_pages)
          (demote_bad_pages-IsIntact rounds (i + 1) (drop 1 expect) e v (omega arith))
  ]
    where
      page : List ℕ
      page = pread io e.data_file (i * e.meta.page_size) (page_bytes e.meta i)

      bad : Bool
      bad = not (length page == page_bytes e.meta i) || not (crc page == get_or expect 0 0)

  -- Checking a run keeps an intact entry intact, whichever pages it takes back.
  pub verify_pages-IsIntact :
      (rounds i at : ℕ) (got expect : List ℕ) (e : Entry)
      → IsIntact crc origin e
      → i + rounds ≤ npages e.meta
      → IsIntact crc origin ((verify_pages crc io rounds i at got expect e).0)
  unfolding verify_pages
  verify_pages-IsIntact zero i at got expect e v h = v
  verify_pages-IsIntact (suc rounds) i at got expect e v h =
      let n = page_bytes e.meta i in
      elim (Bool-cases (ltb (length got) (at + n))) [
        | inl short ↦
            rw (short, verify_pages) (demote_bad_pages-IsIntact (suc rounds) i expect e v h)
        | inr whole ↦ elim (Bool-cases (crc (take n (drop at got)) == get_or expect 0 0)) [
          | inl good ↦
              rw (whole, good, verify_pages)
                (verify_pages-IsIntact rounds (i + 1) (at + n) got (drop 1 expect) e v
                  (omega arith))
          | inr bad ↦ rw (whole, bad, verify_pages) (demote_page-IsIntact i e v (omega arith))
        ]
      ]

  read_run-IsIntact :
      (off len : ℕ) (r : Run) (s : Plan)
      → IsIntact crc origin s.entry
      → IsSound origin s.entry.meta s.entry.data_file r
      → IsIntact crc origin ((read_run crc io off len r s).0.entry)
  unfolding read_run
  read_run-IsIntact off len r s v sound =
      verify_pages-IsIntact (r.last_page + 1 - r.first_page) r.first_page 0 _ _ s.entry v
        (omega (arith, sound.ordered, sound.inside))

  read_runs-IsIntact :
      (off len : ℕ) (runs : List Run) (s : Plan)
      → IsIntact crc origin s.entry
      → AreSound origin s.entry.meta s.entry.data_file runs
      → IsIntact crc origin ((read_runs crc io off len runs s).0.entry)
  unfolding read_runs
  read_runs-IsIntact off len [] s v sound = v
  read_runs-IsIntact off len (r ∷ runs) s v sound =
      let step = read_run crc io off len r s in
      let kept = read_run-IsIntact off len r s v sound.0 in
      elim (Bool-cases (step.1)) [
        | inr refused ↦ rw (refused, read_runs) kept
        | inl accepted ↦
            let same = entry-read_run crc origin io off len r s accepted in
            rw (accepted, read_runs)
              (read_runs-IsIntact off len runs (step.0) kept
                (subst (λ (e : Entry). AreSound origin e.meta e.data_file runs) (sym same) sound.1))
      ]

  plan_page-kept :
      (off len : ℕ) (account : Bool) (i : ℕ) (s : Plan)
      → (plan_page off len account i s).1 ≡ false
      → (plan_page off len account i s).0 ≡ s
  unfolding plan_page
  plan_page-kept off len account i s absent = ground (arith, absent)

  -- The plan, whole or broken off at an absent page.
  plan_pages-IsIntact :
      (off len : ℕ) (account : Bool) (rounds i : ℕ) (s : Plan)
      → i + rounds ≤ npages s.entry.meta
      → IsPlanned crc origin off len i s
      → IsIntact crc origin ((plan_pages off len account rounds i s).0.entry)
  unfolding plan_pages
  plan_pages-IsIntact off len account zero i s h v = v.intact
  plan_pages-IsIntact off len account (suc rounds) i s h v =
      let step = plan_page off len account i s in
      elim (Bool-cases (step.1)) [
        | inr absent ↦
            rw (absent, plan_pages)
              (subst (λ (t : Plan). IsIntact crc origin t.entry)
                (sym (plan_page-kept off len account i s absent)) v.intact)
        | inl here ↦
            rw (here, plan_pages)
              (plan_pages-IsIntact off len account rounds (i + 1) (step.0)
                (rw (meta-plan_page crc origin off len account i s) (omega arith))
                (plan_page-IsPlanned crc origin off len account i s (omega arith) v here))
      ]

  -- Serving the plan's runs, which every planned page is in.
  answer-IsIntact :
      (off len : ℕ) (account : Bool) (out : Content) (e : Entry)
      → IsIntact crc origin e
      → 0 < len
      → off + len ≤ e.meta.file_size
      → IsIntact crc origin ((answer crc io off len account out e).0.entry)
  unfolding answer
  answer-IsIntact off len account out e v some_byte inside = elim (Bool-cases (planned.1)) [
    | inr absent ↦
        rw (absent, answer) (plan_pages-IsIntact off len account _ first begin fits first_ok)
    | inl here ↦
        let w =
          plan_pages-IsPlanned crc origin off len account (last + 1 - first) first begin fits
            first_ok here in
        rw (here, answer) (read_runs-IsIntact off len (planned.0.runs) (planned.0) w.intact w.sound)
  ]
    where
      first : ℕ
      first = off / e.meta.page_size

      last : ℕ
      last = (off + len - 1) / e.meta.page_size

      begin : Plan
      begin = record { entry = e; out = out; spec_served = 0; runs = []; crcs = [] }

      planned : Plan × Bool
      planned = plan_pages off len account (last + 1 - first) first begin

      low : (first * e.meta.page_size ≤ off) × (off < first * e.meta.page_size + e.meta.page_size)
      low = div_mul_bounds off e.meta.page_size v.page

      after :
          (last * e.meta.page_size ≤ off + len - 1)
          × (off + len - 1 < last * e.meta.page_size + e.meta.page_size)
      after = div_mul_bounds (off + len - 1) e.meta.page_size v.page

      order : first < last + 1
      order = lt_of_mul first (last + 1) e.meta.page_size (omega (arith, low, after))

      last_inside : last < npages e.meta
      last_inside = page_of_file e.meta last v.page (omega (arith, after))

      fits : first + (last + 1 - first) ≤ npages e.meta
      fits = omega (arith, order, last_inside)

      first_ok : IsPlanned crc origin off len first begin
      first_ok = record {
        intact = v;
        inside_file = inside;
        sound = tt;
        done = λ y p q r. absurd (omega (arith, low));
      }

  move_pools-IsIntact :
      (s : Plan) → IsIntact crc origin s.entry → IsIntact crc origin (move_pools s)
  unfolding move_pools
  move_pools-IsIntact s v = rest-IsIntact crc origin s.entry v

  moved-IsIntact :
      (now : ℕ) (due : Bool) (s : Plan)
      → IsIntact crc origin s.entry
      → IsIntact crc origin (if due then touch_atime now (move_pools s) else move_pools s)
  moved-IsIntact now true s v =
      touch_atime-IsIntact crc origin now (move_pools s) (move_pools-IsIntact s v)
  moved-IsIntact now false s v = move_pools-IsIntact s v

  -- A read keeps an intact entry, of a file that ends a page below 2 ^ 64, intact, whatever it answers:
  -- the pages that it takes back are only marked absent, and a prediction that it confirms becomes a
  -- demanded page.
  pub read_cached-IsIntact :
      (now off len : ℕ) (account : Bool) (out : Content) (e : Entry)
      → IsIntact crc origin e
      → off < word_limit
      → len < word_limit
      → IsIntact crc origin ((read_cached crc io now off len account out e).0)
  unfolding read_cached
  read_cached-IsIntact now off len account out e v a b = elim (Bool-cases (len == 0)) [
    | inl empty ↦ rw (empty, read_cached) v
    | inr some_byte ↦
        elim (Bool-cases (ltb (add64 off len) off || ltb e.meta.file_size (add64 off len))) [
          | inl outside ↦ rw (some_byte, outside, read_cached) v
          | inr inside ↦
              rw (some_byte, inside, read_cached)
                (moved-IsIntact now _ ((answer crc io off len account out e).0)
                  (answer-IsIntact off len account out e v (ground arith) (ground arith)))
        ]
  ]
