-- ===== src/Entry/Read/Verify.antt =====
-- src/core/FileEntry.cc: what a run that `readVerifyRun` accepts has brought.
use xrd_ucache.Base.{
  ℕ, zero, suc, ◌+◌, ◌-◌, ◌*◌, ◌≤◌, ◌<◌, ◌≡◌, refl, sym, ap, ◌∙◌, ◌⊎◌, inl, inr, Bool, true, false,
  List, [], ◌∷◌, Content, slice, blit, arith, if◌then◌else◌, min, max, take, drop, length,
  length-slice, take-slice-min, clip-slice, slice_ext, mul_mono,
}
use mathlib.Core.Path.{subst}
use xrd_ucache.Sidecar.{MetaData, npages, page_bytes}
use xrd_ucache.Entry.{Entry}
use xrd_ucache.Entry.Intact.Runs.{page_bytes-whole}
use xrd_ucache.Entry.Read.{
  DiskReads, Run, Plan, pread, run_bytes, verify_pages, read_run, read_runs,
}
use xrd_ucache.Entry.Read.Runs.{IsRight, blit-IsRight, IsSound, AreSound, InRuns}

module _ (crc : List ℕ → ℕ) (io : DiskReads) where
  -- Accepting changes nothing of the entry.
  entry-verify_pages :
      (rounds i at : ℕ) (got expect : List ℕ) (e : Entry)
      → (verify_pages crc io rounds i at got expect e).1 ≡ true
      → (verify_pages crc io rounds i at got expect e).0 ≡ e
  unfolding verify_pages
  entry-verify_pages zero i at got expect e h = refl
  entry-verify_pages (suc rounds) i at got expect e h =
      ground (
        arith,
        h,
        entry-verify_pages rounds (i + 1) (at + page_bytes e.meta i) got (drop 1 expect) e,
      )

  -- The first page that is accepted has arrived, and the others are accepted.
  verify_pages-next :
      (rounds i at : ℕ) (got expect : List ℕ) (e : Entry)
      → (verify_pages crc io (suc rounds) i at got expect e).1 ≡ true
      → (at + page_bytes e.meta i ≤ length got)
        × ((verify_pages crc io rounds (i + 1) (at + page_bytes e.meta i) got (drop 1 expect) e).1
            ≡ true)
  unfolding verify_pages
  verify_pages-next rounds i at got expect e ok = ground (arith, ok)

  -- What is accepted has arrived whole.
  length-verify_pages :
      (rounds i last at : ℕ) (got expect : List ℕ) (e : Entry)
      → 0 < e.meta.page_size
      → last ≡ i + rounds
      → last < npages e.meta
      → (verify_pages crc io (suc rounds) i at got expect e).1 ≡ true
      → at + run_bytes e.meta i last ≤ length got
  unfolding run_bytes
  length-verify_pages zero i last at got expect e pos l h ok =
      let same : i ≡ last = omega arith in
      let here = verify_pages-next zero i at got expect e ok in
      subst (λ k. at + run_bytes e.meta i k ≤ length got) same (omega (arith, here.0))
  length-verify_pages (suc rounds) i last at got expect e pos l h ok =
      let here = verify_pages-next (suc rounds) i at got expect e ok in
      omega (
        arith,
        here.0,
        length-verify_pages rounds (i + 1) last (at + page_bytes e.meta i) got (drop 1 expect) e pos
            (omega arith) h here.1,
        page_bytes-whole e.meta i pos (omega arith),
        mul_mono (i + 1) last e.meta.page_size (omega arith),
      )

-- Of two parts in a row, the second only after the first.
pub both_accepted :
    (a b : Plan × Bool) → (if a.1 then b else a).1 ≡ true → (a.1 ≡ true) × (b.1 ≡ true)
both_accepted (p, true) b h = (refl, h)
both_accepted (p, false) b h = absurd (cc)

pub second_part : (a b : Plan × Bool) → a.1 ≡ true → (if a.1 then b else a) ≡ b
second_part (p, true) b h = refl
second_part (p, false) b h = absurd (cc)

module _ (crc : List ℕ → ℕ) (origin : Content) (io : DiskReads) (off len : ℕ) where
  -- What a whole read of a sound run brings.
  whole_read :
      (file : Content) (m : MetaData) (r : Run)
      → IsSound origin m file r
      → run_bytes m r.first_page r.last_page
        ≤ length (pread io file (r.first_page * m.page_size) (run_bytes m r.first_page r.last_page))
      → pread io file (r.first_page * m.page_size) (run_bytes m r.first_page r.last_page)
        ≡ slice origin (r.first_page * m.page_size) (run_bytes m r.first_page r.last_page)
  unfolding pread
  whole_read file m r s h =
      let start = r.first_page * m.page_size in
      let n = run_bytes m r.first_page r.last_page in
      let cut = take-slice-min file start n (io start n) in
      let full : min (io start n) n ≡ n =
        omega (arith, h, ap length cut, length-slice file start (min (io start n) n)) in
      cut ∙ ap (slice file start) full ∙ slice_ext file origin start n s.bytes

  -- A run that is accepted leaves the entry alone, keeps what is right of the caller's buffer, and
  -- makes its part of the request right.
  read_run_lem :
      (r : Run) (s : Plan) (x : ℕ)
      → 0 < s.entry.meta.page_size
      → IsSound origin s.entry.meta s.entry.data_file r
      → (read_run crc io off len r s).1 ≡ true
      → off ≤ x
      → x < off + len
      → IsRight origin off s.out x
        ⊎ ((r.first_page * s.entry.meta.page_size ≤ x)
            × (x
                < r.first_page * s.entry.meta.page_size
                  + run_bytes s.entry.meta r.first_page r.last_page))
      → ((read_run crc io off len r s).0.entry ≡ s.entry)
        × IsRight origin off (read_run crc io off len r s).0.out x
  unfolding read_run
  read_run_lem r s x pos sound ok lo hi w = (
    entry-verify_pages crc io rounds r.first_page 0 got expect s.entry ok,
    subst
        (λ l.
          IsRight origin off
            (blit s.out (begins - off) (take (to - begins) (drop (begins - start) l))) x)
        (sym brought)
        (rw clipped (
          blit-IsRight origin off s.out begins (to - begins) x (omega arith) lo
            (ground (arith, w)))),
  )
    where
      m : MetaData
      m = s.entry.meta

      start : ℕ
      start = r.first_page * m.page_size

      n : ℕ
      n = run_bytes m r.first_page r.last_page

      rounds : ℕ
      rounds = r.last_page + 1 - r.first_page

      got : List ℕ
      got = pread io s.entry.data_file start n

      expect : List ℕ
      expect = drop r.crc_base s.crcs

      begins : ℕ
      begins = max off start

      to : ℕ
      to = min (off + len) (start + n)

      one_more : rounds ≡ suc (r.last_page - r.first_page)
      one_more = omega (arith, sound.ordered)

      arrived : 0 + n ≤ length got
      arrived =
          length-verify_pages crc io (r.last_page - r.first_page) r.first_page r.last_page 0 got
            expect s.entry pos (omega (arith, sound.ordered)) sound.inside
            (subst (λ k. (verify_pages crc io k r.first_page 0 got expect s.entry).1 ≡ true)
              one_more ok)

      brought : got ≡ slice origin start n
      brought = whole_read s.entry.data_file m r sound (omega (arith, arrived))

      clipped :
          take (to - begins) (drop (begins - start) (slice origin start n))
          ≡ slice origin begins (to - begins)
      clipped = clip-slice origin start n begins to (omega arith) (omega arith)

  -- The first run of an accepted list is accepted, and so are the others after it.
  read_runs-next :
      (r : Run) (runs : List Run) (s : Plan)
      → (read_runs crc io off len (r ∷ runs) s).1 ≡ true
      → ((read_run crc io off len r s).1 ≡ true)
        × ((read_runs crc io off len runs ((read_run crc io off len r s).0)).1 ≡ true)
  unfolding read_runs
  read_runs-next r runs s ok = both_accepted _ _ ok

  pub entry-read_run :
      (r : Run) (s : Plan)
      → (read_run crc io off len r s).1 ≡ true
      → (read_run crc io off len r s).0.entry ≡ s.entry
  unfolding read_run
  entry-read_run r s ok = entry-verify_pages crc io _ r.first_page 0 _ _ s.entry ok

  -- The same of all runs.
  pub read_runs_lem :
      (runs : List Run) (s : Plan) (e : Entry) (x : ℕ)
      → s.entry ≡ e
      → 0 < e.meta.page_size
      → AreSound origin e.meta e.data_file runs
      → (read_runs crc io off len runs s).1 ≡ true
      → off ≤ x
      → x < off + len
      → IsRight origin off s.out x ⊎ InRuns origin e.meta e.data_file runs x
      → IsRight origin off (read_runs crc io off len runs s).0.out x
  unfolding read_runs
  read_runs_lem [] s e x same pos sound ok lo hi w = elim w [
    | inl right ↦ right
    | inr none_left ↦ absurd none_left
  ]
  read_runs_lem (r ∷ runs) s e x same pos sound ok lo hi w =
      let here = read_runs-next r runs s ok in
      let after = (read_run crc io off len r s).0 in
      let sound' : IsSound origin s.entry.meta s.entry.data_file r =
        subst (λ e. IsSound origin e.meta e.data_file r) (sym same) (sound.0) in
      let pos' : 0 < s.entry.meta.page_size =
        subst (λ (e : Entry). 0 < e.meta.page_size) (sym same) pos in
      let one : IsRight origin off s.out x
            ⊎ ((r.first_page * s.entry.meta.page_size ≤ x)
                × (x
                    < r.first_page * s.entry.meta.page_size
                      + run_bytes s.entry.meta r.first_page r.last_page))
          → IsRight origin off after.out x =
        λ h. (read_run_lem r s x pos' sound' here.0 lo hi h).1 in
      let left : IsRight origin off after.out x ⊎ InRuns origin e.meta e.data_file runs x = elim w [
        | inl right ↦ inl (one (inl right))
        | inr some_run ↦ elim some_run [
          | inl inside ↦ inl (
              one (
                inr (
                  subst
                    (λ (e : Entry).
                      (r.first_page * e.meta.page_size ≤ x)
                      × (x
                          < r.first_page * e.meta.page_size
                            + run_bytes e.meta r.first_page r.last_page))
                    (sym same) inside)))
          | inr later ↦ inr later
        ]
      ] in
      subst (λ (a : Plan × Bool). IsRight origin off (a.0.out) x) (sym (second_part _ _ here.0))
        (read_runs_lem runs after e x (entry-read_run r s here.0 ∙ same) pos sound.1 here.1 lo hi
          left)
