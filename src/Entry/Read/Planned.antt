-- ===== src/Entry/Read/Planned.antt =====
-- src/core/FileEntry.cc: the plan of `readCached`, which serves staged pages and collects disk runs.
use xrd_ucache.Base.{
  ℕ, zero, suc, ◌+◌, ◌-◌, ◌*◌, ◌≤◌, ◌<◌, ◌≡◌, refl, sym, ◌∙◌, ◌⊎◌, inl, inr, Bool, true, false,
  ◌&&◌, List, Content, blit, arith, if◌then◌else◌, Bool-cases, min, max, take, drop, ltb, length,
  clip-slice, none,
}
use mathlib.Core.Path.{subst}
use xrd_ucache.Base.PageMap.{find, assign}
use xrd_ucache.Base.PageMapLaws.{holds-find, Each-find, Each-assign, assign-SortedFrom}
use xrd_ucache.Bitmap
use xrd_ucache.Sidecar.{MetaData, npages, page_bytes}
use xrd_ucache.Entry.{Entry, BufPage}
use xrd_ucache.Entry.Intact.{IsGood, IsReal, IsIntact}
use xrd_ucache.Entry.Intact.Stage.{with_buf-IsIntact}
use xrd_ucache.Entry.Stage.{unmark_speculative}
use xrd_ucache.Entry.Read.{
  Plan, serve_staged, confirm, plan_disk, plan_page, plan_pages, unmark_flushing,
}
use xrd_ucache.Entry.Read.Runs.{
  IsRight, blit-IsRight, AreSound, InRuns, add_page-AreSound, add_page-InRuns,
}
use xrd_ucache.Entry.Read.Verify.{both_accepted, second_part}

in_page :
    (m : MetaData) (i x : ℕ)
    → i * m.page_size ≤ x
    → x < (i + 1) * m.page_size
    → x < m.file_size
    → x < i * m.page_size + page_bytes m i
unfolding page_bytes
in_page m i x lo hi inside = omega arith

module _ (crc : List ℕ → ℕ) (origin : Content) (off len : ℕ) where
  -- Before page i: what the request asks of the pages before it is right, or some run has it.
  pub record IsPlanned (i : ℕ) (s : Plan) : Type 0 where
    pub intact : IsIntact crc origin s.entry
    pub inside_file : off + len ≤ s.entry.meta.file_size
    pub sound : AreSound origin s.entry.meta s.entry.data_file s.runs
    pub done :
        (x : ℕ)
        → off ≤ x
        → x < off + len
        → x < i * s.entry.meta.page_size
        → IsRight origin off s.out x ⊎ InRuns origin s.entry.meta s.entry.data_file s.runs x

  -- A staged page of the origin's bytes makes its part of the request right.
  serve_staged-IsPlanned :
      (i : ℕ) (p : BufPage) (s : Plan)
      → IsGood crc origin s.entry.meta i p
      → IsPlanned i s
      → IsPlanned (i + 1) (serve_staged off len i p s)
  unfolding serve_staged
  serve_staged-IsPlanned i p s g v = record {
    intact = v.intact;
    inside_file = v.inside_file;
    sound = v.sound;
    done = λ x lo hi q. elim (Bool-cases (ltb x (i * s.entry.meta.page_size))) [
      | inl before ↦ elim (v.done x lo hi (ground arith)) [
        | inl right ↦ inl (served x lo (inl right))
        | inr later ↦ inr later
      ]
      | inr here ↦
          let starts : i * s.entry.meta.page_size ≤ x = ground arith in
          let ends = in_page s.entry.meta i x starts q (omega (arith, v.inside_file)) in
          inl (served x lo (inr (omega arith, omega (arith, ends))))
    ];
  }
    where
      start : ℕ
      start = i * s.entry.meta.page_size

      begins : ℕ
      begins = max off start

      to : ℕ
      to = min (off + len) (start + page_bytes s.entry.meta i)

      served :
          (x : ℕ)
          → off ≤ x
          → IsRight origin off s.out x ⊎ ((begins ≤ x) × (x < begins + (to - begins)))
          → IsRight origin off
              (blit s.out (begins - off) (take (to - begins) (drop (begins - start) p.bytes)))
              x
      served x lo h =
          subst
            (λ l.
              IsRight origin off
                (blit s.out (begins - off) (take (to - begins) (drop (begins - start) l))) x)
            (sym g.bytes)
            (rw
              (clip-slice origin start (page_bytes s.entry.meta i) begins to (omega arith)
                (omega arith))
              (blit-IsRight origin off s.out begins (to - begins) x (omega arith) lo h))

  confirmed :
      (b : Bool) (i : ℕ) (s t : Plan)
      → IsPlanned i s
      → IsPlanned i t
      → IsPlanned i (if b then t else s)
  confirmed true i s t v w = w
  confirmed false i s t v w = v

  unmarked-IsPlanned :
      (i : ℕ) (p : BufPage) (account : Bool) (s : Plan)
      → IsGood crc origin s.entry.meta i p
      → IsPlanned i s
      → IsPlanned i (confirm account i p (unmark_speculative i p s.entry) s)
  unfolding confirm unmark_speculative
  unmarked-IsPlanned i p account s g v = confirmed (p.spec && account) i _ _ v (record {
    intact =
        with_buf-IsIntact crc origin s.entry (assign i real s.entry.buf) _ _ s.entry.pools v.intact
          (Each-assign (IsGood crc origin s.entry.meta) i real s.entry.buf v.intact.staged good)
          (assign-SortedFrom 0 i real s.entry.buf v.intact.staged_sorted);
    inside_file = v.inside_file;
    sound = v.sound;
    done = v.done;
  })
    where
      real : BufPage
      real = record p { spec = false }

      good : IsGood crc origin s.entry.meta i real
      good = record { inside = g.inside; bytes = g.bytes; sum = g.sum }

  plan_disk-IsPlanned :
      (i : ℕ) (s : Plan)
      → i < npages s.entry.meta
      → Bitmap.get s.entry.meta.bitmap i ≡ true
      → IsPlanned i s
      → IsPlanned (i + 1) (plan_disk i s)
  unfolding plan_disk
  plan_disk-IsPlanned i s h on v =
      let stored = v.intact.present i h on in
      record {
        intact = v.intact;
        inside_file = v.inside_file;
        sound =
            add_page-AreSound origin s.entry.meta s.entry.data_file i (length s.crcs) s.runs
              v.intact.page h stored.bytes v.sound;
        done = λ x lo hi q. elim (Bool-cases (ltb x (i * s.entry.meta.page_size))) [
          | inl before ↦ elim (v.done x lo hi (ground arith)) [
            | inl right ↦ inl right
            | inr later ↦ inr (
                add_page-InRuns origin s.entry.meta s.entry.data_file i (length s.crcs) s.runs x
                  v.intact.page h v.sound (inl later))
          ]
          | inr here ↦
              let starts : i * s.entry.meta.page_size ≤ x = ground arith in
              inr (
                add_page-InRuns origin s.entry.meta s.entry.data_file i (length s.crcs) s.runs x
                  v.intact.page h v.sound
                  (inr (starts, in_page s.entry.meta i x starts q (omega (arith, v.inside_file)))))
        ];
      }

  meta-confirm :
      (account : Bool) (i : ℕ) (p : BufPage) (s : Plan)
      → (confirm account i p (unmark_speculative i p s.entry) s).entry.meta ≡ s.entry.meta
  unfolding confirm unmark_speculative
  meta-confirm account i p s = ground arith

  -- A demanded page has no mark to clear.
  confirm_demanded :
      (account : Bool) (i : ℕ) (p : BufPage) (e : Entry) (s : Plan)
      → p.spec ≡ false
      → confirm account i p e s ≡ s
  unfolding confirm
  confirm_demanded account i p e s h = rw h refl

  plan_page_absent :
      (account : Bool) (i : ℕ) (s : Plan)
      → find i s.entry.buf ≡ none
      → find i s.entry.flushing ≡ none
      → Bitmap.get s.entry.meta.bitmap i ≡ false
      → (plan_page off len account i s).1 ≡ false
  unfolding plan_page
  plan_page_absent account i s a b c = rw (a, b, c, plan_page) refl

  -- A page that is not absent is planned.
  pub plan_page-IsPlanned :
      (account : Bool) (i : ℕ) (s : Plan)
      → i < npages s.entry.meta
      → IsPlanned i s
      → (plan_page off len account i s).1 ≡ true
      → IsPlanned (i + 1) ((plan_page off len account i s).0)
  unfolding plan_page
  plan_page-IsPlanned account i s h v ok = elim (holds-find i s.entry.buf) [
    | inr (p, _, there) ↦
        let g = Each-find (IsGood crc origin s.entry.meta) i p s.entry.buf v.intact.staged there in
        rw (there, plan_page)
          (serve_staged-IsPlanned i p _
            (subst (λ m. IsGood crc origin m i p) (sym (meta-confirm account i p s)) g)
            (unmarked-IsPlanned i p account s g v))
    | inl (_, absent) ↦ elim (holds-find i s.entry.flushing) [
      | inr (p, _, there) ↦
          let r =
            Each-find (IsReal crc origin s.entry.meta) i p s.entry.flushing v.intact.writing
              there in
          rw (absent, there, plan_page)
            (subst (λ t. IsPlanned (i + 1) (serve_staged off len i p t))
              (sym (confirm_demanded account i p (unmark_flushing i p s.entry) s r.demanded))
              (serve_staged-IsPlanned i p s r.good v))
      | inl (_, nowhere) ↦ elim (Bool-cases (Bitmap.get s.entry.meta.bitmap i)) [
        | inl on ↦ rw (absent, nowhere, on, plan_page) (plan_disk-IsPlanned i s h on v)
        | inr missing ↦
            let refused = plan_page_absent account i s absent nowhere missing in absurd (cc)
      ]
    ]
  ]

  pub meta-plan_page :
      (account : Bool) (i : ℕ) (s : Plan)
      → (plan_page off len account i s).0.entry.meta ≡ s.entry.meta
  unfolding plan_page confirm unmark_speculative unmark_flushing serve_staged plan_disk
  meta-plan_page account i s = ground arith

  pub plan_pages-IsPlanned :
      (account : Bool) (rounds i : ℕ) (s : Plan)
      → i + rounds ≤ npages s.entry.meta
      → IsPlanned i s
      → (plan_pages off len account rounds i s).1 ≡ true
      → IsPlanned (i + rounds) ((plan_pages off len account rounds i s).0)
  unfolding plan_pages
  plan_pages-IsPlanned account zero i s h v ok = subst (λ k. IsPlanned k s) (omega arith) v
  plan_pages-IsPlanned account (suc rounds) i s h v ok =
      let step = plan_page off len account i s in
      let more = plan_pages off len account rounds (i + 1) (step.0) in
      let both = both_accepted step more ok in
      let count : i + 1 + rounds ≡ i + suc rounds = omega arith in
      let rest =
        plan_pages-IsPlanned account rounds (i + 1) (step.0)
          (rw (meta-plan_page account i s) (omega arith))
          (plan_page-IsPlanned account i s (omega arith) v both.0) both.1 in
      subst (λ (a : Plan × Bool). IsPlanned (i + suc rounds) (a.0))
        (sym (second_part step more both.0))
        (subst (λ k. IsPlanned k ((plan_pages off len account rounds (i + 1) (step.0)).0)) count
          rest)

  pub meta-plan_pages :
      (account : Bool) (rounds i : ℕ) (s : Plan)
      → (plan_pages off len account rounds i s).1 ≡ true
      → (plan_pages off len account rounds i s).0.entry.meta ≡ s.entry.meta
  unfolding plan_pages
  meta-plan_pages account zero i s ok = refl
  meta-plan_pages account (suc rounds) i s ok =
      let step = plan_page off len account i s in
      let more = plan_pages off len account rounds (i + 1) (step.0) in
      let both = both_accepted step more ok in
      subst (λ (a : Plan × Bool). a.0.entry.meta ≡ s.entry.meta)
        (sym (second_part step more both.0))
        (meta-plan_pages account rounds (i + 1) (step.0) both.1 ∙ meta-plan_page account i s)
