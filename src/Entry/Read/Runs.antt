-- ===== src/Entry/Read/Runs.antt =====
-- src/core/FileEntry.cc: the runs that `readCached` reads from disk.
use xrd_ucache.Base.{
  ℕ, ◌+◌, ◌-◌, ◌*◌, ◌≤◌, ◌<◌, ◌≡◌, ap, ◌∙◌, ◌⊎◌, inl, inr, ◌&&◌, List, [], ◌∷◌, Content, slice,
  blit, arith, ◌==◌, Bool-cases, ltb, leb, length-slice, blit-inside, blit-outside, get_or-slice,
  mul_mono,
}
use mathlib.Core.Path.{subst}
use xrd_ucache.Sidecar.{MetaData, npages, page_bytes}
use xrd_ucache.Entry.Intact.{HasPage}
use xrd_ucache.Entry.Intact.Runs.{page_bytes-whole}
use xrd_ucache.Entry.Read.{Run, run_bytes, add_page, max_coalesced_read}

-- The caller's buffer has the origin's byte x of a request at `off`.
module _ (origin : Content) (off : ℕ) where
  abbrev pub IsRight : Content → ℕ → Type 0
  IsRight out x = out (x - off) ≡ origin x

  -- Copying the origin's bytes to their place keeps what is right, and makes their span right.
  pub blit-IsRight :
      (out : Content) (at n x : ℕ)
      → off ≤ at
      → off ≤ x
      → IsRight out x ⊎ ((at ≤ x) × (x < at + n))
      → IsRight (blit out (at - off) (slice origin at n)) x
  blit-IsRight out at n x p q h = elim (Bool-cases (leb at x && ltb x (at + n))) [
    | inl inside ↦
        blit-inside out (at - off) (slice origin at n) (x - off) (ground arith)
          (rw (length-slice origin at n) (ground arith))
        ∙ get_or-slice origin at n (x - off - (at - off)) (ground arith)
        ∙ ap origin (ground arith)
    | inr outside ↦
        blit-outside out (at - off) (slice origin at n) (x - off)
          (rw (length-slice origin at n) (ground arith))
        ∙ ground (arith, outside, h)
  ]

module _ (origin : Content) (m : MetaData) (file : Content) where
  -- A run of pages of the file that has the origin's bytes.
  pub record IsSound (r : Run) : Type 0 where
    pub ordered : r.first_page ≤ r.last_page
    pub inside : r.last_page < npages m
    pub bytes :
        (x : ℕ)
        → r.first_page * m.page_size ≤ x
        → x < r.first_page * m.page_size + run_bytes m r.first_page r.last_page
        → file x ≡ origin x

  abbrev pub AreSound : List Run → Type 0
  AreSound [] = Unit
  AreSound (r ∷ runs) = IsSound r × AreSound runs

  -- One of the runs has byte x.
  abbrev pub InRuns : List Run → ℕ → Type 0
  InRuns [] x = ⊥
  InRuns (r ∷ runs) x =
      ((r.first_page * m.page_size ≤ x)
        × (x < r.first_page * m.page_size + run_bytes m r.first_page r.last_page))
      ⊎ InRuns runs x

  one_page : (i base : ℕ) → Run
  one_page i base = record { first_page = i; last_page = i; crc_base = base }

  one_page-IsSound :
      (i base : ℕ) → i < npages m → HasPage (λ l. 0) origin m file i → IsSound (one_page i base)
  unfolding one_page run_bytes
  one_page-IsSound i base h has = record {
    ordered = omega arith;
    inside = h;
    bytes = λ x p q. has x p (omega arith);
  }

  -- Where a run ends: after its last page.
  run_end :
      (first last : ℕ)
      → first ≤ last
      → first * m.page_size + run_bytes m first last ≡ last * m.page_size + page_bytes m last
  unfolding run_bytes
  run_end first last h = omega (arith, mul_mono first last m.page_size h)

  -- A run with the next page.
  longer-IsSound :
      (r : Run)
      → 0 < m.page_size
      → IsSound r
      → r.last_page + 1 < npages m
      → HasPage (λ l. 0) origin m file (r.last_page + 1)
      → IsSound (record r { last_page = r.last_page + 1 })
  longer-IsSound r pos s h has = record {
    ordered = omega (arith, s.ordered);
    inside = h;
    bytes = λ x p q. elim (Bool-cases (ltb x ((r.last_page + 1) * m.page_size))) [
      | inl before ↦ s.bytes x p (
          ground (
            arith,
            before,
            run_end r.first_page r.last_page s.ordered,
            page_bytes-whole m r.last_page pos h,
          ))
      | inr after ↦
          has x (ground arith)
            (ground (arith, q, run_end r.first_page (r.last_page + 1) (omega (arith, s.ordered))))
    ];
  }

  -- The bytes of a run with the next page.
  longer_has :
      (r : Run) (x : ℕ)
      → 0 < m.page_size
      → r.first_page ≤ r.last_page
      → r.last_page + 1 < npages m
      → ((r.first_page * m.page_size ≤ x)
          × (x < r.first_page * m.page_size + run_bytes m r.first_page r.last_page))
        ⊎ (((r.last_page + 1) * m.page_size ≤ x)
            × (x < (r.last_page + 1) * m.page_size + page_bytes m (r.last_page + 1)))
      → (r.first_page * m.page_size ≤ x)
        × (x < r.first_page * m.page_size + run_bytes m r.first_page (r.last_page + 1))
  longer_has r x pos o h w = ground (
    arith,
    w,
    run_end r.first_page r.last_page o,
    run_end r.first_page (r.last_page + 1) (omega arith),
    page_bytes-whole m r.last_page pos h,
    mul_mono r.first_page (r.last_page + 1) m.page_size (omega arith),
  )

  -- Adding a page that the file has keeps the runs sound.
  pub add_page-AreSound :
      (i base : ℕ) (runs : List Run)
      → 0 < m.page_size
      → i < npages m
      → HasPage (λ l. 0) origin m file i
      → AreSound runs
      → AreSound (add_page m i base runs)
  unfolding add_page one_page
  add_page-AreSound i base [] pos h has s = (one_page-IsSound i base h has, tt)
  add_page-AreSound i base (r ∷ []) pos h has s =
      elim (Bool-cases
        (r.last_page + 1 == i && leb (run_bytes m r.first_page i) max_coalesced_read)) [
          | inr apart ↦ rw (apart, add_page) (s.0, (one_page-IsSound i base h has, tt))
          | inl joins ↦
              let next : r.last_page + 1 ≡ i = ground arith in
              rw (joins, add_page)
                (
                  subst (λ k. IsSound (record r { last_page = k })) next
                      (longer-IsSound r pos s.0 (rw next h) (rw next has)),
                  tt,
                )
        ]
  add_page-AreSound i base (r ∷ q ∷ runs) pos h has s =
      (s.0, add_page-AreSound i base (q ∷ runs) pos h has s.1)

  -- And the runs have what they had, and the page.
  pub add_page-InRuns :
      (i base : ℕ) (runs : List Run) (x : ℕ)
      → 0 < m.page_size
      → i < npages m
      → AreSound runs
      → InRuns runs x ⊎ ((i * m.page_size ≤ x) × (x < i * m.page_size + page_bytes m i))
      → InRuns (add_page m i base runs) x
  unfolding add_page
  add_page-InRuns i base [] x pos h s w = elim w [
    | inl (none_left) ↦ absurd none_left
    | inr own ↦ inl (own.0, omega (arith, own.1, run_end i i (omega arith)))
  ]
  add_page-InRuns i base (r ∷ []) x pos h s w =
      elim (Bool-cases
        (r.last_page + 1 == i && leb (run_bytes m r.first_page i) max_coalesced_read)) [
          | inr apart ↦
              rw (apart, add_page)
                (elim w [
                  | inl old ↦ elim old [ inl here ↦ inl here | inr none_left ↦ absurd none_left ]
                  | inr own ↦ inr (inl (own.0, omega (arith, own.1, run_end i i (omega arith))))
                ])
          | inl joins ↦
              let next : r.last_page + 1 ≡ i = ground arith in
              let had : ((r.first_page * m.page_size ≤ x)
                    × (x < r.first_page * m.page_size + run_bytes m r.first_page r.last_page))
                  ⊎ (((r.last_page + 1) * m.page_size ≤ x)
                      × (x < (r.last_page + 1) * m.page_size + page_bytes m (r.last_page + 1))) =
                elim w [
                  | inl old ↦ elim old [ inl here ↦ inl here | inr none_left ↦ absurd none_left ]
                  | inr own ↦ inr (rw next own)
                ] in
              let both = longer_has r x pos (s.0.ordered) (rw next h) had in
              rw (joins, add_page)
                (inl (
                  subst
                    (λ k.
                      (r.first_page * m.page_size ≤ x)
                      × (x < r.first_page * m.page_size + run_bytes m r.first_page k))
                    next both))
        ]
  add_page-InRuns i base (r ∷ q ∷ runs) x pos h s w = elim w [
    | inl old ↦ elim old [
      | inl here ↦ inl here
      | inr later ↦ inr (add_page-InRuns i base (q ∷ runs) x pos h s.1 (inl later))
    ]
    | inr own ↦ inr (add_page-InRuns i base (q ∷ runs) x pos h s.1 (inr own))
  ]
