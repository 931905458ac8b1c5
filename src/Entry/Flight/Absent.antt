-- ===== src/Entry/Flight/Absent.antt =====
-- src/core/FileEntry.cc: `absentRuns`, the byte ranges of the pages that are not here, with the pages
-- on the wire left out on request.

use xrd_ucache.Base.{
  ℕ, zero, suc, ◌+◌, ◌-◌, ◌*◌, ◌/◌, ◌≡◌, arith, Bool, false, not, ◌&&◌, ◌||◌, List, [], ◌∷◌, ◌==◌,
  if◌then◌else◌, add64, ltb, leb, min, Bool-cases, inl, inr, ◌∙◌,
}
use xrd_ucache.Sidecar.{page_bytes}
use xrd_ucache.Entry.{Entry, page_here}
use xrd_ucache.Entry.Flight.{Interval, page_in_flight}

-- A page's bytes join the last run if it ends where they begin.
unfoldable pub add_run : ℕ → ℕ → List Interval → List Interval
add_run start n [] = (start, n) ∷ []
add_run start n (r ∷ []) = if r.0 + r.1 == start then (r.0, r.1 + n) ∷ [] else r ∷ (start, n) ∷ []
add_run start n (r ∷ q ∷ l) = r ∷ add_run start n (q ∷ l)

unfoldable pub is_absent : Entry → List Interval → Bool → ℕ → Bool
unfolding page_here page_in_flight
is_absent e flight skip_in_flight i =
    not (page_here e i) && not (skip_in_flight && page_in_flight i flight)

-- The loop at page i, with `rounds` pages left.
unfoldable pub absent_from : Entry → List Interval → Bool → ℕ → ℕ → List Interval → List Interval
unfolding add_run is_absent page_bytes
absent_from e flight skip_in_flight zero i runs = runs
absent_from e flight skip_in_flight (suc rounds) i runs =
    let more = add_run (i * e.meta.page_size) (page_bytes e.meta i) runs in
    absent_from e flight skip_in_flight rounds (i + 1)
      (if is_absent e flight skip_in_flight i then more else runs)

-- `absentRuns`.
unfoldable pub absent_runs : Entry → List Interval → Bool → ℕ → ℕ → List Interval
unfolding absent_from
absent_runs e flight skip_in_flight off len =
    let stop = min (add64 off len) e.meta.file_size in
    let first = off / e.meta.page_size in
    let last = (stop - 1) / e.meta.page_size in
    if len == 0 || ltb (add64 off len) off
    then []
    else if leb stop off
    then []
    else absent_from e flight skip_in_flight (last + 1 - first) first []

abbrev pub inside : ℕ → ℕ → ℕ → Bool
inside start n x = leb start x && ltb x (start + n)

-- Whether a byte is in some run.
unfoldable pub in_runs : ℕ → List Interval → Bool
in_runs x [] = false
in_runs x (r ∷ l) = inside r.0 r.1 x || in_runs x l

-- Whether a byte is in some page of a span that is absent.
unfoldable pub in_absent : Entry → List Interval → Bool → ℕ → ℕ → ℕ → Bool
in_absent e flight skip_in_flight zero i x = false
in_absent e flight skip_in_flight (suc rounds) i x =
    (is_absent e flight skip_in_flight i && inside (i * e.meta.page_size) (page_bytes e.meta i) x)
    || in_absent e flight skip_in_flight rounds (i + 1) x

in_runs-add_run :
    (start n x : ℕ) (runs : List Interval)
    → in_runs x (add_run start n runs) ≡ (in_runs x runs || inside start n x)
unfolding add_run in_runs
in_runs-add_run start n x [] = ground arith
in_runs-add_run start n x (r ∷ []) = ground arith
in_runs-add_run start n x (r ∷ q ∷ l) = ground (arith, in_runs-add_run start n x (q ∷ l))

in_runs-absent_from :
    (e : Entry) (flight : List Interval) (skip : Bool) (rounds i x : ℕ) (runs : List Interval)
    → in_runs x (absent_from e flight skip rounds i runs)
      ≡ (in_runs x runs || in_absent e flight skip rounds i x)
unfolding absent_from in_absent
in_runs-absent_from e flight skip zero i x runs = ground arith
in_runs-absent_from e flight skip (suc rounds) i x runs =
    let start = i * e.meta.page_size in
    let n = page_bytes e.meta i in
    let more = in_runs-add_run start n x runs in
    elim (Bool-cases (is_absent e flight skip i)) [
      | inl c ↦ rw c (
          in_runs-absent_from e flight skip rounds (i + 1) x (add_run start n runs)
          ∙ ground (arith, more))
      | inr c ↦ rw c (in_runs-absent_from e flight skip rounds (i + 1) x runs)
    ]

-- For a range that is not empty, does not wrap and begins inside the file, a byte is in one of the
-- runs exactly if it is in a page of the range that is absent, and, where pages on the wire are to be
-- skipped, on no wire: merging adjacent pages into one run neither adds nor loses a byte.
pub absent_runs_lem :
    (e : Entry) (flight : List Interval) (skip : Bool) (off len x : ℕ)
    → (len == 0 || ltb (add64 off len) off) ≡ false
    → leb (min (add64 off len) e.meta.file_size) off ≡ false
    → in_runs x (absent_runs e flight skip off len)
      ≡ in_absent e flight skip
          ((min (add64 off len) e.meta.file_size - 1) / e.meta.page_size
            + 1
            - off / e.meta.page_size)
          (off / e.meta.page_size)
          x
unfolding absent_runs in_runs
absent_runs_lem e flight skip off len x some_len starts =
    let stop = min (add64 off len) e.meta.file_size in
    let first = off / e.meta.page_size in
    let last = (stop - 1) / e.meta.page_size in
    rw (some_len, starts) (in_runs-absent_from e flight skip (last + 1 - first) first x [])
