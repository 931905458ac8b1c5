-- ===== src/Entry/Flight.antt =====
-- src/core/FileEntry.cc: `coveredByFlight`, `pageInFlight`, `noteFetchInFlight`, `clearFetchInFlight`,
-- `beginFetch` and `endFetch`. The intervals of pages on the wire and the waiting callbacks, each a
-- number, under the entry's mutex.
pub mod Covered
pub mod Absent
pub mod Parked
mod Tests
use xrd_ucache.Base.{
  ℕ, zero, suc, ◌+◌, ◌-◌, ◌/◌, Bool, true, false, not, ◌&&◌, ◌||◌, List, [], ◌∷◌, ◌++◌, Option,
  none, some, ◌==◌, if◌then◌else◌, add64, ltb, leb, min,
}

-- An interval of pages, or a range of bytes.
abbrev pub Interval : Type 0
Interval = ℕ × ℕ

unfoldable pub page_in_flight : ℕ → List Interval → Bool
page_in_flight page [] = false
page_in_flight page (r ∷ l) = (leb r.0 page && ltb page r.1) || page_in_flight page l

-- The end of the first interval that has page `at`, or `at` when none has it.
unfoldable pub advance : ℕ → List Interval → ℕ
advance at [] = at
advance at (r ∷ l) = let rest = advance at l in if leb r.0 at && ltb at r.1 then r.1 else rest

-- The loop of `coveredByFlight`, with fuel.
unfoldable pub cover_from : ℕ → ℕ → ℕ → List Interval → ℕ
unfolding advance
cover_from zero at stop flight = at
cover_from (suc fuel) at stop flight =
    let moved = advance at flight in
    let rest = cover_from fuel moved stop flight in if ltb at stop && ltb at moved then rest else at

-- `coveredByFlight`; each round but the last moves on by a page or more.
unfoldable pub covered_by_flight : ℕ → ℕ → List Interval → Bool
unfolding cover_from
covered_by_flight first_page end_page flight =
    leb end_page (cover_from (end_page - first_page) first_page end_page flight)

-- The fetches under way, each a range with the callbacks parked behind it, and the callbacks of
-- those who wait for any landing.
pub record Fetches : Type 0 where
  pub flight : List Interval
  pub waiters : List ℕ
  pub inflight : List (Interval × List ℕ)
  pub joined : ℕ

-- The pages of a range inside the file, or none for a range that is empty or wraps.
unfoldable pub pages_of : ℕ → ℕ → ℕ → ℕ → Option Interval
pages_of page_size file_size off len =
    let stop = min (add64 off len) file_size in
    if len == 0 || ltb (add64 off len) off
    then none
    else if leb stop off
    then none
    else some (off / page_size, (stop + page_size - 1) / page_size)

abbrev push : Option Interval → List Interval → List Interval
push none l = l
push (some r) l = l ++ (r ∷ [])

unfoldable pub note_fetch : ℕ → ℕ → ℕ → ℕ → Fetches → Fetches
unfolding pages_of
note_fetch page_size file_size off len s = record s {
  flight = push (pages_of page_size file_size off len) s.flight;
}

abbrev pub same_interval : Interval → Interval → Bool
same_interval r q = r.0 == q.0 && r.1 == q.1

-- The first equal interval goes.
unfoldable pub erase_first : Interval → List Interval → List Interval
erase_first r [] = []
erase_first r (q ∷ l) = let rest = erase_first r l in if same_interval q r then l else q ∷ rest

unfoldable pub erase_pages : Option Interval → List Interval → List Interval
unfolding erase_first
erase_pages none l = l
erase_pages (some r) l = erase_first r l

unfoldable erase_ranges : ℕ → ℕ → List Interval → List Interval → List Interval
unfolding erase_pages pages_of
erase_ranges page_size file_size [] l = l
erase_ranges page_size file_size (r ∷ ranges) l =
    erase_ranges page_size file_size ranges (erase_pages (pages_of page_size file_size r.0 r.1) l)

-- `clearFetchInFlight` of a list of ranges: the state, and the callbacks that then run.
unfoldable pub clear_fetches : ℕ → ℕ → List Interval → Fetches → Fetches × List ℕ
unfolding erase_ranges
clear_fetches page_size file_size ranges s = (
  record s { flight = erase_ranges page_size file_size ranges s.flight; waiters = [] },
  s.waiters,
)

unfoldable pub lookup_fetch : Interval → List (Interval × List ℕ) → Option (List ℕ)
lookup_fetch k [] = none
lookup_fetch k (f ∷ l) =
    let rest = lookup_fetch k l in if same_interval f.0 k then some f.1 else rest

-- Parked behind the fetch of a range.
unfoldable pub park : Interval → ℕ → List (Interval × List ℕ) → List (Interval × List ℕ)
park k cb [] = []
park k cb (f ∷ l) =
    let rest = park k cb l in if same_interval f.0 k then (f.0, f.1 ++ (cb ∷ [])) ∷ l else f ∷ rest

unfoldable pub begin_with : Option (List ℕ) → Interval → ℕ → Fetches → Bool × Fetches
unfolding park
begin_with none k cb s = (true, record s { inflight = s.inflight ++ ((k, []) ∷ []) })
begin_with (some l) k cb s =
    (false, record s { inflight = park k cb s.inflight; joined = add64 s.joined 1 })

-- `beginFetch`: whether the caller owns the fetch.
unfoldable pub begin_fetch : ℕ → ℕ → ℕ → Fetches → Bool × Fetches
unfolding begin_with lookup_fetch
begin_fetch off len cb s = begin_with (lookup_fetch (off, len) s.inflight) (off, len) cb s

unfoldable pub waiting : Option (List ℕ) → List ℕ
waiting none = []
waiting (some l) = l

unfoldable pub finish : Interval → List (Interval × List ℕ) → List (Interval × List ℕ)
finish k [] = []
finish k (f ∷ l) = let rest = finish k l in if same_interval f.0 k then l else f ∷ rest

-- `endFetch`: the state, and the callbacks parked behind the range, which then run.
unfoldable pub end_fetch : ℕ → ℕ → Fetches → Fetches × List ℕ
unfolding waiting finish lookup_fetch
end_fetch off len s = (
  record s { inflight = finish (off, len) s.inflight },
  waiting (lookup_fetch (off, len) s.inflight),
)
