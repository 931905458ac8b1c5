-- ===== src/Entry/Flight/Covered.antt =====
-- src/core/FileEntry.cc: `coveredByFlight` against the pages, one by one.
use xrd_ucache.Base.{
  ℕ, zero, suc, ◌+◌, ◌-◌, ◌≤◌, ◌<◌, ◌≡◌, ◌↔◌, refl, ◌⊎◌, inl, inr, arith, true, false, ◌&&◌, List,
  [], ◌∷◌, ltb, leb, Bool-cases,
}
use native.Mathlib.Decide.{dec_lt}
use xrd_ucache.Entry.Flight.{Interval, page_in_flight, advance, cover_from, covered_by_flight}

-- All pages of a span are on the wire.
abbrev pub AllInFlight : ℕ → ℕ → List Interval → Type 0
AllInFlight from to flight = (i : ℕ) → from ≤ i → i < to → page_in_flight i flight ≡ true

page_in_flight-cons :
    (i : ℕ) (r : Interval) (l : List Interval)
    → page_in_flight i l ≡ true
    → page_in_flight i (r ∷ l) ≡ true
unfolding page_in_flight
page_in_flight-cons i r l e = ground (arith, e)

-- A step goes past pages that are on the wire, or page `at` is not.
advance-AllInFlight :
    (at : ℕ) (l : List Interval)
    → (at ≤ advance at l)
      × AllInFlight at (advance at l) l
      × ((at < advance at l) ⊎ (page_in_flight at l ≡ false))
unfolding advance page_in_flight
advance-AllInFlight at [] = (omega arith, λ i p q. absurd (omega arith), inr refl)
advance-AllInFlight at (r ∷ l) =
    let (le, all, which) = advance-AllInFlight at l in
    elim (Bool-cases (leb r.0 at && ltb at r.1)) [
      | inl c ↦ rw c (ground (arith, c), λ i p q. ground (arith, c, p, q), inl (ground (arith, c)))
      | inr c ↦ rw c (
        le,
        λ i p q. page_in_flight-cons i r l (all i p q),
        elim which [ inl m ↦ inl m | inr n ↦ inr n ],
      )
    ]

cover_from-AllInFlight :
    (fuel at stop : ℕ) (l : List Interval)
    → stop ≤ at + fuel
    → AllInFlight at (cover_from fuel at stop l) l
      × ((stop ≤ cover_from fuel at stop l)
          ⊎ (page_in_flight (cover_from fuel at stop l) l ≡ false))
      × (at ≤ cover_from fuel at stop l)
unfolding cover_from
cover_from-AllInFlight zero at stop l h =
    (λ i p q. absurd (omega arith), inl (omega arith), omega arith)
cover_from-AllInFlight (suc fuel) at stop l h =
    let (le, all, which) = advance-AllInFlight at l in
    let moved = advance at l in
    elim (Bool-cases (ltb at stop && ltb at moved)) [
      | inl c ↦
          let on : at < moved = ground (arith, c) in
          let (more, ends, far) = cover_from-AllInFlight fuel moved stop l (omega arith) in
          rw c (
            λ i p q. elim (dec_lt i moved) [
              | yes early ↦ all i p early
              | no late ↦ more i (omega arith) q
            ],
            ends,
            omega arith,
          )
      | inr c ↦ rw c (
        λ i p q. absurd (omega arith),
        elim which [ inl m ↦ inl (ground (arith, c, m)) | inr n ↦ inr n ],
        omega arith,
      )
    ]

-- A run of pages counts as covered exactly if each of its pages is in some interval on the wire, and
-- the loop that finds out ends within as many rounds as the run has pages.
pub covered_by_flight_iff :
    (first_page end_page : ℕ) (flight : List Interval)
    → (covered_by_flight first_page end_page flight ≡ true)
      ↔ ((i : ℕ) → first_page ≤ i → i < end_page → page_in_flight i flight ≡ true)
unfolding covered_by_flight
covered_by_flight_iff first_page end_page flight =
    let reach = cover_from (end_page - first_page) first_page end_page flight in
    let (all, ends, far) =
      cover_from-AllInFlight (end_page - first_page) first_page end_page flight (omega arith) in
    (
      λ e. λ i p q. all i p (ground (arith, e, q)),
      λ every. elim ends [
        | inl done ↦ ground (arith, done)
        | inr gap ↦ elim (dec_lt reach end_page) [
          | yes open_span ↦ absurd (let there = every reach far open_span in cc)
          | no closed ↦ ground (arith, closed)
        ]
      ],
    )
