-- ===== src/InFlight.antt =====
-- src/plugin/OriginInFlight.h: the guards of the reads outstanding at the origin, and the two counters
-- of the statistics that they keep. The guards that live are a list, a guard is whether it points at
-- the statistics.
pub mod Reached
pub mod Counted
pub mod Tests
use xrd_ucache.Base.{
  ℕ, zero, suc, Bool, true, false, List, [], ◌∷◌, add64, sub64, ltb, ◌==◌, if◌then◌else◌, get_or,
}

pub record ReadGuards : Type 0 where
  in_flight : ℕ
  high_water : ℕ
  guards : List Bool

abbrev pub holds : List Bool → ℕ → Bool
holds guards k = get_or guards k false

unfoldable pub put : List Bool → ℕ → Bool → List Bool
put [] k b = []
put (g ∷ guards) zero b = b ∷ guards
put (g ∷ guards) (suc k) b = g ∷ put guards k b

unfoldable pub no_reads : ReadGuards
no_reads = record { in_flight = 0; high_water = 0; guards = [] }

-- The constructor on statistics. The loop on the compare-exchange raises the mark to n at least.
unfoldable pub begin_read : ReadGuards → ReadGuards
begin_read o =
    let n = add64 o.in_flight 1 in
    record {
      in_flight = n;
      high_water = if ltb o.high_water n then n else o.high_water;
      guards = true ∷ o.guards;
    }

-- `release`, with the destructor.
unfoldable pub release : ℕ → ReadGuards → ReadGuards
unfolding put
release k o =
    if holds o.guards k
    then record o { in_flight = sub64 o.in_flight 1; guards = put o.guards k false }
    else o

-- The move constructor.
unfoldable pub move_read : ℕ → ReadGuards → ReadGuards
unfolding put
move_read k o = record o { guards = holds o.guards k ∷ put o.guards k false }

-- The move assignment.
unfoldable pub assign_read : ℕ → ℕ → ReadGuards → ReadGuards
unfolding put release
assign_read to from o =
    let freed = release to o in
    if to == from
    then o
    else record freed { guards = put (put freed.guards to (holds freed.guards from)) from false }
