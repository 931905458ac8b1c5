-- ===== src/Entry/Flight/Tests.antt =====
-- Two intervals on the wire that meet, three readers of one range, and a file of three pages of which
-- the middle one is on disk.
use xrd_ucache.Bitmap
use xrd_ucache.Bitmap.Byte.{bit_of, with_bit}
use xrd_ucache.Base.PageMap.{holds}
use xrd_ucache.Base.{none, ℕ, ◌≤◌, ◌<◌, ◌≡◌, ◌↔◌, refl, true, false, List, [], ◌∷◌}
use xrd_ucache.Entry.Flight.{
  Interval, Fetches, page_in_flight, covered_by_flight, begin_fetch, end_fetch, lookup_fetch,
}
use xrd_ucache.Entry.Flight.Covered.{covered_by_flight_iff}
use xrd_ucache.Entry.Flight.Parked.{begin_all, end_fetch-begin_all}
use xrd_ucache.Entry.{Entry}
use xrd_ucache.Entry.Flight.Absent.{absent_runs, in_runs, in_absent, absent_runs_lem}
use xrd_ucache.Sidecar.{fresh}

abbrev wire : List Interval
wire = (6, 9) ∷ (2, 6) ∷ []

straddles : covered_by_flight 3 8 wire ≡ true
unfolding covered_by_flight
straddles = refl

falls_short : covered_by_flight 3 10 wire ≡ false
unfolding covered_by_flight
falls_short = refl

covered_by_flight_iff_example :
    (covered_by_flight 3 8 wire ≡ true) ↔ ((i : ℕ) → 3 ≤ i → i < 8 → page_in_flight i wire ≡ true)
covered_by_flight_iff_example = covered_by_flight_iff 3 8 wire

abbrev idle : Fetches
idle = record { flight = []; waiters = []; inflight = []; joined = 0 }

end_fetch-begin_all_example :
    ((begin_fetch 0 4096 1 idle).0 ≡ true)
    × ((end_fetch 0 4096 (begin_all 0 4096 (2 ∷ 3 ∷ []) (begin_fetch 0 4096 1 idle).1)).1
        ≡ 2 ∷ 3 ∷ [])
unfolding lookup_fetch
end_fetch-begin_all_example = end_fetch-begin_all 0 4096 1 (2 ∷ 3 ∷ []) idle refl

abbrev middle_here : Entry
middle_here = record {
  meta = record (fresh 0 [] 10 4) {
    bitmap = Bitmap.set (Bitmap.reset 3) 1;
    page_crcs = 0 ∷ 0 ∷ 0 ∷ [];
  };
  dirty = false;
  last_flush = 0;
  set_since = Bitmap.reset 3;
  cleared_since = Bitmap.reset 3;
  pin_touched = false;
  buf = [];
  flushing = [];
  buf_bytes = 0;
  spec_bytes = 0;
  last_buf_flush = 0;
  flush_in_progress = false;
  pools = record { buf_total = 0; spec_total = 0; spec_dropped = 0 };
  data_file = λ x. 0;
  sidecar = none;
}

both_ends_absent : absent_runs middle_here [] true 1 8 ≡ (0, 4) ∷ (8, 2) ∷ []
unfolding absent_runs fresh Bitmap.reset Bitmap.set bit_of with_bit holds
both_ends_absent = refl

absent_runs_lem_example :
    in_runs 9 (absent_runs middle_here [] true 1 8) ≡ in_absent middle_here [] true 3 0 9
unfolding fresh
absent_runs_lem_example = absent_runs_lem middle_here [] true 1 8 9 refl refl
