-- ===== src/InFlight/Tests.antt =====
-- Two reads begun: the first one's guard is moved, the second's is assigned over it, and it ends.
use xrd_ucache.Base.{◌≡◌, refl, arith}
use xrd_ucache.InFlight.{ReadGuards, no_reads, begin_read, release, move_read, assign_read}
use xrd_ucache.InFlight.Reached.{Reached, started, begun, released, moved, assigned}
use xrd_ucache.InFlight.Counted.{IsCounted, Reached-IsCounted}

abbrev two_reads : ReadGuards
two_reads = move_read 1 (begin_read (begin_read no_reads))

two_out : two_reads.in_flight ≡ 2
unfolding begin_read move_read no_reads
two_out = refl

one_over : (assign_read 0 1 two_reads).in_flight ≡ 1
unfolding begin_read move_read assign_read release no_reads
one_over = refl

two_reads-Reached : Reached 2 two_reads
two_reads-Reached = moved 1 (begun (begun started))

Reached-IsCounted_example : IsCounted 2 (release 0 (assign_read 0 1 two_reads))
unfolding begin_read move_read no_reads
Reached-IsCounted_example =
    Reached-IsCounted (omega arith) (released 0 (assigned 0 1 (omega arith) two_reads-Reached))
