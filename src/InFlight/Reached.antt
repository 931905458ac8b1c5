-- ===== src/InFlight/Reached.antt =====
-- src/plugin/OriginInFlight.h: what the guards can come to, by the reads begun so far.
use xrd_ucache.Base.{ℕ, suc, ◌<◌, length}
use xrd_ucache.InFlight.{ReadGuards, no_reads, begin_read, release, move_read, assign_read}

-- A guard is assigned to while it lives.
pub data Reached : ℕ → ReadGuards → Type 0 where
  started : Reached 0 no_reads
  begun : {n : ℕ} {o : ReadGuards} → Reached n o → Reached (suc n) (begin_read o)
  released : {n : ℕ} {o : ReadGuards} (k : ℕ) → Reached n o → Reached n (release k o)
  moved : {n : ℕ} {o : ReadGuards} (k : ℕ) → Reached n o → Reached n (move_read k o)
  assigned :
      {n : ℕ} {o : ReadGuards} (to from : ℕ)
      → to < length o.guards
      → Reached n o
      → Reached n (assign_read to from o)
