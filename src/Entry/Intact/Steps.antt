-- ===== src/Entry/Intact/Steps.antt =====
-- src/core/FileEntry.cc: the operations on the fill buffer as steps that threads take in any order, a
-- flush being two of them: other steps come between its snapshot and its publication. The bytes
-- that the operations are given are the origin's.
use xrd_ucache.Base.{
  add64, ℕ, ◌≡◌, Bool, true, List, Content, slice, some, leb, Bool-cases, inl, inr,
}
use xrd_ucache.Entry.{Entry, Config, touch_atime}
use xrd_ucache.Entry.Stage.{stage_write, stage_speculative, drop_speculative, consume_speculative}
use xrd_ucache.Entry.Flush.{
  DiskWrites, flush_begin, flush_begin_cases, snapshot_taken, flush_write, flush_end,
}
use xrd_ucache.Entry.Intact.{IsIntact}
use xrd_ucache.Entry.Intact.Stage.{stage_write-IsIntact, stage_speculative-IsIntact}
use xrd_ucache.Entry.Intact.Drop.{drop_speculative-IsIntact, consume_speculative-IsIntact}
use xrd_ucache.Entry.Intact.Flush.{snapshot_taken-IsIntact, rest-IsIntact}
use xrd_ucache.Entry.Intact.Publish.{flush_end-IsIntact}
use mathlib.Core.Path.{subst}

module _ (crc : List ℕ → ℕ) (origin : Content) where
  pub data Step : Entry → Entry → Type 0 where
    writes :
        (off len : ℕ) (e : Entry) → Step e (stage_write crc off len (slice origin off len) e).entry
    guesses :
        (fill_buffer_mb off len : ℕ) (e : Entry)
        → Step e (stage_speculative crc fill_buffer_mb off len (slice origin off len) e).0
    drops : (off len : ℕ) (e : Entry) → Step e (drop_speculative off len e).0
    consumes : (off len : ℕ) (e : Entry) → Step e (consume_speculative off len e).0
    touches : (now : ℕ) (e : Entry) → Step e (touch_atime now e)
    begins :
        (cfg : Config) (now : ℕ) (force : Bool) (e e' : Entry) (snap : ℕ)
        → flush_begin cfg now force e ≡ some (e', snap)
        → Step e e'
    ends :
        (cfg : Config) (io : DiskWrites) (now snap : ℕ) (e : Entry)
        → e.flush_in_progress ≡ true
        → Step e (flush_end now snap (flush_write cfg io e) e)

  pub data Steps : Entry → Entry → Type 0 where
    here : (e : Entry) → Steps e e
    then : (e e' e'' : Entry) → Step e e' → Steps e' e'' → Steps e e''

  begun-IsIntact :
      (cfg : Config) (now : ℕ) (force : Bool) (e e' : Entry) (snap : ℕ)
      → IsIntact crc origin e
      → flush_begin cfg now force e ≡ some (e', snap)
      → IsIntact crc origin e'
  begun-IsIntact cfg now force e e' snap v h = elim (flush_begin_cases cfg now force e) [
    | inl idle ↦ absurd (cc)
    | inr begun ↦
        let same : snapshot_taken e ≡ e' = cc in
        subst (IsIntact crc origin) same (snapshot_taken-IsIntact crc origin e v)
  ]

  pub touch_atime-IsIntact :
      (now : ℕ) (e : Entry) → IsIntact crc origin e → IsIntact crc origin (touch_atime now e)
  unfolding touch_atime
  touch_atime-IsIntact now e v = elim (Bool-cases (leb (add64 e.meta.atime 60) now)) [
    | inl due ↦ rw (due, touch_atime) (rest-IsIntact crc origin e v)
    | inr recent ↦ rw (recent, touch_atime) v
  ]

  Step-IsIntact : (e e' : Entry) → Step e e' → IsIntact crc origin e → IsIntact crc origin e'
  Step-IsIntact _ _ (writes off len e) v = stage_write-IsIntact crc origin off len e v
  Step-IsIntact _ _ (guesses mb off len e) v = stage_speculative-IsIntact crc origin mb off len e v
  Step-IsIntact _ _ (drops off len e) v = drop_speculative-IsIntact crc origin off len e v
  Step-IsIntact _ _ (consumes off len e) v = consume_speculative-IsIntact crc origin off len e v
  Step-IsIntact _ _ (touches now e) v = touch_atime-IsIntact now e v
  Step-IsIntact _ _ (begins cfg now force e e' snap h) v =
      begun-IsIntact cfg now force e e' snap v h
  Step-IsIntact _ _ (ends cfg io now snap e _) v = flush_end-IsIntact crc origin cfg io now snap e v

  -- Whatever order the threads' steps come in, and whatever the disk does, an intact entry, of a file
  -- that ends a page below 2 ^ 64, stays intact: staged pages have the origin's bytes, predictions are
  -- never among the pages that a flush writes, and each page marked present has the origin's bytes in
  -- the data file and their checksum in the metadata.
  pub Steps-IsIntact : (e e' : Entry) → Steps e e' → IsIntact crc origin e → IsIntact crc origin e'
  Steps-IsIntact _ _ (here e) v = v
  Steps-IsIntact _ _ (then e e' e'' s rest) v = Steps-IsIntact e' e'' rest (Step-IsIntact e e' s v)
