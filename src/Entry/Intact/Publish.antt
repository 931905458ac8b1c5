-- ===== src/Entry/Intact/Publish.antt =====
-- src/core/FileEntry.cc: the writes and the publication of `flushBuffer` keep an entry intact.
use xrd_ucache.Base.{ℕ, Bool, true, false, List, [], Content, if◌then◌else◌, Bool-cases, inl, inr}
use xrd_ucache.Entry.{Entry, Config, Pools, FsyncMode, sync_off, sync_data, sync_all, is_empty}
use xrd_ucache.Entry.Intact.{IsIntact}
use xrd_ucache.Entry.Intact.Writes.{Approaches, AreStored, IsStored-Approaches, write_runs_lem}
use xrd_ucache.Entry.Intact.Flush.{publish_all-IsIntact, mark_complete-IsIntact, rest-IsIntact}
use xrd_ucache.Entry.Flush.{flush_write, flush_end, publish_all, mark_complete, Written, DiskWrites}

module _ (crc : List ℕ → ℕ) (origin : Content) where
  -- What the unlocked part hands on: a file nearer to the origin, with the pages to publish in it.
  record IsWrittenFor (e : Entry) (w : Written) : Type 0 where
    near : Approaches crc origin e.meta e.data_file w.file
    stored : AreStored crc origin e.meta w

  synced_or_not :
      (e : Entry) (mode : FsyncMode) (synced : Bool) (w : Written)
      → IsWrittenFor e w
      → IsWrittenFor e (elim mode [
        | sync_off ↦ w
        | _ ↦ if synced then w else record w { published = []; bytes = 0 }
      ])
  synced_or_not e sync_off synced w h = h
  synced_or_not e sync_data true w h = h
  synced_or_not e sync_data false w h = record { near = h.near; stored = tt }
  synced_or_not e sync_all true w h = h
  synced_or_not e sync_all false w h = record { near = h.near; stored = tt }

  flush_write_lem :
      (cfg : Config) (io : DiskWrites) (e : Entry)
      → IsIntact crc origin e
      → IsWrittenFor e (flush_write cfg io e)
  unfolding flush_write
  flush_write_lem cfg io e v =
      let r =
        write_runs_lem crc origin e.meta io _ e.flushing
          (record { file = e.data_file; published = []; bytes = 0 }) v.page v.writing tt in
      synced_or_not e cfg.fsync _ _ (record { near = r.0; stored = r.1 })

  -- The data file after the writes.
  landed-IsIntact :
      (e : Entry) (file : Content)
      → IsIntact crc origin e
      → Approaches crc origin e.meta e.data_file file
      → IsIntact crc origin (record e { data_file = file })
  landed-IsIntact e file v near =
      let c = v.consistent in
      record {
        consistent = record {
          sized = c.sized;
          set_valid = c.set_valid;
          set_bits = c.set_bits;
          cleared_valid = c.cleared_valid;
          cleared_bits = c.cleared_bits;
        };
        page = v.page;
        fits = v.fits;
        staged = v.staged;
        staged_sorted = v.staged_sorted;
        writing = v.writing;
        present = λ i h on.
            IsStored-Approaches crc origin e.meta e.data_file file near i _ (v.present i h on);
      }

  -- The snapshot freed.
  freed-IsIntact :
      (e : Entry) {flush_in_progress : Bool} {last_buf_flush : ℕ} {pools : Pools}
      → IsIntact crc origin e
      → IsIntact crc origin (record e {
        flushing = [];
        flush_in_progress = flush_in_progress;
        last_buf_flush = last_buf_flush;
        pools = pools;
      })
  freed-IsIntact e v =
      let c = v.consistent in
      record {
        consistent = record {
          sized = c.sized;
          set_valid = c.set_valid;
          set_bits = c.set_bits;
          cleared_valid = c.cleared_valid;
          cleared_bits = c.cleared_bits;
        };
        page = v.page;
        fits = v.fits;
        staged = v.staged;
        staged_sorted = v.staged_sorted;
        writing = tt;
        present = v.present;
      }

  flush_end_lem :
      (now snap : ℕ) (w : Written) (e : Entry)
      → IsIntact crc origin e
      → IsWrittenFor e w
      → IsIntact crc origin (flush_end now snap w e)
  unfolding flush_end
  flush_end_lem now snap w e v h =
      let landed = landed-IsIntact e w.file v h.near in
      let published = publish_all-IsIntact crc origin w.published _ landed h.stored in
      let marked : IsIntact crc origin
          (record (mark_complete (publish_all w.published (record e { data_file = w.file }))) {
            dirty = true;
          }) =
        rest-IsIntact crc origin _ (mark_complete-IsIntact crc origin _ published) in
      elim (Bool-cases (is_empty w.published)) [
        | inl nothing ↦ rw (nothing, flush_end) (freed-IsIntact _ landed)
        | inr pages ↦ rw (pages, flush_end) (freed-IsIntact _ marked)
      ]

  -- Writing the snapshot and publishing what was written keeps an intact entry intact, whatever the
  -- disk does: short writes and failed syncs included, and whatever was staged since the snapshot.
  pub flush_end-IsIntact :
      (cfg : Config) (io : DiskWrites) (now snap : ℕ) (e : Entry)
      → IsIntact crc origin e
      → IsIntact crc origin (flush_end now snap (flush_write cfg io e) e)
  flush_end-IsIntact cfg io now snap e v =
      flush_end_lem now snap (flush_write cfg io e) e v (flush_write_lem cfg io e v)
