-- ===== src/Lib.antt =====
-- xrd-ucache: a user-level page cache for remote files that an XRootD client reads. The plugin
-- (src/plugin) opens the origin and sends the reads; the core (src/core) keeps, for each file, an
-- entry with its pages in a sparse data file, their presence bits and checksums in a sidecar, and the
-- pages not yet written in a fill buffer.
--
-- Bitmap is src/core/PageBitmap.h: `get`, `set`, `clear`, `clearAll`, `rangeSet`, `recount`.
-- Sidecar is src/core/MetaFile.h and MetaFile.cc: the metadata, `npages`, `pageBytes`, `cachedBytes`,
-- `fresh`. The flag word is its two flags and the bits that nothing reads. Sidecar/Codec has
-- `serialize` and `deserialize`, Sidecar/Codec/Files `store`, `load` and `loadSummary`.
-- Entry is src/core/FileEntry.h and FileEntry.cc: the members under the entry's mutex, the
-- process-wide pools, the data file's bytes and the sidecar in one record, and a function for each
-- operation. Entry/Stage has `writePages` up to its staging and the speculative pages, Entry/Flush
-- `flushBuffer`, Entry/Commit `flushMeta`, Entry/Read `readCached`. An operation that gives up the
-- mutex is cut there, so that other steps can come between its parts. Entry/Intact has what the entry
-- keeps true of its pages. The buffer of a read that is refused is undefined in the source; the model
-- gives it some value.
-- Entry/Flight has the page intervals on the wire, the fetches that readers share and the absent runs.
-- Entry/Release is `releaseRanges`, in two parts around its `flushMeta`.
-- Store is src/core/CacheStore.cc: Store/Scan the scan of the sidecars, Store/Budget the free-space
-- floor, Store/Evict `evictNow` with the sweep of orphans, Store/Open `maybeEvict`, `notePersisted`,
-- `open`, `invalidate` and `removeEntry`, Store/Cleanup `cleanup`. `open` is cut at its call of
-- `FileEntry::open`. Store/Steps takes the operations in any order. The clock reads one time in an
-- operation.
-- Replica is src/core/ReplicaFile.h, ReplicaFile.cc and ReplicaStore.cc: the checks of a replica's map,
-- `ReplicaView::map`, `originRanges`, and in Replica/Overlay `ReplicaView::read`.
-- InFlight is src/plugin/OriginInFlight.h: its guards, with the two counters that they keep.
-- SlotStore is src/core/SlotStore.h and SlotStore.cc: SlotStore/Header the header's codec and what is
-- asked of it, SlotStore/Create `openOrCreate`, SlotStore/Blocks `readBlocks`, SlotStore/Commit `commit`
-- and `refresh`, SlotStore/Ends the end of its loop. A round of `readBlocks` moves on by a block's header
-- at least, unless the length that a block claims passes 2 ^ 64: there the source goes back, which the
-- fuel cuts off.
-- UrlKey is src/core/UrlKey.cc: `normalizePath`.
-- Rounding is src/plugin/ReadRounding.h with the loop of src/plugin/UCacheFile.cc that cuts a run.
-- Retry is src/plugin/OpenRetry.cc and the retrying open handler of src/plugin/UCacheFile.cc.
-- Base has the shared types and lemmas, and the ordered map from page numbers.
--
-- Numbers are natural numbers; a uint64_t sum or difference wraps where the source's can. Loops take
-- fuel: as many rounds as the file, the request or the run has pages (a round passes one), as the run
-- has bytes (an element has one at least), or as the setting allows attempts. crc32c, the clock and
-- what a disk call does are parameters. `npages` and `pageBytes` do not wrap in the model, as they do
-- not in the source for a file that ends a page below 2 ^ 64; what is said of an entry's pages is said
-- of such files. The write of a flush and its publication are one step of Entry/Intact/Steps.
-- Statistics, traces and logs are left out, and so are the command line, the transposition, the
-- prefetch and the I/O backend.
pub mod Base
pub mod Bitmap
pub mod Rounding
pub mod Retry
pub mod Sidecar
pub mod Entry
pub mod Store
pub mod Replica
pub mod InFlight
pub mod SlotStore
pub mod UrlKey
pub mod Tests
