-- ===== src/SlotStore/Create.antt =====
-- src/core/SlotStore.cc: `openOrCreate`, once the directory is there. What the path names when an
-- attempt opens it, how old that is, and what the calls of a creation answer, are parameters: other
-- processes come between the attempts. The clock and a file's time are seconds from the epoch on.
use xrd_ucache.Base.{
  ℕ, zero, suc, ◌+◌, Bool, true, false, not, List, [], ◌∷◌, Option, none, some, ltb, if◌then◌else◌,
  length, blit,
}
use xrd_ucache.SlotStore.{SlotStoreHeader, SlotFile, header_bytes}
use xrd_ucache.SlotStore.Header.{
  Read, k_ok, k_unusable, k_newer, encode_slot_header, read_head_and_blob,
}

pub data Opening : Type 0 where
  -- With the time of its last change, if `fstat` answers it.
  found : SlotFile → Option ℕ → Opening
  missing : Opening
  cannot_open : Opening

pub data Linked : Type 0 where
  linked : Linked
  exists_already : Linked
  cannot_link : Linked

pub record Attempt : Type 0 where
  pub opening : Opening
  -- The clock.
  pub now : ℕ
  -- The temporary file is there.
  pub tmp_open : Bool
  -- Its writes and its sync went well.
  pub written : Bool
  pub link : Linked
  pub new_store_id : ℕ

pub data Outcome : Type 0 where
  -- The store of a header and a layout, and `created`.
  served : SlotStoreHeader → List ℕ → Bool → Outcome
  no_store : Outcome

-- The outcome, with the files that were removed from the path.
pub record Opened : Type 0 where
  pub outcome : Outcome
  pub unlinked : List SlotFile

-- `kDebrisAgeS`.
abbrev pub debris_age : ℕ
debris_age = 60

-- `isDebris`.
unfoldable pub is_debris : ℕ → Option ℕ → Bool
is_debris now none = false
is_debris now (some mtime) = ltb (mtime + debris_age) now

-- `attempt < 3`.
abbrev pub attempts : ℕ
attempts = 3

module _ (crc32c : List ℕ → ℕ) (want : SlotStoreHeader) (blob : List ℕ) where
  -- `want` with the store's own fields.
  unfoldable pub header_for : ℕ → SlotStoreHeader
  header_for id = record want { store_id = id; blob_len = length blob; blob_crc = crc32c blob }

  -- The file that is written before it is linked.
  unfoldable pub created_file : ℕ → SlotFile
  unfolding header_for encode_slot_header blit
  created_file id = record {
    bytes = blit (encode_slot_header crc32c (header_for id)) header_bytes blob;
    size = header_bytes + length blob;
  }

  unfoldable pub stop : Outcome → Opened
  stop o = record { outcome = o; unlinked = [] }

  unfoldable pub removed : SlotFile → Opened → Opened
  removed f o = record o { unlinked = f ∷ o.unlinked }

  -- An attempt at a file that is there. `rest` is what later attempts come to.
  unfoldable pub at_file : SlotFile → Bool → Read → Opened → Opened
  unfolding stop removed
  at_file f debris (k_ok h b) rest = stop (served h b false)
  at_file f debris k_newer rest = stop no_store
  at_file f debris k_unusable rest = if debris then removed f rest else stop no_store

  unfoldable pub after_link : Linked → ℕ → Opened → Opened
  unfolding stop header_for
  after_link linked id rest = stop (served (header_for id) blob true)
  after_link exists_already id rest = rest
  after_link cannot_link id rest = stop no_store

  -- An attempt.
  unfoldable pub attempt_once : Attempt → Opening → Opened → Opened
  unfolding stop at_file after_link read_head_and_blob is_debris
  attempt_once a (found f mtime) rest =
      at_file f (is_debris a.now mtime) (read_head_and_blob crc32c f) rest
  attempt_once a cannot_open rest = stop no_store
  attempt_once a missing rest =
      if a.tmp_open
      then (if a.written then after_link a.link a.new_store_id rest else stop no_store)
      else stop no_store

  unfoldable pub attempt_from : ℕ → List Attempt → Opened
  unfolding stop attempt_once
  attempt_from zero l = stop no_store
  attempt_from (suc n) [] = stop no_store
  attempt_from (suc n) (a ∷ l) = let rest = attempt_from n l in attempt_once a a.opening rest

  -- `openOrCreate`.
  unfoldable pub open_or_create : List Attempt → Opened
  unfolding attempt_from
  open_or_create l = attempt_from attempts l

-- `drop`: what the path names after it.
unfoldable pub drop_store : Option SlotFile → Option SlotFile
drop_store path = none

-- `dropIfCurrent`, by whether both locks are had at once, and whether the path still names the file.
unfoldable pub drop_if_current : Bool → Bool → Option SlotFile → Bool × Option SlotFile
drop_if_current granted same path =
    if not granted then (false, path) else if same then (true, none) else (false, path)
