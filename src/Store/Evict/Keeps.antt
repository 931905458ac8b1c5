-- ===== src/Store/Evict/Keeps.antt =====
-- src/core/CacheStore.cc: which files `evictNow` and its sweep leave alone.
use xrd_ucache.Base.{
  ℕ, ◌≤◌, ◌<◌, ◌≡◌, refl, ◌⊎◌, inl, inr, arith, Bool, true, false, not, ◌&&◌, List, [], ◌∷◌,
  if◌then◌else◌, Bool-cases, All, All-imp, sym, ap, ◌∙◌, ◌==◌,
}
use mathlib.Core.Logic.{◌≢◌}
use xrd_ucache.Store.{
  Suffix, dot_data, dot_meta, dot_tdata, dot_tmeta, dot_tok, dot_val, dot_cost, dot_slots,
  tdata_tmp, tmeta_tmp, slots_tmp, other_suffix, suffix_code, File, is_file, Settings, Outside,
  Store, Registered, listed, without, unlink, pruned, is_live,
}
use xrd_ucache.Store.Scan.{MetaScan, scan_objects}
use xrd_ucache.Store.Evict.{
  Pass, Limits, Verdict, passed_over, too_recent, victim, need_evict, verdict, treat, evict_entry,
  unlink_entry, unlink_if, evict_loop, evict_pass, sort_by_atime, limits_of, first_pass, sweeps,
  sweep_rest, sweep_orphans, evict_locked, evict_now, pinned_in, orphan,
}
use xrd_ucache.Store.Evict.Sort.{All-sort_by_atime}

-- The files of a hash, less the files in which a slot store is created.
unfoldable pub is_entry_file : ℕ → File → Bool
unfolding suffix_code
is_entry_file h f = f.hash == h && not (suffix_code f.suffix == 10)

unfoldable pub entry_files : ℕ → List File → List File
unfolding is_entry_file
entry_files h [] = []
entry_files h (f ∷ l) = let rest = entry_files h l in if is_entry_file h f then f ∷ rest else rest

meta_code : suffix_code dot_meta ≡ 1
unfolding suffix_code
meta_code = refl

-- A file of one hash is no file of another.
is_file-is_entry_file :
    (h g : ℕ) (s : Suffix) (f : File) → g ≢ h → is_file g s f ≡ true → is_entry_file h f ≡ false
unfolding is_file is_entry_file
is_file-is_entry_file h g s f n e = ground arith

without-entry_files :
    (h g : ℕ) (s : Suffix) (l : List File) → g ≢ h → entry_files h (without g s l) ≡ entry_files h l
unfolding entry_files without
without-entry_files h g s [] n = refl
without-entry_files h g s (f ∷ l) n =
    let rest = without-entry_files h g s l n in
    elim (Bool-cases (is_file g s f)) [
      | inl c ↦ rw (c, is_file-is_entry_file h g s f n c) rest
      | inr c ↦ rw c (rw rest refl)
    ]

pub unlink-entry_files :
    (env : Outside) (h g : ℕ) (s : Suffix) (l : List File)
    → g ≢ h
    → entry_files h (unlink env g s l) ≡ entry_files h l
unfolding unlink
unlink-entry_files env h g s l n = ground (arith, without-entry_files h g s l n)

unlink_if-entry_files :
    (b : Bool) (env : Outside) (h g : ℕ) (s : Suffix) (l : List File)
    → g ≢ h
    → entry_files h (unlink_if b env g s l) ≡ entry_files h l
unlink_if-entry_files true env h g s l n = unlink-entry_files env h g s l n
unlink_if-entry_files false env h g s l n = refl

pub unlink_entry-entry_files :
    (env : Outside) (h : ℕ) (s : MetaScan) (l : List File)
    → s.hash ≢ h
    → entry_files h (unlink_entry env s l) ≡ entry_files h l
unfolding unlink_entry
unlink_entry-entry_files env h s l n =
    let some_go =
      λ (b : Bool) (t : Suffix) (k : List File). unlink_if-entry_files b env h s.hash t k n in
    let one_goes = λ (t : Suffix) (k : List File). unlink-entry_files env h s.hash t k n in
    simp (some_go, one_goes)

-- An entry with hash h is not a victim.
abbrev pub Spares : Limits → Outside → ℕ → MetaScan → Type 0
Spares l env h s = s.hash ≡ h → verdict l env s ≢ victim

treat-entry_files :
    (l : Limits) (env : Outside) (h : ℕ) (s : MetaScan) (p : Pass) (v : Verdict)
    → (s.hash ≡ h → v ≢ victim)
    → entry_files h (treat env s v p).files ≡ entry_files h p.files
unfolding evict_entry
treat-entry_files l env h s p passed_over n = refl
treat-entry_files l env h s p too_recent n = refl
treat-entry_files l env h s p victim n = unlink_entry-entry_files env h s p.files (λ e. n e refl)

evict_loop-entry_files :
    (l : Limits) (env : Outside) (h : ℕ) (xs : List MetaScan) (p : Pass)
    → All (Spares l env h) xs
    → entry_files h (evict_loop l env xs p).files ≡ entry_files h p.files
unfolding evict_loop
evict_loop-entry_files l env h [] p a = refl
evict_loop-entry_files l env h (s ∷ xs) p a =
    let after = treat env s (verdict l env s) p in
    let rest = evict_loop-entry_files l env h xs after a.1 in
    let first = treat-entry_files l env h s p (verdict l env s) a.0 in
    elim (Bool-cases (need_evict l p)) [ inl c ↦ rw c (rest ∙ first) | inr c ↦ rw c refl ]

is_file-other_meta : (h : ℕ) (f : File) → is_entry_file h f ≡ false → is_file h dot_meta f ≡ false
unfolding is_entry_file is_file
is_file-other_meta h f e = ground (arith, meta_code)

-- The sidecar of an entry is one of its files.
pub listed-entry_files :
    (h : ℕ) (l : List File) → listed h dot_meta (entry_files h l) ≡ listed h dot_meta l
unfolding listed entry_files
listed-entry_files h [] = refl
listed-entry_files h (f ∷ l) =
    let rest = listed-entry_files h l in
    elim (Bool-cases (is_entry_file h f)) [
      | inl c ↦ rw c (rw rest refl)
      | inr c ↦ rw (c, rest, is_file-other_meta h f c) refl
    ]

orphan-listed :
    (all : List File) (s : Suffix) (h : ℕ)
    → listed h dot_meta all ≡ true
    → (suffix_code s == 10) ≡ false
    → orphan all s h ≡ false
unfolding suffix_code
orphan-listed all dot_data h m n = refl
orphan-listed all dot_meta h m n = refl
orphan-listed all other_suffix h m n = refl
orphan-listed all slots_tmp h m n = cc
orphan-listed all dot_tdata h m n = rw m refl
orphan-listed all dot_tmeta h m n = rw m refl
orphan-listed all dot_tok h m n = rw m refl
orphan-listed all dot_val h m n = rw m refl
orphan-listed all dot_cost h m n = rw m refl
orphan-listed all dot_slots h m n = rw m refl
orphan-listed all tdata_tmp h m n = rw m refl
orphan-listed all tmeta_tmp h m n = rw m refl

is_entry_file-parts :
    (h : ℕ) (f : File)
    → is_entry_file h f ≡ true
    → (f.hash ≡ h) × ((suffix_code f.suffix == 10) ≡ false)
unfolding is_entry_file
is_entry_file-parts h f e = ground arith

-- What has its sidecar is no orphan.
sweeps-entry_file :
    (env : Outside) (h : ℕ) (all : List File) (f : File)
    → listed h dot_meta all ≡ true
    → is_entry_file h f ≡ true
    → sweeps env all f ≡ false
unfolding sweeps
sweeps-entry_file env h all f m e =
    let (same, kind) = is_entry_file-parts h f e in
    rw (orphan-listed all f.suffix f.hash (rw same m) kind) refl

pub sweep_rest-entry_files :
    (env : Outside) (h : ℕ) (all l : List File)
    → listed h dot_meta all ≡ true
    → entry_files h (sweep_rest env all l).0 ≡ entry_files h l
unfolding sweep_rest entry_files
sweep_rest-entry_files env h all [] m = refl
sweep_rest-entry_files env h all (f ∷ l) m =
    let rest = sweep_rest-entry_files env h all l m in
    elim (Bool-cases (is_entry_file h f)) [
      | inl c ↦ rw (sweeps-entry_file env h all f m c) (rw c (rw rest refl))
      | inr c ↦ elim (Bool-cases (sweeps env all f)) [
        | inl d ↦ rw (c, d) rest
        | inr d ↦ rw (c, d) (rw c rest)
      ]
    ]

-- An entry that is open or pinned, in the scan or since, or that was read within the window.
abbrev pub Shielded : Settings → Outside → Store → MetaScan → Type 0
Shielded cfg env st s =
    (s.pinned ≡ true)
    ⊎ ((is_live s.hash (pruned st.registry) ≡ true)
        ⊎ ((pinned_in (env.loaded s.hash) ≡ true)
            ⊎ ((0 < (limits_of cfg env (pruned st.registry)).protect_cutoff)
                × ((limits_of cfg env (pruned st.registry)).protect_cutoff ≤ s.atime))))

live-limits_of :
    (cfg : Settings) (env : Outside) (live : List Registered) → (limits_of cfg env live).live ≡ live
unfolding limits_of
live-limits_of cfg env live = refl

Shielded-Spares :
    (cfg : Settings) (env : Outside) (st : Store) (h : ℕ) (s : MetaScan)
    → (s.hash ≡ h → Shielded cfg env st s)
    → Spares (limits_of cfg env (pruned st.registry)) env h s
unfolding verdict
Shielded-Spares cfg env st h s k e v = elim (k e) [
  | inl a ↦ ground arith
  | inr (inl a) ↦ ground (arith, live-limits_of cfg env (pruned st.registry))
  | inr (inr (inl a)) ↦ ground arith
  | inr (inr (inr a)) ↦ ground arith
]

evict_locked-entry_files :
    (cfg : Settings) (env : Outside) (st : Store) (h : ℕ)
    → listed h dot_meta st.files ≡ true
    → All (λ s. s.hash ≡ h → Shielded cfg env st s) (scan_objects env false st.files)
    → entry_files h (evict_locked cfg env st).files ≡ entry_files h st.files
unfolding evict_locked evict_pass sweep_orphans first_pass
evict_locked-entry_files cfg env st h m a =
    let l = limits_of cfg env (pruned st.registry) in
    let scans = scan_objects env false st.files in
    let start = first_pass env scans st in
    let spared = All-imp _ (Spares l env h) (Shielded-Spares cfg env st h) scans a in
    let pass = evict_loop l env (sort_by_atime scans) start in
    let kept =
      evict_loop-entry_files l env h (sort_by_atime scans) start
        (All-sort_by_atime (Spares l env h) scans spared) in
    let there =
      sym (listed-entry_files h pass.files)
      ∙ ap (listed h dot_meta) kept
      ∙ listed-entry_files h st.files
      ∙ m in
    sweep_rest-entry_files env h pass.files pass.files there ∙ kept

-- If an entry's sidecar is on disk and every scan of it finds it pinned, open, or read within the
-- protection window, or its pin landed since the scan, an eviction pass leaves the entry's files
-- as they were, the sweep included.
pub evict_now-keeps :
    (cfg : Settings) (env : Outside) (st : Store) (h : ℕ)
    → listed h dot_meta st.files ≡ true
    → All (λ s. s.hash ≡ h → Shielded cfg env st s) (scan_objects env false st.files)
    → entry_files h (evict_now cfg env st).1.files ≡ entry_files h st.files
unfolding evict_now
evict_now-keeps cfg env st h m a = elim (Bool-cases env.locks) [
  | inl c ↦ rw c (evict_locked-entry_files cfg env st h m a)
  | inr c ↦ rw c refl
]
