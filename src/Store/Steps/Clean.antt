-- ===== src/Store/Steps/Clean.antt =====
-- src/core/CacheStore.cc: `cleanup` keeps an entry that is open.
use xrd_ucache.Base.{
  ℕ, ◌≡◌, refl, inl, inr, arith, Bool, true, false, List, [], ◌∷◌, Bool-cases, All, ap, ◌∙◌, leb,
  min, ◌-◌,
}
use mathlib.Core.Logic.{◌≢◌}
use xrd_ucache.Store.{dot_data, Outside, Store, Registered, pruned, is_live}
use xrd_ucache.Store.Scan.{MetaScan, scan_objects, scan_bytes, total_from}
use xrd_ucache.Store.Evict.{sweep_orphans, sort_by_atime}
use xrd_ucache.Store.Evict.Keeps.{sweep_rest-entry_files, unlink_entry-entry_files}
use xrd_ucache.Store.Cleanup.{
  CleanupMode, clean_all, older_than, newer_than, to_size, cleanup, remove_victim, remove_victims,
  reconciled, victims_of, cutoff_of, to_size_victims, aged_victims, protected_entry, spared_by_age,
}
use xrd_ucache.Store.Steps.{
  IsOpen, Keeps, Keeps-IsOpen, Keeps-trans, is_live-pruned, is_live-erase, Keeps-if,
}

-- No entry of hash h.
abbrev Other : ℕ → MetaScan → Type 0
Other h s = s.hash ≢ h

protected_entry-Other :
    (env : Outside) (live : List Registered) (b : Bool) (h : ℕ) (s : MetaScan)
    → is_live h live ≡ true
    → protected_entry env live b s ≡ false
    → s.hash ≢ h
unfolding protected_entry
protected_entry-Other env live b h s l p e = ground (arith, ap (λ x. is_live x live) e)

to_size_victims-Other :
    (env : Outside) (live : List Registered) (b : Bool) (h arg total : ℕ) (l : List MetaScan)
    → is_live h live ≡ true
    → All (Other h) (to_size_victims env live b arg total l)
unfolding to_size_victims
to_size_victims-Other env live b h arg total [] e = tt
to_size_victims-Other env live b h arg total (s ∷ l) e =
    let less = total - min total (scan_bytes s) in
    let skipped = to_size_victims-Other env live b h arg total l e in
    let taken = to_size_victims-Other env live b h arg less l e in
    elim (Bool-cases (leb total arg)) [
      | inl c ↦ rw c tt
      | inr c ↦ elim (Bool-cases (protected_entry env live b s)) [
        | inl d ↦ rw (c, d) skipped
        | inr d ↦ rw (c, d) (protected_entry-Other env live b h s e d, taken)
      ]
    ]

aged_victims-Other :
    (env : Outside) (live : List Registered) (b : Bool) (h : ℕ) (mode : CleanupMode) (cutoff : ℕ)
    (l : List MetaScan)
    → is_live h live ≡ true
    → All (Other h) (aged_victims env live b mode cutoff l)
unfolding aged_victims
aged_victims-Other env live b h mode cutoff [] e = tt
aged_victims-Other env live b h mode cutoff (s ∷ l) e =
    let rest = aged_victims-Other env live b h mode cutoff l e in
    elim (Bool-cases (protected_entry env live b s)) [
      | inl d ↦ rw d rest
      | inr d ↦ elim (Bool-cases (spared_by_age mode cutoff s)) [
        | inl c ↦ rw (d, c) rest
        | inr c ↦ rw (d, c) (protected_entry-Other env live b h s e d, rest)
      ]
    ]

victims_of-Other :
    (mode : CleanupMode) (env : Outside) (live : List Registered) (b : Bool) (h arg : ℕ)
    (scans : List MetaScan)
    → is_live h live ≡ true
    → All (Other h) (victims_of mode env live b arg scans)
unfolding victims_of
victims_of-Other to_size env live b h arg scans e =
    to_size_victims-Other env live b h arg (total_from 0 scans) (sort_by_atime scans) e
victims_of-Other clean_all env live b h arg scans e =
    aged_victims-Other env live b h clean_all (cutoff_of env.now arg) scans e
victims_of-Other older_than env live b h arg scans e =
    aged_victims-Other env live b h older_than (cutoff_of env.now arg) scans e
victims_of-Other newer_than env live b h arg scans e =
    aged_victims-Other env live b h newer_than (cutoff_of env.now arg) scans e

remove_victim-Keeps :
    (env : Outside) (v : MetaScan) (h : ℕ) (s : Store)
    → IsOpen h s
    → v.hash ≢ h
    → Keeps h s (remove_victim env v s)
unfolding remove_victim
remove_victim-Keeps env v h s o n =
    let live = is_live-erase h v.hash s.registry n ∙ o.live in
    Keeps-if (env.unlinks v.hash dot_data)
      (record { live = live; files = unlink_entry-entry_files env h v s.files n })
      (record { live = live; files = refl })

remove_victims-Keeps :
    (env : Outside) (l : List MetaScan) (h : ℕ) (s : Store)
    → IsOpen h s
    → All (Other h) l
    → Keeps h s (remove_victims env l s)
unfolding remove_victims
remove_victims-Keeps env [] h s o a = record { live = o.live; files = refl }
remove_victims-Keeps env (v ∷ l) h s o a =
    let first = remove_victim-Keeps env v h s o a.0 in
    let t = remove_victim env v s in
    let still = Keeps-IsOpen h s t o first in
    Keeps-trans h s t (remove_victims env l t) first (remove_victims-Keeps env l h t still a.1)

reconciled-Keeps : (env : Outside) (h : ℕ) (s : Store) → IsOpen h s → Keeps h s (reconciled env s)
unfolding reconciled sweep_orphans
reconciled-Keeps env h s o = record {
  live = o.live;
  files = sweep_rest-entry_files env h s.files s.files o.sidecar;
}

pub cleanup-Keeps :
    (mode : CleanupMode) (arg : ℕ) (keep_pinned dry_run : Bool) (env : Outside) (h : ℕ) (s : Store)
    → IsOpen h s
    → Keeps h s (cleanup mode arg keep_pinned dry_run env s).1
unfolding cleanup
cleanup-Keeps mode arg keep_pinned dry_run env h s o =
    let live = pruned s.registry in
    let alive = is_live-pruned h s.registry ∙ o.live in
    let flushed = record s { registry = live } in
    let start : IsOpen h flushed = record { live = alive; sidecar = o.sidecar } in
    let scans = scan_objects env false s.files in
    let chosen = victims_of mode env live keep_pinned arg scans in
    let others = victims_of-Other mode env live keep_pinned h arg scans alive in
    let removed = remove_victims env chosen flushed in
    let gone = remove_victims-Keeps env chosen h flushed start others in
    let swept = reconciled-Keeps env h removed (Keeps-IsOpen h flushed removed start gone) in
    let all : Keeps h flushed (reconciled env removed) =
      Keeps-trans h flushed removed (reconciled env removed) gone swept in
    Keeps-if env.locks
      (Keeps-if dry_run (record { live = alive; files = refl })
        (record { live = all.live; files = all.files }))
      (record { live = o.live; files = refl })
