-- ===== src/Store/Steps/Admit.antt =====
-- src/core/CacheStore.cc: `open`, `invalidate` and `removeEntry` keep an entry that is open.
use xrd_ucache.Base.{
  ℕ, ◌≡◌, refl, inl, inr, true, false, not, ◌&&◌, ◌||◌, List, ◌∷◌, Bool-cases, ◌∙◌,
}
use mathlib.Core.Logic.{◌≢◌}
use xrd_ucache.Store.{
  Suffix, dot_data, dot_meta, dot_tdata, dot_slots, File, Settings, Outside, Store, Registered,
  listed, is_live, erase,
}
use xrd_ucache.Store.Evict.Keeps.{unlink-entry_files}
use xrd_ucache.Store.Open.{
  maybe_evict, admit, admit_new, register, invalidate, remove_entry, decline, count_key, seen,
}
use xrd_ucache.Store.Steps.{IsOpen, Keeps, Keeps-IsOpen, Keeps-trans, is_live-erase, is_live-cons}
use xrd_ucache.Store.Steps.Evict.{maybe_evict-Keeps}

admit_new-Keeps :
    (cfg : Settings) (env : Outside) (g h : ℕ) (s : Store)
    → IsOpen h s
    → Keeps h s (admit_new cfg env g s).1
unfolding admit_new decline
admit_new-Keeps cfg env g h s o =
    let pass = maybe_evict-Keeps cfg env h s o in
    let same : Keeps h s s = record { live = o.live; files = refl } in
    elim (Bool-cases (listed g dot_meta s.files)) [
      | inl c ↦ elim (Bool-cases (s.admission_blocked && not (listed g dot_meta s.files))) [
        | inl d ↦ rw c (rw d (record { live = o.live; files = refl }))
        | inr d ↦ rw c (rw d same)
      ]
      | inr c ↦
          let t = maybe_evict cfg env s in
          elim (Bool-cases (t.admission_blocked && not (listed g dot_meta t.files))) [
            | inl d ↦ rw c (rw d (record { live = pass.live; files = pass.files }))
            | inr d ↦ rw c (rw d pass)
          ]
    ]

-- To open a key that this process has not open is to open another key.
not-live : (g h : ℕ) (l : List Registered) → is_live h l ≡ true → is_live g l ≡ false → g ≢ h
not-live g h l live dead e = cc

pub admit-Keeps :
    (cfg : Settings) (env : Outside) (g h : ℕ) (s : Store)
    → IsOpen h s
    → Keeps h s (admit cfg env g s).1
unfolding admit
admit-Keeps cfg env g h s o = elim (Bool-cases (is_live g s.registry)) [
  | inl c ↦ rw c (record { live = o.live; files = refl })
  | inr c ↦
      let other = not-live g h s.registry o.live c in
      let erased = record s { registry = erase g s.registry } in
      let rest =
        admit_new-Keeps cfg env g h erased
          (record { live = is_live-erase h g s.registry other ∙ o.live; sidecar = o.sidecar }) in
      rw c (record { live = rest.live; files = rest.files })
]

count_key-Keeps : (g h : ℕ) (s : Store) → is_live h s.registry ≡ true → Keeps h s (count_key g s)
unfolding count_key
count_key-Keeps g h s live = elim (Bool-cases (s.dumps_stats && not (seen g s.seen_keys))) [
  | inl c ↦ rw c (record { live = live; files = refl })
  | inr c ↦ rw c (record { live = live; files = refl })
]

pub register-Keeps :
    (cfg : Settings) (env : Outside) (g h : ℕ) (s : Store)
    → IsOpen h s
    → Keeps h s (register cfg env g s)
unfolding register
register-Keeps cfg env g h s o = elim (Bool-cases (is_live g s.registry)) [
  | inl c ↦ rw c (record { live = o.live; files = refl })
  | inr c ↦
      let other = not-live g h s.registry o.live c in
      let item : Registered = record { hash = g; alive = true } in
      let entered = record s { registry = item ∷ erase g s.registry } in
      let erased = is_live-erase h g s.registry other ∙ o.live in
      let stays = is_live-cons h item (erase g s.registry) erased in
      let counted = count_key-Keeps g h entered stays in
      let still =
        Keeps-IsOpen h entered (count_key g entered) (record { live = stays; sidecar = o.sidecar })
          counted in
      let rest =
        Keeps-trans h entered (count_key g entered) (maybe_evict cfg env (count_key g entered))
          counted (maybe_evict-Keeps cfg env h (count_key g entered) still) in
      rw c (record { live = rest.live; files = rest.files })
]

pub invalidate-Keeps :
    (env : Outside) (g h : ℕ) (s : Store) → IsOpen h s → g ≢ h → Keeps h s (invalidate env g s)
unfolding invalidate
invalidate-Keeps env g h s o n =
    let one_goes = λ (t : Suffix) (k : List File). unlink-entry_files env h g t k n in
    record { live = is_live-erase h g s.registry n ∙ o.live; files = simp one_goes }

pub remove_entry-Keeps :
    (env : Outside) (g h : ℕ) (s : Store) → IsOpen h s → g ≢ h → Keeps h s (remove_entry env g s).1
unfolding remove_entry
remove_entry-Keeps env g h s o n =
    let gone = invalidate-Keeps env g h s o n in
    let existed =
      (listed g dot_meta s.files || listed g dot_data s.files)
      || (listed g dot_tdata s.files || listed g dot_slots s.files) in
    elim (Bool-cases existed) [
      | inl c ↦ rw c (record { live = gone.live; files = gone.files })
      | inr c ↦ rw c gone
    ]
