-- ===== src/Store/Steps/Evict.antt =====
-- src/core/CacheStore.cc: `evictNow`, `maybeEvict` and `notePersisted` keep an open entry.
use xrd_ucache.Base.{
  ℕ, ◌≡◌, refl, inl, inr, Bool, true, false, ◌||◌, if◌then◌else◌, Bool-cases, All-intro, ◌∙◌, ltb,
  add64,
}
use xrd_ucache.Store.{Settings, Outside, Store, is_live}
use xrd_ucache.Store.Scan.{scan_objects}
use xrd_ucache.Store.Evict.{evict_now, evict_locked, sweep_orphans}
use xrd_ucache.Store.Evict.Keeps.{evict_now-keeps}
use xrd_ucache.Store.Open.{
  maybe_evict, note_persisted, rate_limited, over_budget, low_disk, eviction_off,
}
use xrd_ucache.Store.Steps.{IsOpen, Keeps, is_live-pruned, Keeps-if}

evict_locked-live :
    (cfg : Settings) (env : Outside) (h : ℕ) (s : Store)
    → is_live h s.registry ≡ true
    → is_live h (evict_locked cfg env s).registry ≡ true
unfolding evict_locked sweep_orphans
evict_locked-live cfg env h s e = is_live-pruned h s.registry ∙ e

evict_now-live :
    (cfg : Settings) (env : Outside) (h : ℕ) (s : Store)
    → is_live h s.registry ≡ true
    → is_live h (evict_now cfg env s).1.registry ≡ true
unfolding evict_now
evict_now-live cfg env h s e = elim (Bool-cases env.locks) [
  | inl c ↦ rw c (evict_locked-live cfg env h s e)
  | inr c ↦ rw c e
]

pub evict_now-Keeps :
    (cfg : Settings) (env : Outside) (h : ℕ) (s : Store)
    → IsOpen h s
    → Keeps h s (evict_now cfg env s).1
evict_now-Keeps cfg env h s o =
    let live = is_live-pruned h s.registry ∙ o.live in
    record {
      live = evict_now-live cfg env h s o.live;
      files =
          evict_now-keeps cfg env s h o.sidecar
            (All-intro _ (λ x. λ e. inr (inl (rw e live))) (scan_objects env false s.files));
    }

pub maybe_evict-Keeps :
    (cfg : Settings) (env : Outside) (h : ℕ) (s : Store)
    → IsOpen h s
    → Keeps h s (maybe_evict cfg env s)
unfolding maybe_evict
maybe_evict-Keeps cfg env h s o =
    let checked = record s { last_check = env.now } in
    let same : Keeps h s s = record { live = o.live; files = refl } in
    let timed : Keeps h s checked = record { live = o.live; files = refl } in
    let pass = evict_now-Keeps cfg env h checked (record { live = o.live; sidecar = o.sidecar }) in
    let passed : Keeps h s (evict_now cfg env checked).1 = record {
      live = pass.live;
      files = pass.files;
    } in
    Keeps-if (eviction_off cfg) same (
      Keeps-if (rate_limited cfg env s) same
        (Keeps-if (over_budget cfg s || low_disk cfg env) passed timed))

pub note_persisted-Keeps :
    (cfg : Settings) (env : Outside) (n : ℕ) (b : Bool) (h : ℕ) (s : Store)
    → IsOpen h s
    → Keeps h s (note_persisted cfg env n b s)
unfolding note_persisted
note_persisted-Keeps cfg env n b h s o =
    let counted = record s { approx_usage = add64 s.approx_usage n } in
    let timed = maybe_evict-Keeps cfg env h s o in
    let pass =
      maybe_evict-Keeps cfg env h counted (record { live = o.live; sidecar = o.sidecar }) in
    let same : Keeps h s s = record { live = o.live; files = refl } in
    let added : Keeps h s counted = record { live = o.live; files = refl } in
    let passed : Keeps h s (maybe_evict cfg env counted) = record {
      live = pass.live;
      files = pass.files;
    } in
    Keeps-if (eviction_off cfg) same (
      Keeps-if b (by_count (ltb 0 cfg.max_bytes) passed timed)
        (Keeps-if (ltb 0 cfg.max_bytes) added same))
  where
    by_count :
        (c : Bool)
        → Keeps h s (maybe_evict cfg env (record s { approx_usage = add64 s.approx_usage n }))
        → Keeps h s (maybe_evict cfg env s)
        → Keeps h s (
            maybe_evict cfg env
              (if c then record s { approx_usage = add64 s.approx_usage n } else s))
    by_count true p q = p
    by_count false p q = q
