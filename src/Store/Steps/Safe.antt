-- ===== src/Store/Steps/Safe.antt =====
-- src/core/CacheStore.cc: an entry that is open keeps its files through any sequence of operations.
use xrd_ucache.Base.{ℕ, refl}
use xrd_ucache.Store.{Settings, Store}
use xrd_ucache.Store.Steps.{
  Step, persist, ask, enter, evict, clean, drop_other, remove_other, Steps, here, next, IsOpen,
  Keeps, Keeps-IsOpen, Keeps-trans,
}
use xrd_ucache.Store.Steps.Evict.{evict_now-Keeps, note_persisted-Keeps}
use xrd_ucache.Store.Steps.Admit.{admit-Keeps, register-Keeps, invalidate-Keeps, remove_entry-Keeps}
use xrd_ucache.Store.Steps.Clean.{cleanup-Keeps}

Step-Keeps : {cfg : Settings} {h : ℕ} {s t : Store} → Step cfg h s t → IsOpen h s → Keeps h s t
Step-Keeps {cfg} {h} (persist env n b s) o = note_persisted-Keeps cfg env n b h s o
Step-Keeps {cfg} {h} (ask env g s) o = admit-Keeps cfg env g h s o
Step-Keeps {cfg} {h} (enter env g s) o = register-Keeps cfg env g h s o
Step-Keeps {cfg} {h} (evict env s) o = evict_now-Keeps cfg env h s o
Step-Keeps {cfg} {h} (clean mode arg k d env s) o = cleanup-Keeps mode arg k d env h s o
Step-Keeps {cfg} {h} (drop_other env g s n) o = invalidate-Keeps env g h s o n
Step-Keeps {cfg} {h} (remove_other env g s n) o = remove_entry-Keeps env g h s o n

-- While an entry is open and its sidecar is on disk, no sequence of evictions, cleanups, opens,
-- writes counted, and removals of other keys takes any of its files, and it stays open.
pub Steps-Keeps :
    {cfg : Settings} {h : ℕ} {s t : Store} → Steps cfg h s t → IsOpen h s → Keeps h s t
Steps-Keeps here o = record { live = o.live; files = refl }
Steps-Keeps {cfg} {h} {s} (next {t = t} {u = u} r last) o =
    let before = Steps-Keeps r o in
    Keeps-trans h s t u before (Step-Keeps last (Keeps-IsOpen h s t o before))
