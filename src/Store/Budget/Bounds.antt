-- ===== src/Store/Budget/Bounds.antt =====
-- src/core/CacheStore.cc: the bounds of the automatic floor and of the room above a floor.
use xrd_ucache.Base.{ℕ, ◌+◌, ◌*◌, ◌/◌, ◌^◌, ◌<◌, ◌≡◌, arith, true, some, min}
use xrd_ucache.Store.{Settings, Outside}
use xrd_ucache.Store.Budget.{effective_min_free, headroom_to_floor, auto_floor}

-- On a disk whose free and total space are known, the automatic floor is the least of 50 GiB, a tenth
-- of the disk and half of what is free; if that is not 0, the room reported above it and the floor
-- are together what is free.
pub effective_min_free-headroom :
    (cfg : Settings) (env : Outside) (avail total : ℕ)
    → env.space ≡ some (avail, total)
    → 0 < avail
    → 0 < total
    → cfg.min_free_bytes ≡ 0
    → cfg.budget_auto ≡ true
    → 0 < effective_min_free cfg env
    → (effective_min_free cfg env ≡ min (min (50 * 2 ^ 30) (total / 10)) (avail / 2))
      × (headroom_to_floor cfg env + effective_min_free cfg env ≡ avail)
unfolding effective_min_free headroom_to_floor auto_floor
effective_min_free-headroom cfg env avail total e a t m b pos =
    rw (e, b) (ground (arith, e, b, pos))
