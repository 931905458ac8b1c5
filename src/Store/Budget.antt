-- ===== src/Store/Budget.antt =====
-- src/core/CacheStore.cc: the free-space floor, `effectiveMinFree`, `headroomToFloor`,
-- `resolveBudget`.
pub mod Bounds
use xrd_ucache.Base.{
  ℕ, zero, suc, ◌+◌, ◌-◌, ◌*◌, ◌/◌, ◌^◌, ◌≤◌, ◌<◌, ◌≡◌, refl, ◌⊎◌, inl, inr, arith, Bool, true,
  false, not, ◌&&◌, Option, none, some, ◌==◌, if◌then◌else◌, ltb, min, Bool-cases, Option-cases,
  word_limit,
}
use xrd_ucache.Store.{Settings, Outside}

abbrev pub gib : ℕ
gib = 2 ^ 30

abbrev floor_of : ℕ → ℕ → ℕ
floor_of avail total =
    if ltb 0 avail && ltb 0 total then min (min (50 * gib) (total / 10)) (avail / 2) else 10 * gib

unfoldable pub auto_floor : Option (ℕ × ℕ) → ℕ
auto_floor none = 10 * gib
auto_floor (some (avail, total)) = floor_of avail total

unfoldable pub effective_min_free : Settings → Outside → ℕ
unfolding auto_floor
effective_min_free cfg env =
    if not (cfg.min_free_bytes == 0)
    then cfg.min_free_bytes
    else if cfg.budget_auto
    then auto_floor env.space
    else 0

abbrev above : ℕ → Option (ℕ × ℕ) → ℕ
above floor none = 0
above floor (some (avail, total)) =
    if total == 0 then 0 else if ltb floor avail then avail - floor else 0

unfoldable pub headroom_to_floor : Settings → Outside → ℕ
unfolding effective_min_free
headroom_to_floor cfg env =
    let floor = effective_min_free cfg env in
    if floor == 0 then word_limit - 1 else above floor env.space
