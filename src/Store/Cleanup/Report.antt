-- ===== src/Store/Cleanup/Report.antt =====
-- src/core/CacheStore.cc: the report of `cleanup` against what it removes.
use xrd_ucache.Base.{ℕ, if◌then◌else◌, add64}
use xrd_ucache.Store.{Outside, Store, dot_data}
use xrd_ucache.Store.Scan.{MetaScan, scan_bytes}

-- The bytes of a victim count where its data file could be removed.
abbrev counted : Outside → MetaScan → ℕ → ℕ
counted env v n = if env.unlinks v.hash dot_data then add64 n (scan_bytes v) else n
