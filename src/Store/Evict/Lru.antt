-- ===== src/Store/Evict/Lru.antt =====
-- src/core/CacheStore.cc: which entries a pass of `evictNow` removes, and what it accounts for.
use xrd_ucache.Base.{
  ℕ, ◌+◌, ◌-◌, ◌^◌, ◌≤◌, ◌<◌, ◌≡◌, inl, inr, arith, false, List, [], ◌∷◌, take, drop, Bool-cases,
  add64, All, ◌∙◌,
}
use xrd_ucache.Store.{Settings, Outside, Store, pruned}
use xrd_ucache.Store.Scan.{MetaScan, scan_objects, scan_bytes, total_from}
use xrd_ucache.Store.Evict.{
  Pass, Limits, Verdict, passed_over, too_recent, victim, need_evict, verdict, treat, evict_entry,
  evict_loop, evict_pass, sort_by_atime, limits_of, first_pass,
}
use xrd_ucache.Store.Evict.Loop.{IsNeeded, evict_loop-IsNeeded}
use xrd_ucache.Store.Evict.Sort.{
  Since, sort_by_atime-IsOldestFirst, oldest_first-split, exact_bytes, sort_by_atime-exact_bytes,
}

-- What a pass of a store computes: with `count` of the scan's entries, the oldest ones, treated.
pub record IsLru (cfg : Settings) (env : Outside) (st : Store) : Type 0 where
  pub needed :
      IsNeeded
        (limits_of cfg env (pruned st.registry))
        env
        (sort_by_atime (scan_objects env false st.files))
        (first_pass env (scan_objects env false st.files) st)
        (evict_pass cfg env st)
  pub oldest :
      All
        (λ s.
          All (Since s.atime) (drop needed.count (sort_by_atime (scan_objects env false st.files))))
        (take needed.count (sort_by_atime (scan_objects env false st.files)))

-- A pass treats the oldest entries of the scan, in order, and only as long as the budget or the
-- floor asks for it: before each of them more is needed, and after them the need is met or none
-- is left.
pub evict_pass-IsLru : (cfg : Settings) (env : Outside) (st : Store) → IsLru cfg env st
unfolding evict_pass
evict_pass-IsLru cfg env st =
    let scans = scan_objects env false st.files in
    let sorted = sort_by_atime scans in
    let loop =
      evict_loop-IsNeeded (limits_of cfg env (pruned st.registry)) env sorted
        (first_pass env scans st) in
    record {
      needed = loop;
      oldest = oldest_first-split loop.count sorted (sort_by_atime-IsOldestFirst scans);
    }

-- The pass's usage and the bytes it credits follow one another, `total` being the scan's bytes.
record IsAccounted (total credited : ℕ) (p : Pass) : Type 0 where
  below : p.usage ≤ total
  credit : p.evicted_bytes ≡ add64 credited (total - p.usage)

treat-IsAccounted :
    (env : Outside) (s : MetaScan) (v : Verdict) (total credited : ℕ) (p : Pass) (more : ℕ)
    → total < 2 ^ 64
    → scan_bytes s + more ≤ p.usage
    → IsAccounted total credited p
    → IsAccounted total credited (treat env s v p) × (more ≤ (treat env s v p).usage)
unfolding evict_entry
treat-IsAccounted env s passed_over total credited p more small h a = (a, omega arith)
treat-IsAccounted env s too_recent total credited p more small h a =
    (record { below = a.below; credit = a.credit }, omega arith)
treat-IsAccounted env s victim total credited p more small h a =
    let le = a.below in
    let e = a.credit in (record { below = omega arith; credit = omega arith }, omega arith)

evict_loop-IsAccounted :
    (l : Limits) (env : Outside) (xs : List MetaScan) (total credited : ℕ) (p : Pass)
    → total < 2 ^ 64
    → exact_bytes xs ≤ p.usage
    → IsAccounted total credited p
    → IsAccounted total credited (evict_loop l env xs p)
unfolding evict_loop exact_bytes
evict_loop-IsAccounted l env [] total credited p small h a = a
evict_loop-IsAccounted l env (s ∷ xs) total credited p small h a =
    let after = treat env s (verdict l env s) p in
    let step =
      treat-IsAccounted env s (verdict l env s) total credited p (exact_bytes xs) small h a in
    elim (Bool-cases (need_evict l p)) [
      | inl c ↦ rw c (evict_loop-IsAccounted l env xs total credited after small step.1 step.0)
      | inr c ↦ rw c a
    ]

pub total_from-exact_bytes :
    (xs : List MetaScan) (n : ℕ)
    → n + exact_bytes xs < 2 ^ 64
    → total_from n xs ≡ n + exact_bytes xs
unfolding total_from exact_bytes
total_from-exact_bytes [] n h = omega arith
total_from-exact_bytes (s ∷ xs) n h =
    let next : add64 n (scan_bytes s) ≡ n + scan_bytes s = omega arith in
    rw next (total_from-exact_bytes xs (n + scan_bytes s) (omega arith) ∙ omega arith)

-- For a cache whose bytes fit 64 bits, the usage after a pass is at most the bytes of the scan, and
-- the statistics grow by the difference, modulo 2 ^ 64.
pub evict_pass-accounts :
    (cfg : Settings) (env : Outside) (st : Store)
    → exact_bytes (scan_objects env false st.files) < 2 ^ 64
    → st.evicted_bytes < 2 ^ 64
    → ((evict_pass cfg env st).usage ≤ exact_bytes (scan_objects env false st.files))
      × ((evict_pass cfg env st).evicted_bytes
          ≡ add64 st.evicted_bytes
              (exact_bytes (scan_objects env false st.files) - (evict_pass cfg env st).usage))
unfolding evict_pass first_pass
evict_pass-accounts cfg env st small counter =
    let scans = scan_objects env false st.files in
    let sum = total_from-exact_bytes scans 0 (omega arith) in
    let same = sort_by_atime-exact_bytes scans in
    let start : IsAccounted (exact_bytes scans) st.evicted_bytes (first_pass env scans st) =
      record { below = omega (arith, sum); credit = omega (arith, sum) } in
    let a =
      evict_loop-IsAccounted (limits_of cfg env (pruned st.registry)) env (sort_by_atime scans)
        (exact_bytes scans) st.evicted_bytes (first_pass env scans st) small
        (omega (arith, sum, same)) start in
    (a.below, a.credit)
