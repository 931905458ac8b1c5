-- ===== src/Store/Cleanup/Chosen.antt =====
-- src/core/CacheStore.cc: which entries `cleanup` chooses.
use xrd_ucache.Base.{
  ℕ, zero, suc, ◌-◌, ◌^◌, ◌≤◌, ◌<◌, ◌≡◌, refl, ◌⊎◌, inl, inr, arith, Bool, true, false, List, [],
  ◌∷◌, length, take, drop, All, if◌then◌else◌, Bool-cases, min, leb, ap, ◌∙◌,
}
use xrd_ucache.Store.{Outside, Registered}
use xrd_ucache.Store.Scan.{MetaScan, scan_bytes, total_from}
use xrd_ucache.Store.Evict.{sort_by_atime}
use xrd_ucache.Store.Evict.Sort.{
  exact_bytes, sort_by_atime-exact_bytes, sort_by_atime-perm, sort_by_atime-IsOldestFirst,
  oldest_first-split, IsOldestFirst, Since,
}
use mathlib.Core.List.{Perm}
use xrd_ucache.Store.Evict.Lru.{total_from-exact_bytes}
use xrd_ucache.Store.Cleanup.{to_size, protected_entry, to_size_victims, victims_of}

module _ (env : Outside) (live : List Registered) (keep_pinned : Bool) where
  -- The entries that a cleanup may take.
  unfoldable pub unprotected : List MetaScan → List MetaScan
  unprotected [] = []
  unprotected (s ∷ l) =
      let rest = unprotected l in if protected_entry env live keep_pinned s then rest else s ∷ rest

  -- What is chosen of a sorted list to get `total` down to `arg`: the entries it may take among the
  -- first `count`, no more than are needed, and as many as there are if all are needed.
  pub record IsEnough (arg total : ℕ) (xs chosen : List MetaScan) : Type 0 where
    pub count : ℕ
    pub within : count ≤ length xs
    pub result : chosen ≡ unprotected (take count xs)
    pub needed : (m : ℕ) → m < count → arg < total - exact_bytes (unprotected (take m xs))
    pub ended : (count ≡ length xs) ⊎ (total - exact_bytes chosen ≤ arg)

  IsEnough-stop : (arg total : ℕ) (xs : List MetaScan) → total ≤ arg → IsEnough arg total xs []
  unfolding unprotected exact_bytes
  IsEnough-stop arg total xs h = record {
    count = 0;
    within = omega arith;
    result = refl;
    needed = λ m k. absurd (omega arith);
    ended = inr (omega arith);
  }

  IsEnough-skip :
      (arg total : ℕ) (s : MetaScan) (xs chosen : List MetaScan)
      → arg < total
      → protected_entry env live keep_pinned s ≡ true
      → IsEnough arg total xs chosen
      → IsEnough arg total (s ∷ xs) chosen
  unfolding unprotected exact_bytes
  IsEnough-skip arg total s xs chosen h p r = record {
    count = suc r.count;
    within = omega (arith, r.within);
    result = rw p r.result;
    needed = before;
    ended = elim r.ended [ inl e ↦ inl (omega arith) | inr e ↦ inr e ];
  }
    where
      before : (m : ℕ) → m < suc r.count → arg < total - exact_bytes (unprotected (take m (s ∷ xs)))
      before zero k = omega arith
      before (suc m) k = rw p (r.needed m (omega arith))

  IsEnough-take :
      (arg total : ℕ) (s : MetaScan) (xs chosen : List MetaScan)
      → arg < total
      → scan_bytes s ≤ total
      → protected_entry env live keep_pinned s ≡ false
      → IsEnough arg (total - min total (scan_bytes s)) xs chosen
      → IsEnough arg total (s ∷ xs) (s ∷ chosen)
  unfolding unprotected exact_bytes
  IsEnough-take arg total s xs chosen h le p r = record {
    count = suc r.count;
    within = omega (arith, r.within);
    result = rw p (ap (λ l. s ∷ l) r.result);
    needed = before;
    ended = elim r.ended [ inl e ↦ inl (omega arith) | inr e ↦ inr (omega arith) ];
  }
    where
      before : (m : ℕ) → m < suc r.count → arg < total - exact_bytes (unprotected (take m (s ∷ xs)))
      before zero k = omega arith
      before (suc m) k = let rest = r.needed m (omega arith) in rw p (omega (arith, rest))

  to_size_victims-IsEnough :
      (arg total : ℕ) (xs : List MetaScan)
      → exact_bytes xs ≤ total
      → IsEnough arg total xs (to_size_victims env live keep_pinned arg total xs)
  unfolding to_size_victims exact_bytes unprotected
  to_size_victims-IsEnough arg total [] le = record {
    count = 0;
    within = omega arith;
    result = refl;
    needed = λ m k. absurd (omega arith);
    ended = inl refl;
  }
  to_size_victims-IsEnough arg total (s ∷ xs) le =
      let less = total - min total (scan_bytes s) in
      let skipped = to_size_victims-IsEnough arg total xs (omega arith) in
      let taken = to_size_victims-IsEnough arg less xs (omega arith) in
      let rest = to_size_victims env live keep_pinned arg total xs in
      let rest' = to_size_victims env live keep_pinned arg less xs in
      elim (Bool-cases (leb total arg)) [
        | inl c ↦ rw c (IsEnough-stop arg total (s ∷ xs) (ground arith))
        | inr c ↦
            let h : arg < total = ground arith in
            elim (Bool-cases (protected_entry env live keep_pinned s)) [
              | inl d ↦ rw (c, d) (IsEnough-skip arg total s xs rest h d skipped)
              | inr d ↦ rw (c, d) (IsEnough-take arg total s xs rest' h (omega arith) d taken)
            ]
      ]

-- What is chosen of a scan: the entries visited are those of the scan, oldest first, and the ones
-- treated are as old as those that are not come to.
pub record IsOldestEnough (env : Outside) (live : List Registered) (keep_pinned : Bool) (arg : ℕ)
    (scans chosen : List MetaScan) : Type 0 where
  pub visited : List MetaScan
  pub all : Perm visited scans
  pub sorted : IsOldestFirst visited
  pub enough : IsEnough env live keep_pinned arg (exact_bytes scans) visited chosen
  pub oldest :
      All (λ s. All (Since s.atime) (drop enough.count visited)) (take enough.count visited)

-- A cleanup to a size, for a cache whose bytes fit 64 bits, goes through all the entries of the scan
-- from the oldest on, and takes those that are not protected until the bytes left are at most the
-- size, or to the end; before each entry that it treats the bytes left are above the size. None of
-- the entries that it treats was read after one that it does not come to.
pub victims_of-IsEnough :
    (env : Outside) (live : List Registered) (keep_pinned : Bool) (arg : ℕ) (scans : List MetaScan)
    → exact_bytes scans < 2 ^ 64
    → IsOldestEnough env live keep_pinned arg scans
        (victims_of to_size env live keep_pinned arg scans)
unfolding victims_of
victims_of-IsEnough env live keep_pinned arg scans small =
    let sum : total_from 0 scans ≡ exact_bytes scans =
      total_from-exact_bytes scans 0 (omega arith) ∙ omega arith in
    let same = sort_by_atime-exact_bytes scans in
    let enough =
      to_size_victims-IsEnough env live keep_pinned arg (exact_bytes scans) (sort_by_atime scans)
        (omega (arith, same)) in
    rw sum (record {
      visited = sort_by_atime scans;
      all = sort_by_atime-perm scans;
      sorted = sort_by_atime-IsOldestFirst scans;
      enough = enough;
      oldest =
          oldest_first-split enough.count (sort_by_atime scans) (sort_by_atime-IsOldestFirst scans);
    })
