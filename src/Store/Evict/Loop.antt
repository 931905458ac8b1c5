-- ===== src/Store/Evict/Loop.antt =====
-- src/core/CacheStore.cc: the loop of `evictNow` against the entries that it treats.
use xrd_ucache.Base.{
  ℕ, zero, suc, ◌≤◌, ◌<◌, ◌≡◌, refl, ◌⊎◌, inl, inr, arith, true, false, List, [], ◌∷◌, length, take,
  Bool-cases,
}
use xrd_ucache.Store.{Outside}
use xrd_ucache.Store.Scan.{MetaScan}
use xrd_ucache.Store.Evict.{Pass, Limits, need_evict, verdict, treat, evict_loop}

-- Every entry of a list treated, whatever is needed.
unfoldable pub treat_all : Limits → Outside → List MetaScan → Pass → Pass
treat_all l env [] p = p
treat_all l env (s ∷ rest) p = treat_all l env rest (treat env s (verdict l env s) p)

-- A pass treats the first `count` entries, no more than are needed, and as many as are.
pub record IsNeeded (l : Limits) (env : Outside) (xs : List MetaScan) (p r : Pass) : Type 0 where
  pub count : ℕ
  pub within : count ≤ length xs
  pub result : r ≡ treat_all l env (take count xs) p
  pub needed : (m : ℕ) → m < count → need_evict l (treat_all l env (take m xs) p) ≡ true
  pub ended : (count ≡ length xs) ⊎ (need_evict l r ≡ false)

IsNeeded-stop :
    (l : Limits) (env : Outside) (xs : List MetaScan) (p : Pass)
    → need_evict l p ≡ false
    → IsNeeded l env xs p p
unfolding treat_all
IsNeeded-stop l env xs p h = record {
  count = 0;
  within = omega arith;
  result = refl;
  needed = λ m k. absurd (omega arith);
  ended = inr h;
}

IsNeeded-next :
    (l : Limits) (env : Outside) (s : MetaScan) (xs : List MetaScan) (p r : Pass)
    → need_evict l p ≡ true
    → IsNeeded l env xs (treat env s (verdict l env s) p) r
    → IsNeeded l env (s ∷ xs) p r
unfolding treat_all
IsNeeded-next l env s xs p r h rest = record {
  count = suc rest.count;
  within = omega (arith, rest.within);
  result = rest.result;
  needed = before;
  ended = elim rest.ended [ inl e ↦ inl (omega arith) | inr e ↦ inr e ];
}
  where
    before :
        (m : ℕ) → m < suc rest.count → need_evict l (treat_all l env (take m (s ∷ xs)) p) ≡ true
    before zero k = h
    before (suc m) k = rest.needed m (omega arith)

pub evict_loop-IsNeeded :
    (l : Limits) (env : Outside) (xs : List MetaScan) (p : Pass)
    → IsNeeded l env xs p (evict_loop l env xs p)
unfolding evict_loop treat_all
evict_loop-IsNeeded l env [] p = record {
  count = 0;
  within = omega arith;
  result = refl;
  needed = λ m k. absurd (omega arith);
  ended = inl refl;
}
evict_loop-IsNeeded l env (s ∷ xs) p =
    let after = treat env s (verdict l env s) p in
    let rest = evict_loop-IsNeeded l env xs after in
    elim (Bool-cases (need_evict l p)) [
      | inl h ↦ rw h (IsNeeded-next l env s xs p (evict_loop l env xs after) h rest)
      | inr h ↦ rw h (IsNeeded-stop l env (s ∷ xs) p h)
    ]
