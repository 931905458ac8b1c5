-- ===== src/Store/Open/Blocked.antt =====
-- src/core/CacheStore.cc: when growth stops, and what is then still opened.
use xrd_ucache.Base.{
  ℕ, zero, suc, ◌≡◌, refl, inl, inr, arith, Bool, true, false, ◌||◌, List, [], ◌∷◌, length, take,
  sym, ap, ◌∙◌,
}
use mathlib.Core.Path.{subst}
use xrd_ucache.Store.{Settings, Outside, Store, pruned}
use xrd_ucache.Store.Scan.{MetaScan, scan_objects}
use xrd_ucache.Store.Evict.{
  Pass, Limits, Verdict, passed_over, too_recent, victim, need_evict, verdict, treat, evict_entry,
  evict_pass, sort_by_atime, limits_of, first_pass, evict_locked,
}
use xrd_ucache.Store.Evict.Loop.{treat_all}
use xrd_ucache.Store.Evict.Lru.{evict_pass-IsLru}

-- Some entry of a list is passed over because it was read too recently.
abbrev is_recent : Verdict → Bool
is_recent too_recent = true
is_recent passed_over = false
is_recent victim = false

unfoldable pub any_recent : Limits → Outside → List MetaScan → Bool
any_recent l env [] = false
any_recent l env (s ∷ rest) = is_recent (verdict l env s) || any_recent l env rest

treat-saw :
    (env : Outside) (s : MetaScan) (v : Verdict) (p : Pass)
    → (treat env s v p).saw_protected ≡ (is_recent v || p.saw_protected)
unfolding evict_entry
treat-saw env s passed_over p = refl
treat-saw env s too_recent p = refl
treat-saw env s victim p = refl

treat_all-saw :
    (l : Limits) (env : Outside) (xs : List MetaScan) (p : Pass)
    → (treat_all l env xs p).saw_protected ≡ (any_recent l env xs || p.saw_protected)
unfolding treat_all any_recent
treat_all-saw l env [] p = refl
treat_all-saw l env (s ∷ xs) p =
    let rest = treat_all-saw l env xs (treat env s (verdict l env s) p) in
    let first = treat-saw env s (verdict l env s) p in ground (arith, rest, first)

take_all {ℓ} : {A : Type ℓ} (n : ℕ) (xs : List A) → n ≡ length xs → take n xs ≡ xs
take_all zero [] e = refl
take_all zero (x ∷ xs) e = absurd (omega arith)
take_all (suc n) [] e = refl
take_all (suc n) (x ∷ xs) e = ap (λ l. x ∷ l) (take_all n xs (omega arith))

blocked_parts :
    (cfg : Settings) (env : Outside) (st : Store)
    → (evict_locked cfg env st).admission_blocked ≡ true
    → (need_evict (limits_of cfg env (pruned st.registry)) (evict_pass cfg env st) ≡ true)
      × ((evict_pass cfg env st).saw_protected ≡ true)
unfolding evict_locked
blocked_parts cfg env st e = ground arith

start_unseen :
    (env : Outside) (scans : List MetaScan) (st : Store)
    → (first_pass env scans st).saw_protected ≡ false
unfolding first_pass
start_unseen env scans st = refl

-- After a pass that leaves growth blocked, every entry of the scan has been treated, the budget or
-- the floor is still not met, and some entry was kept only because it was read too recently.
pub evict_locked-blocked :
    (cfg : Settings) (env : Outside) (st : Store)
    → (evict_locked cfg env st).admission_blocked ≡ true
    → (evict_pass cfg env st
        ≡ treat_all
            (limits_of cfg env (pruned st.registry))
            env
            (sort_by_atime (scan_objects env false st.files))
            (first_pass env (scan_objects env false st.files) st))
      × (need_evict (limits_of cfg env (pruned st.registry)) (evict_pass cfg env st) ≡ true)
      × (any_recent
            (limits_of cfg env (pruned st.registry))
            env
            (sort_by_atime (scan_objects env false st.files))
          ≡ true)
evict_locked-blocked cfg env st e =
    let l = limits_of cfg env (pruned st.registry) in
    let sorted = sort_by_atime (scan_objects env false st.files) in
    let start = first_pass env (scan_objects env false st.files) st in
    let (need, saw) = blocked_parts cfg env st e in
    let run = (evict_pass-IsLru cfg env st).needed in
    let all : take run.count sorted ≡ sorted = elim run.ended [
      | inl k ↦ take_all run.count sorted k
      | inr k ↦ absurd (cc)
    ] in
    let same : evict_pass cfg env st ≡ treat_all l env sorted start =
      subst (λ xs. evict_pass cfg env st ≡ treat_all l env xs start) all run.result in
    let seen = sym (ap (λ (p : Pass). p.saw_protected) same) ∙ saw in
    let split = treat_all-saw l env sorted start in
    let unseen = start_unseen env (scan_objects env false st.files) st in
    (same, need, ground (arith, seen, split, unseen))
