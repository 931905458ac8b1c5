-- ===== src/Base/PageMapLaws.antt =====
-- Laws of the ordered page map.
use Prim.Native.Nat.{ℕ, suc, ◌+◌, ◌≤◌, ◌<◌}
use mathlib.Core.Path.{◌≡◌, refl, subst}
use mathlib.Core.Logic.{◌⊎◌, inl, inr}
use mathlib.Core.Bool.{Bool, true, false}
use mathlib.Core.List.{◌++◌, [], ◌∷◌}
use mathlib.Core.Option.{Option, none, some}
use native.Mathlib.Omega.{arith}
use xrd_ucache.Base.Tests.{◌==◌, if◌then◌else◌, Bool-cases, ==_iff}
use xrd_ucache.Base.PageMap.{
  PageMap, find, holds, emplace, assign, erase, select, total, Each, SortedFrom,
}

module _ {ℓ} {V : Type ℓ} where
  -- A page that the map holds is found, and no other.
  pub holds-find :
      (k : ℕ) (m : PageMap V)
      → ((holds k m ≡ false) × (find k m ≡ none))
        ⊎ ((v : V) × (holds k m ≡ true) × (find k m ≡ some v))
  unfolding holds find
  holds-find k [] = inl (refl, refl)
  holds-find k ((j, w) ∷ m) = elim (Bool-cases (k == j)) [
    | inl e ↦ inr (w, rw e, rw e)
    | inr n ↦ rw n (holds-find k m)
  ]

  pub SortedFrom-mono : (a b : ℕ) (m : PageMap V) → a ≤ b → SortedFrom b m → SortedFrom a m
  SortedFrom-mono a b [] h s = tt
  SortedFrom-mono a b ((j, w) ∷ m) h s = (omega arith, s.1)

  -- Nothing is found below the start of a sorted map.
  pub find-below : (low k : ℕ) (m : PageMap V) → SortedFrom low m → k < low → find k m ≡ none
  unfolding find
  find-below low k [] s h = refl
  find-below low k ((j, w) ∷ m) s h = ground (arith, find-below (suc j) k m s.1)

  pub emplace-SortedFrom :
      (low k : ℕ) (v : V) (m : PageMap V)
      → low ≤ k
      → SortedFrom low m
      → SortedFrom low (emplace k v m)
  unfolding emplace
  emplace-SortedFrom low k v [] h s = (h, tt)
  emplace-SortedFrom low k v ((j, w) ∷ m) h s = ground (arith, emplace-SortedFrom (suc j) k v m)

  pub assign-SortedFrom :
      (low k : ℕ) (v : V) (m : PageMap V) → SortedFrom low m → SortedFrom low (assign k v m)
  unfolding assign
  assign-SortedFrom low k v [] s = tt
  assign-SortedFrom low k v ((j, w) ∷ m) s = (s.0, assign-SortedFrom (suc j) k v m s.1)

  pub erase-SortedFrom : (low k : ℕ) (m : PageMap V) → SortedFrom low m → SortedFrom low (erase k m)
  unfolding erase
  erase-SortedFrom low k [] s = tt
  erase-SortedFrom low k ((j, w) ∷ m) s =
      ground (arith, erase-SortedFrom (suc j) k m s.1, SortedFrom-mono low (suc j) (erase k m))

  pub select-SortedFrom :
      (keep : ℕ → V → Bool) (low : ℕ) (m : PageMap V)
      → SortedFrom low m
      → SortedFrom low (select keep m)
  unfolding select
  select-SortedFrom keep low [] s = tt
  select-SortedFrom keep low ((j, w) ∷ m) s =
      ground
        (arith, select-SortedFrom keep (suc j) m s.1, SortedFrom-mono low (suc j) (select keep m))

  pub find-emplace :
      (k j : ℕ) (v : V) (m : PageMap V)
      → find k m ≡ none
      → find j (emplace k v m) ≡ (if k == j then some v else find j m)
  unfolding find emplace
  find-emplace k j v [] h = ground arith
  find-emplace k j v ((i, w) ∷ m) h = ground (arith, find-emplace k j v m)

  abbrev pub replaced : V → Option V → Option V
  replaced v none = none
  replaced v (some w) = some v

  pub find-assign :
      (k j : ℕ) (v : V) (m : PageMap V)
      → find j (assign k v m) ≡ (if k == j then replaced v (find j m) else find j m)
  unfolding find assign
  find-assign k j v [] = ground arith
  find-assign k j v ((i, w) ∷ m) = ground (arith, find-assign k j v m)

  pub find-erase :
      (k j : ℕ) (m : PageMap V) → find j (erase k m) ≡ (if k == j then none else find j m)
  unfolding find erase
  find-erase k j [] = ground arith
  find-erase k j ((i, w) ∷ m) = ground (arith, find-erase k j m)

  pub find-select :
      (keep : ℕ → V → Bool) (low k : ℕ) (m : PageMap V)
      → SortedFrom low m
      → find k (select keep m)
        ≡ elim (find k m) [ none ↦ none | some v ↦ if keep k v then some v else none ]
  unfolding find select
  find-select keep low k [] s = refl
  find-select keep low k ((i, w) ∷ m) s = elim (Bool-cases (k == i)) [
    | inl e ↦
        let same : k ≡ i = ground arith in
        let gone : find k m ≡ none = find-below (suc i) k m s.1 (omega arith) in
        let rest = find-select keep (suc i) k m s.1 in rw same (ground (arith, rest, gone))
    | inr n ↦ ground (arith, find-select keep (suc i) k m s.1)
  ]

-- Sums over the entries.
module _ {ℓ} {V : Type ℓ} (f : ℕ → V → ℕ) where
  pub total-emplace :
      (k : ℕ) (v : V) (m : PageMap V)
      → find k m ≡ none
      → total f (emplace k v m) ≡ total f m + f k v
  unfolding find emplace total
  total-emplace k v [] h = omega arith
  total-emplace k v ((j, w) ∷ m) h = ground (arith, total-emplace k v m)

  assign-absent : (k : ℕ) (v : V) (m : PageMap V) → find k m ≡ none → assign k v m ≡ m
  unfolding find assign
  assign-absent k v [] h = refl
  assign-absent k v ((j, w) ∷ m) h = ground (arith, assign-absent k v m)

  erase-absent : (k : ℕ) (m : PageMap V) → find k m ≡ none → erase k m ≡ m
  unfolding find erase
  erase-absent k [] h = refl
  erase-absent k ((j, w) ∷ m) h = ground (arith, erase-absent k m)

  pub total-assign :
      (low k : ℕ) (v w : V) (m : PageMap V)
      → SortedFrom low m
      → find k m ≡ some w
      → total f (assign k v m) + f k w ≡ total f m + f k v
  unfolding find assign total
  total-assign low k v w [] s h = cc
  total-assign low k v w ((j, u) ∷ m) s h =
      ground
        (arith, find-below (suc j) k m s.1, assign-absent k v m, total-assign (suc j) k v w m s.1)

  pub total-erase :
      (low k : ℕ) (w : V) (m : PageMap V)
      → SortedFrom low m
      → find k m ≡ some w
      → total f (erase k m) + f k w ≡ total f m
  unfolding find erase total
  total-erase low k w [] s h = cc
  total-erase low k w ((j, u) ∷ m) s h =
      ground (arith, find-below (suc j) k m s.1, erase-absent k m, total-erase (suc j) k w m s.1)

-- Properties of every entry.
module _ {ℓ κ} {V : Type ℓ} (P : ℕ → V → Type κ) where
  pub Each-find : (k : ℕ) (v : V) (m : PageMap V) → Each P m → find k m ≡ some v → P k v
  unfolding find
  Each-find k v [] a h = absurd (cc)
  Each-find k v ((j, w) ∷ m) a h = elim (Bool-cases (k == j)) [
    | inl e ↦
        let same : k ≡ j = ground arith in
        let value : w ≡ v = ground arith in rw (same, ← value) a.0
    | inr n ↦ Each-find k v m a.1 (ground arith)
  ]

  pub Each-emplace : (k : ℕ) (v : V) (m : PageMap V) → Each P m → P k v → Each P (emplace k v m)
  unfolding emplace
  Each-emplace k v [] a p = (p, tt)
  Each-emplace k v ((j, w) ∷ m) a p = ground (arith, p, a.0, a.1, Each-emplace k v m a.1 p)

  pub Each-assign : (k : ℕ) (v : V) (m : PageMap V) → Each P m → P k v → Each P (assign k v m)
  unfolding assign
  Each-assign k v [] a p = tt
  Each-assign k v ((j, w) ∷ m) a p = (
    elim (Bool-cases (k == j)) [
      | inl e ↦ rw e (subst (λ x. P x v) ((==_iff k j).0 e) p)
      | inr n ↦ rw n a.0
    ],
    Each-assign k v m a.1 p,
  )

  pub Each-erase : (k : ℕ) (m : PageMap V) → Each P m → Each P (erase k m)
  unfolding erase
  Each-erase k [] a = tt
  Each-erase k ((j, w) ∷ m) a = ground (arith, Each-erase k m a.1)

  pub Each-select :
      (keep : ℕ → V → Bool) (m : PageMap V)
      → Each P m
      → Each (λ k v. P k v × (keep k v ≡ true)) (select keep m)
  unfolding select
  Each-select keep [] a = tt
  Each-select keep ((j, w) ∷ m) a = elim (Bool-cases (keep j w)) [
    | inl e ↦ rw e ((a.0, e), Each-select keep m a.1)
    | inr e ↦ rw e (Each-select keep m a.1)
  ]

pub Each-map {ℓ κ μ} :
    {V : Type ℓ} (P : ℕ → V → Type κ) (Q : ℕ → V → Type μ) (m : PageMap V)
    → ((k : ℕ) (v : V) → P k v → Q k v)
    → Each P m
    → Each Q m
Each-map P Q [] h a = tt
Each-map P Q ((j, w) ∷ m) h a = (h j w a.0, Each-map P Q m h a.1)

pub Each-append {ℓ κ} :
    {V : Type ℓ} (P : ℕ → V → Type κ) (l r : PageMap V) → Each P l → Each P r → Each P (l ++ r)
Each-append P [] r a b = b
Each-append P ((j, w) ∷ l) r a b = (a.0, Each-append P l r a.1 b)
