-- ===== src/Base/PageMap.antt =====
-- An ordered map from page numbers (a std::map<uint64_t, V>), as a list sorted by page.
use Prim.Native.Nat.{ℕ, suc, ◌+◌, ◌≤◌}
use mathlib.Core.Bool.{Bool, true, false}
use mathlib.Core.List.{List, [], ◌∷◌}
use mathlib.Core.Option.{Option, none, some}
use xrd_ucache.Base.Tests.{ltb, ◌==◌, if◌then◌else◌}

abbrev pub PageMap {ℓ} : Type ℓ → Type ℓ
PageMap V = List (ℕ × V)

module _ {ℓ} {V : Type ℓ} where
  -- `find`, as the value found.
  unfoldable pub find : ℕ → PageMap V → Option V
  find k [] = none
  find k ((j, v) ∷ m) = if k == j then some v else find k m

  -- `count(k) != 0`.
  unfoldable pub holds : ℕ → PageMap V → Bool
  holds k [] = false
  holds k ((j, v) ∷ m) = if k == j then true else holds k m

  -- `emplace`: a page that is there already is left alone.
  unfoldable pub emplace : ℕ → V → PageMap V → PageMap V
  emplace k v [] = (k, v) ∷ []
  emplace k v ((j, w) ∷ m) =
      let rest = emplace k v m in
      if ltb k j then (k, v) ∷ (j, w) ∷ m else if k == j then (j, w) ∷ m else (j, w) ∷ rest

  -- A write through an iterator to page k.
  unfoldable pub assign : ℕ → V → PageMap V → PageMap V
  assign k v [] = []
  assign k v ((j, w) ∷ m) = let rest = assign k v m in (j, if k == j then v else w) ∷ rest

  unfoldable pub erase : ℕ → PageMap V → PageMap V
  erase k [] = []
  erase k ((j, w) ∷ m) = let rest = erase k m in if k == j then rest else (j, w) ∷ rest

  -- The entries that pass a test, in order.
  unfoldable pub select : (ℕ → V → Bool) → PageMap V → PageMap V
  select keep [] = []
  select keep ((j, w) ∷ m) = let rest = select keep m in if keep j w then (j, w) ∷ rest else rest

  -- The sum of a measure over the entries.
  unfoldable pub total : (ℕ → V → ℕ) → PageMap V → ℕ
  total f [] = 0
  total f ((j, w) ∷ m) = f j w + total f m

  -- Every entry has a property.
  abbrev pub Each {κ} : (ℕ → V → Type κ) → PageMap V → Type κ
  Each P [] = Unit
  Each P ((j, w) ∷ m) = P j w × Each P m

  -- Pages rise along the list, from `low` on.
  abbrev pub SortedFrom : ℕ → PageMap V → Type 0
  SortedFrom low [] = Unit
  SortedFrom low ((j, w) ∷ m) = (low ≤ j) × SortedFrom (suc j) m
