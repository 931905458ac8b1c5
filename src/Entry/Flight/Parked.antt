-- ===== src/Entry/Flight/Parked.antt =====
-- src/core/FileEntry.cc: `beginFetch` and `endFetch`, and the callbacks parked between them.
use xrd_ucache.Base.{
  ℕ, ◌≡◌, refl, arith, true, List, [], ◌∷◌, ◌++◌, none, some, Bool-cases, inl, inr, sym, ap, ◌∙◌,
}
use mathlib.Core.List.{append_assoc, append-nil}
use xrd_ucache.Entry.Flight.{
  Interval, Fetches, same_interval, lookup_fetch, park, begin_with, begin_fetch, waiting, end_fetch,
}

same_interval_refl : (k : Interval) → same_interval k k ≡ true
same_interval_refl k = ground arith

-- A new fetch has nobody behind it.
lookup_fetch-new :
    (k : Interval) (l : List (Interval × List ℕ))
    → lookup_fetch k l ≡ none
    → lookup_fetch k (l ++ ((k, []) ∷ [])) ≡ some []
unfolding lookup_fetch
lookup_fetch-new k [] e = rw (same_interval_refl k) refl
lookup_fetch-new k (f ∷ l) e = elim (Bool-cases (same_interval f.0 k)) [
  | inl c ↦ absurd (ground (arith, c, e))
  | inr c ↦ rw c (lookup_fetch-new k l (ground (arith, c, e)))
]

lookup_fetch-park :
    (k : Interval) (cb : ℕ) (l : List (Interval × List ℕ)) (w : List ℕ)
    → lookup_fetch k l ≡ some w
    → lookup_fetch k (park k cb l) ≡ some (w ++ (cb ∷ []))
unfolding lookup_fetch park waiting
lookup_fetch-park k cb [] w e = absurd (cc)
lookup_fetch-park k cb (f ∷ l) w e = elim (Bool-cases (same_interval f.0 k)) [
  | inl c ↦
      let same : some f.1 ≡ some w = ground (arith, c, e) in
      rw c (rw c (ap (λ o. some (waiting o ++ (cb ∷ []))) same))
  | inr c ↦ rw c (rw c (lookup_fetch-park k cb l w (ground (arith, c, e))))
]

begin_fetch-parks :
    (off len cb : ℕ) (s : Fetches) (w : List ℕ)
    → lookup_fetch (off, len) s.inflight ≡ some w
    → lookup_fetch (off, len) (begin_fetch off len cb s).1.inflight ≡ some (w ++ (cb ∷ []))
unfolding begin_fetch begin_with
begin_fetch-parks off len cb s w e = rw e (lookup_fetch-park (off, len) cb s.inflight w e)

begin_fetch-owns :
    (off len cb : ℕ) (s : Fetches)
    → lookup_fetch (off, len) s.inflight ≡ none
    → ((begin_fetch off len cb s).0 ≡ true)
      × (lookup_fetch (off, len) (begin_fetch off len cb s).1.inflight ≡ some [])
unfolding begin_fetch begin_with
begin_fetch-owns off len cb s e = rw e (refl, lookup_fetch-new (off, len) s.inflight e)

-- The callbacks come in one after another.
unfoldable pub begin_all : ℕ → ℕ → List ℕ → Fetches → Fetches
unfolding begin_fetch
begin_all off len [] s = s
begin_all off len (cb ∷ l) s = begin_all off len l (begin_fetch off len cb s).1

begin_all-lookup_fetch :
    (off len : ℕ) (cbs : List ℕ) (s : Fetches) (w : List ℕ)
    → lookup_fetch (off, len) s.inflight ≡ some w
    → lookup_fetch (off, len) (begin_all off len cbs s).inflight ≡ some (w ++ cbs)
unfolding begin_all
begin_all-lookup_fetch off len [] s w e = e ∙ ap some (sym (append-nil w))
begin_all-lookup_fetch off len (cb ∷ l) s w e =
    begin_all-lookup_fetch off len l (begin_fetch off len cb s).1 (w ++ (cb ∷ []))
      (begin_fetch-parks off len cb s w e)
    ∙ ap some (append_assoc w (cb ∷ []) l)

-- If no fetch of a range is under way, the first to begin one owns it, and when it ends, exactly the
-- callbacks of those who began it after that run, in the order in which they came.
pub end_fetch-begin_all :
    (off len owner : ℕ) (cbs : List ℕ) (s : Fetches)
    → lookup_fetch (off, len) s.inflight ≡ none
    → ((begin_fetch off len owner s).0 ≡ true)
      × ((end_fetch off len (begin_all off len cbs (begin_fetch off len owner s).1)).1 ≡ cbs)
unfolding end_fetch waiting
end_fetch-begin_all off len owner cbs s e =
    let (owns, alone) = begin_fetch-owns off len owner s e in
    let parked = begin_all-lookup_fetch off len cbs (begin_fetch off len owner s).1 [] alone in
    (owns, ap waiting parked)
