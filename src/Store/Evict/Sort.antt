-- ===== src/Store/Evict/Sort.antt =====
-- src/core/CacheStore.cc: the order by `atime` that `evictNow` and `cleanup` visit entries in.
use xrd_ucache.Base.{
  ℕ, zero, suc, ◌+◌, ◌≤◌, ◌≡◌, refl, arith, List, [], ◌∷◌, take, drop, leb, Bool-cases, leb→le,
  length, inl, inr, All, All-imp, All-drop,
}
use mathlib.Core.List.{Perm}
use mathlib.Core.List.Perm
use xrd_ucache.Store.Scan.{MetaScan, scan_bytes}
use xrd_ucache.Store.Evict.{insert, sort_by_atime}

-- Not after a time.
abbrev pub Since : ℕ → MetaScan → Type 0
Since t s = t ≤ s.atime

abbrev pub IsOldestFirst : List MetaScan → Type 0
IsOldestFirst [] = Unit
IsOldestFirst (s ∷ l) = All (Since s.atime) l × IsOldestFirst l

All-insert {κ} :
    (P : MetaScan → Type κ) (s : MetaScan) (l : List MetaScan) → P s → All P l → All P (insert s l)
unfolding insert
All-insert P s [] h a = (h, a)
All-insert P s (x ∷ l) h a = elim (Bool-cases (leb s.atime x.atime)) [
  | inl c ↦ rw c (h, a)
  | inr c ↦ rw c (a.0, All-insert P s l h a.1)
]

pub All-sort_by_atime {κ} :
    (P : MetaScan → Type κ) (l : List MetaScan) → All P l → All P (sort_by_atime l)
unfolding sort_by_atime
All-sort_by_atime P [] h = h
All-sort_by_atime P (s ∷ l) h = All-insert P s (sort_by_atime l) h.0 (All-sort_by_atime P l h.1)

insert-IsOldestFirst :
    (s : MetaScan) (l : List MetaScan) → IsOldestFirst l → IsOldestFirst (insert s l)
unfolding insert
insert-IsOldestFirst s [] h = (tt, tt)
insert-IsOldestFirst s (x ∷ l) h = elim (Bool-cases (leb s.atime x.atime)) [
  | inl c ↦
      let le : s.atime ≤ x.atime = leb→le s.atime x.atime c in
      rw c ((le, All-imp (Since x.atime) (Since s.atime) (λ y k. omega arith) l h.0), h)
  | inr c ↦ rw c (All-insert (Since x.atime) s l (ground arith) h.0, insert-IsOldestFirst s l h.1)
]

pub sort_by_atime-IsOldestFirst : (l : List MetaScan) → IsOldestFirst (sort_by_atime l)
unfolding sort_by_atime
sort_by_atime-IsOldestFirst [] = tt
sort_by_atime-IsOldestFirst (s ∷ l) =
    insert-IsOldestFirst s (sort_by_atime l) (sort_by_atime-IsOldestFirst l)

insert-perm : (s : MetaScan) (l : List MetaScan) → Perm (insert s l) (s ∷ l)
unfolding insert
insert-perm s [] = Perm.refl (s ∷ [])
insert-perm s (x ∷ l) = elim (Bool-cases (leb s.atime x.atime)) [
  | inl c ↦ rw c (Perm.refl (s ∷ x ∷ l))
  | inr c ↦ rw c (Perm.trans (Perm.cons x (insert-perm s l)) (Perm.swap s x l))
]

pub sort_by_atime-perm : (l : List MetaScan) → Perm (sort_by_atime l) l
unfolding sort_by_atime
sort_by_atime-perm [] = Perm.refl []
sort_by_atime-perm (s ∷ l) =
    Perm.trans (insert-perm s (sort_by_atime l)) (Perm.cons s (sort_by_atime-perm l))

-- Each of the first n entries is at least as old as each of the rest.
pub oldest_first-split :
    (n : ℕ) (l : List MetaScan)
    → IsOldestFirst l
    → All (λ s. All (Since s.atime) (drop n l)) (take n l)
oldest_first-split zero l h = tt
oldest_first-split (suc n) [] h = tt
oldest_first-split (suc n) (x ∷ l) h =
    (All-drop (Since x.atime) n l h.0, oldest_first-split n l h.1)

-- The exact sum of the sizes.
unfoldable pub exact_bytes : List MetaScan → ℕ
exact_bytes [] = 0
exact_bytes (s ∷ l) = scan_bytes s + exact_bytes l

insert-exact_bytes :
    (s : MetaScan) (l : List MetaScan) → exact_bytes (insert s l) ≡ scan_bytes s + exact_bytes l
unfolding insert exact_bytes
insert-exact_bytes s [] = refl
insert-exact_bytes s (x ∷ l) = ground (arith, insert-exact_bytes s l)

pub sort_by_atime-exact_bytes : (l : List MetaScan) → exact_bytes (sort_by_atime l) ≡ exact_bytes l
unfolding sort_by_atime exact_bytes
sort_by_atime-exact_bytes [] = refl
sort_by_atime-exact_bytes (s ∷ l) =
    rw (insert-exact_bytes s (sort_by_atime l), sort_by_atime-exact_bytes l)

length-insert : (s : MetaScan) (l : List MetaScan) → length (insert s l) ≡ suc (length l)
unfolding insert
length-insert s [] = refl
length-insert s (x ∷ l) = ground (arith, length-insert s l)

pub length-sort_by_atime : (l : List MetaScan) → length (sort_by_atime l) ≡ length l
unfolding sort_by_atime
length-sort_by_atime [] = refl
length-sort_by_atime (s ∷ l) =
    omega (arith, length-insert s (sort_by_atime l), length-sort_by_atime l)
