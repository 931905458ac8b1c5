-- ===== src/UrlKey/Canonical.antt =====
-- src/core/UrlKey.cc: a path that `normalizePath` gives is canonical.
use xrd_ucache.Base.{
  ℕ, ◌≡◌, refl, arith, Bool, false, ◌||◌, List, [], ◌∷◌, ◌++◌, ◌==◌, if◌then◌else◌, All, All-append,
  Bool-cases, inl, inr, sym, ap, ◌∙◌,
}
use mathlib.Core.List.{append_assoc, append-nil}
use xrd_ucache.UrlKey.{
  Text, prepend, split, slash, is_empty, is_blank, is_up, pop_back, resolve, join, normalize_path,
}

unfoldable pub has : ℕ → Text → Bool
has sep [] = false
has sep (c ∷ l) = c == sep || has sep l

-- A segment without a separator.
abbrev Whole : ℕ → Text → Type 0
Whole sep s = has sep s ≡ false

-- A segment of a canonical path: no separator in it, and neither empty nor "." nor "..".
pub record IsSegment (s : Text) : Type 0 where
  pub whole : has slash s ≡ false
  pub kept : is_blank s ≡ false
  pub down : is_up s ≡ false

prepend-Whole :
    (sep c : ℕ) (l : List Text)
    → (c == sep) ≡ false
    → All (Whole sep) l
    → All (Whole sep) (prepend c l)
unfolding prepend has
prepend-Whole sep c [] e a = (ground (arith, e), tt)
prepend-Whole sep c (s ∷ l) e a = (ground (arith, e, a.0), a.1)

split-Whole : (sep : ℕ) (text : Text) → All (Whole sep) (split sep text)
unfolding split has
split-Whole sep [] = tt
split-Whole sep (c ∷ l) = elim (Bool-cases (c == sep)) [
  | inl e ↦ rw e (refl, split-Whole sep l)
  | inr e ↦ rw e (prepend-Whole sep c (split sep l) e (split-Whole sep l))
]

pop_back-All : (P : Text → Type 0) (l : List Text) → All P l → All P (pop_back l)
unfolding pop_back
pop_back-All P [] a = tt
pop_back-All P (s ∷ []) a = tt
pop_back-All P (s ∷ t ∷ l) a = (a.0, pop_back-All P (t ∷ l) a.1)

resolve-IsSegment :
    (l segs : List Text) → All (Whole slash) l → All IsSegment segs → All IsSegment (resolve l segs)
unfolding resolve
resolve-IsSegment [] segs w a = a
resolve-IsSegment (s ∷ l) segs w a = elim (Bool-cases (is_blank s)) [
  | inl b ↦ rw b (resolve-IsSegment l segs w.1 a)
  | inr b ↦ elim (Bool-cases (is_up s)) [
    | inl u ↦ rw (b, u) (resolve-IsSegment l (pop_back segs) w.1 (pop_back-All IsSegment segs a))
    | inr u ↦
        let segment : IsSegment s = record { whole = w.0; kept = b; down = u } in
        let more = All-append IsSegment segs (s ∷ []) a (segment, tt) in
        rw (b, u) (resolve-IsSegment l (segs ++ (s ∷ [])) w.1 more)
  ]
]

-- Segments are all kept.
resolve-segments : (l segs : List Text) → All IsSegment l → resolve l segs ≡ segs ++ l
unfolding resolve
resolve-segments [] segs a = sym (append-nil segs)
resolve-segments (s ∷ l) segs a =
    let kept = a.0.kept in
    let down = a.0.down in
    rw (kept, down) (resolve-segments l (segs ++ (s ∷ [])) a.1 ∙ append_assoc segs (s ∷ []) l)

-- The pieces of a text that begins with a whole segment.
split-front :
    (s rest : Text) (l : List Text)
    → has slash s ≡ false
    → split slash rest ≡ [] ∷ l
    → split slash (s ++ rest) ≡ s ∷ l
unfolding split prepend has
split-front [] rest l w e = e
split-front (c ∷ s) rest l w e =
    let other : (c == slash) ≡ false = ground (arith, w) in
    let more : has slash s ≡ false = ground (arith, w) in
    rw other (ap (prepend c) (split-front s rest l more e))

split-whole : (c : ℕ) (s : Text) → has slash (c ∷ s) ≡ false → split slash (c ∷ s) ≡ (c ∷ s) ∷ []
unfolding split prepend has
split-whole c [] w = let other : (c == slash) ≡ false = ground (arith, w) in rw other refl
split-whole c (d ∷ s) w =
    let other : (c == slash) ≡ false = ground (arith, w) in
    let more : has slash (d ∷ s) ≡ false = ground (arith, w) in
    rw other (ap (prepend c) (split-whole d s more))

-- The pieces of a canonical path.
pieces_of : List Text → List Text
pieces_of [] = []
pieces_of (s ∷ l) = [] ∷ s ∷ l

last_piece : (s : Text) → IsSegment s → split slash (s ++ []) ≡ s ∷ []
last_piece [] a = absurd (let kept = a.kept in unfold is_blank in cc)
last_piece (c ∷ s) a = ap (split slash) (append-nil (c ∷ s)) ∙ split-whole c s a.whole

split-join : (l : List Text) → All IsSegment l → split slash (join l) ≡ pieces_of l
unfolding join pieces_of split
split-join [] a = refl
split-join (s ∷ []) a = ap (λ k. [] ∷ k) (last_piece s a.0)
split-join (s ∷ t ∷ l) a =
    ap (λ k. [] ∷ k) (split-front s (join (t ∷ l)) (t ∷ l) a.0.whole (split-join (t ∷ l) a.1))

-- The canonical path of segments.
abbrev path_of : List Text → Text
path_of l = if is_empty (join l) then slash ∷ [] else join l

normalize_path-path_of : (l : List Text) → All IsSegment l → normalize_path (path_of l) ≡ path_of l
unfolding normalize_path join
normalize_path-path_of [] a = unfold split resolve is_blank in refl
normalize_path-path_of (s ∷ l) a =
    let again : resolve (split slash (join (s ∷ l))) [] ≡ s ∷ l =
      ap (λ k. resolve k []) (split-join (s ∷ l) a)
      ∙ (unfold pieces_of resolve is_blank in resolve-segments (s ∷ l) [] a) in
    ap path_of again

-- Every segment that the loop keeps is not empty, not "." or "..", and has no '/', so that a path
-- that was normalized is not changed by another round.
pub normalize_path_idem :
    (text : Text)
    → (normalize_path (normalize_path text) ≡ normalize_path text)
      × All IsSegment (resolve (split slash text) [])
unfolding normalize_path
normalize_path_idem text =
    let segs = resolve (split slash text) [] in
    let a = resolve-IsSegment (split slash text) [] (split-Whole slash text) tt in
    (normalize_path-path_of segs a, a)
