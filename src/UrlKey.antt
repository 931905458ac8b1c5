-- ===== src/UrlKey.antt =====
-- src/core/UrlKey.cc: the canonical path of a key and the parameters left out of a URL. Text is a list
-- of bytes. `std::getline` gives the pieces between separators, and none after a last separator.
pub mod Canonical
mod Tests
use xrd_ucache.Base.{
  ℕ, zero, suc, ◌+◌, Bool, true, false, not, ◌&&◌, ◌||◌, List, [], ◌∷◌, ◌++◌, ◌==◌, if◌then◌else◌,
}

abbrev pub Text : Type 0
Text = List ℕ

unfoldable pub prepend : ℕ → List Text → List Text
prepend c [] = (c ∷ []) ∷ []
prepend c (s ∷ l) = (c ∷ s) ∷ l

-- The pieces that `getline` reads.
unfoldable pub split : ℕ → Text → List Text
unfolding prepend
split sep [] = []
split sep (c ∷ l) = let rest = split sep l in if c == sep then [] ∷ rest else prepend c rest

unfoldable pub same_text : Text → Text → Bool
same_text [] [] = true
same_text [] (y ∷ l) = false
same_text (x ∷ k) [] = false
same_text (x ∷ k) (y ∷ l) = x == y && same_text k l

-- '/' and '.'.
abbrev pub slash : ℕ
slash = 47

abbrev pub dot : ℕ
dot = 46

abbrev pub is_empty : Text → Bool
is_empty [] = true
is_empty (c ∷ l) = false

-- A piece that is passed over, and the one that goes up.
unfoldable pub is_blank : Text → Bool
unfolding same_text
is_blank s = is_empty s || same_text s (dot ∷ [])

unfoldable pub is_up : Text → Bool
unfolding same_text
is_up s = same_text s (dot ∷ dot ∷ [])

-- `pop_back`, and nothing on an empty vector.
unfoldable pub pop_back : List Text → List Text
pop_back [] = []
pop_back (s ∷ []) = []
pop_back (s ∷ t ∷ l) = s ∷ pop_back (t ∷ l)

-- The loop over the pieces, with the segments kept so far.
unfoldable pub resolve : List Text → List Text → List Text
unfolding is_blank is_up pop_back
resolve [] segs = segs
resolve (s ∷ l) segs =
    let skip = resolve l segs in
    let up = resolve l (pop_back segs) in
    let push = resolve l (segs ++ (s ∷ [])) in
    if is_blank s then skip else if is_up s then up else push

unfoldable pub join : List Text → Text
join [] = []
join (s ∷ l) = slash ∷ (s ++ join l)

-- `normalizePath`.
unfoldable pub normalize_path : Text → Text
unfolding resolve split join
normalize_path text =
    let out = join (resolve (split slash text) []) in if is_empty out then slash ∷ [] else out
