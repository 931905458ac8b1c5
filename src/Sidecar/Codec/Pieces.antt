-- ===== src/Sidecar/Codec/Pieces.antt =====
-- src/core/MetaFile.cc: the writes of an image do not overlap, so each is read back whole.
use xrd_ucache.Base.{
  ℕ, zero, suc, ◌+◌, ◌-◌, ◌≤◌, ◌<◌, ◌≡◌, refl, ◌⊎◌, inl, arith, List, [], ◌∷◌, length, Content,
  slice, blit, sym, ap, ◌∙◌, blit-inside, blit-outside, slice_ext, get_or, get_elem?, Option, none,
  some,
}
use mathlib.Core.Path.{ap₂, subst}
use xrd_ucache.Sidecar.Codec.{Piece, puts}

-- Each write begins where the one before it ends, or later.
abbrev pub Ascends : ℕ → List Piece → Type 0
Ascends lo [] = Unit
Ascends lo (p ∷ l) = (lo ≤ p.0) × Ascends (p.0 + length p.1) l

-- No write touches an offset.
abbrev pub Misses : ℕ → List Piece → Type 0
Misses x [] = Unit
Misses x (p ∷ l) = ((x < p.0) ⊎ (p.0 + length p.1 ≤ x)) × Misses x l

pub puts-Misses : (l : List Piece) (f : Content) (x : ℕ) → Misses x l → puts l f x ≡ f x
unfolding puts
puts-Misses [] f x h = refl
puts-Misses (p ∷ l) f x h = puts-Misses l (blit f p.0 p.1) x h.1 ∙ blit-outside f p.0 p.1 x h.0

Ascends-Misses : (lo x : ℕ) (l : List Piece) → Ascends lo l → x < lo → Misses x l
Ascends-Misses lo x [] a h = tt
Ascends-Misses lo x (p ∷ l) a h =
    let first = a.0 in (inl (omega arith), Ascends-Misses (p.0 + length p.1) x l a.1 (omega arith))

pub slice-blit : (f : Content) (off : ℕ) (l : List ℕ) → slice (blit f off l) off (length l) ≡ l
unfolding slice
slice-blit f off [] = refl
slice-blit f off (x ∷ l) =
    let here : off - off ≡ 0 = omega arith in
    let head : blit f off (x ∷ l) off ≡ x =
      blit-inside f off (x ∷ l) off (omega arith) (omega arith)
      ∙ ap (λ k. get_or (x ∷ l) k 0) here in
    let tail =
      slice_ext (blit f off (x ∷ l)) (blit f (suc off) l) (suc off) (length l)
        (λ y lo hi. shifted y lo hi) in
    ap₂ ◌∷◌ head (tail ∙ slice-blit f (suc off) l)
  where
    shifted :
        (y : ℕ) → suc off ≤ y → y < suc off + length l → blit f off (x ∷ l) y ≡ blit f (suc off) l y
    shifted y lo hi =
        let at : y - off ≡ suc (y - suc off) = omega arith in
        blit-inside f off (x ∷ l) y (omega arith) (omega arith)
        ∙ ap (λ k. get_or (x ∷ l) k 0) at
        ∙ sym (blit-inside f (suc off) l y lo hi)

-- The first write is read back after the others.
pub puts-first :
    (f : Content) (p : Piece) (l : List Piece) (n : ℕ)
    → Ascends (p.0 + length p.1) l
    → length p.1 ≡ n
    → slice (puts (p ∷ l) f) p.0 n ≡ p.1
unfolding puts
puts-first f p l n a e =
    let there =
      slice_ext (puts l (blit f p.0 p.1)) (blit f p.0 p.1) p.0 (length p.1) (λ x lo hi.
        puts-Misses l (blit f p.0 p.1) x (Ascends-Misses (p.0 + length p.1) x l a hi)) in
    ap (slice (puts (p ∷ l) f) p.0) (sym e) ∙ there ∙ slice-blit f p.0 p.1

piece_or : Piece → Option Piece → Piece
piece_or p none = p
piece_or p (some q) = q

-- Each write is read back.
pub puts-nth :
    (i : ℕ) (l : List Piece) (f : Content) (lo n : ℕ) (q : Piece)
    → Ascends lo l
    → get_elem? l i ≡ some q
    → length q.1 ≡ n
    → slice (puts l f) q.0 n ≡ q.1
unfolding puts
puts-nth i [] f lo n q a e k = absurd (cc)
puts-nth zero (p ∷ l) f lo n q a e k =
    let same : p ≡ q = unfold piece_or in ap (piece_or p) e in
    subst (λ (r : Piece). length r.1 ≡ n → slice (puts (p ∷ l) f) r.0 n ≡ r.1) same
      (puts-first f p l n a.1) k
puts-nth (suc i) (p ∷ l) f lo n q a e k =
    puts-nth i l (blit f p.0 p.1) (p.0 + length p.1) n q a.1 e k
