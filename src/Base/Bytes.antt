-- ===== src/Base/Bytes.antt =====
-- Files and buffers as functions from an offset to a byte, with the reads and writes of a span.
use Prim.Native.Nat.{ℕ, zero, suc, ◌+◌, ◌-◌, ◌≤◌, ◌<◌, min}
use mathlib.Core.Path.{◌≡◌, refl, sym, ap, ap₂, ◌∙◌}
use mathlib.Core.Logic.{◌⊎◌}
use native.Mathlib.Decide.{ℕ_discrete, dec_lt}
use mathlib.Core.Bool.{◌&&◌}
use mathlib.Core.List.{List, [], ◌∷◌, ◌++◌}
use native.Mathlib.Omega.{arith}
use xrd_ucache.Base.Tests.{ltb, leb, if◌then◌else◌}
use xrd_ucache.Base.Lists.{length, get_or, take, drop}

-- The contents of a file or a buffer.
abbrev pub Content : Type 0
Content = ℕ → ℕ

-- The n bytes from an offset on.
unfoldable pub slice : Content → ℕ → ℕ → List ℕ
slice f off zero = []
slice f off (suc n) = f off ∷ slice f (suc off) n

-- The bytes of `l` put down from an offset on.
unfoldable pub blit : Content → ℕ → List ℕ → Content
blit f off l x = if leb off x && ltb x (off + length l) then get_or l (x - off) 0 else f x

pub length-slice : (f : Content) (off n : ℕ) → length (slice f off n) ≡ n
unfolding slice
length-slice f off zero = refl
length-slice f off (suc n) = ap suc (length-slice f (suc off) n)

pub get_or-slice : (f : Content) (off n i : ℕ) → i < n → get_or (slice f off n) i 0 ≡ f (off + i)
unfolding slice
get_or-slice f off zero i h = absurd (omega arith)
get_or-slice f off (suc n) zero h = ap f (omega arith)
get_or-slice f off (suc n) (suc i) h =
    get_or-slice f (suc off) n i (omega arith) ∙ ap f (omega arith)

pub take-slice : (f : Content) (off len n : ℕ) → n ≤ len → take n (slice f off len) ≡ slice f off n
unfolding slice
take-slice f off len zero h = refl
take-slice f off zero (suc n) h = absurd (omega arith)
take-slice f off (suc len) (suc n) h =
    ap (λ l. f off ∷ l) (take-slice f (suc off) len n (omega arith))

pub drop-slice :
    (f : Content) (off len k : ℕ) → k ≤ len → drop k (slice f off len) ≡ slice f (off + k) (len - k)
unfolding slice
drop-slice f off len zero h = ap₂ (slice f) (omega arith) (omega arith)
drop-slice f off zero (suc k) h = absurd (omega arith)
drop-slice f off (suc len) (suc k) h =
    drop-slice f (suc off) len k (omega arith) ∙ ap₂ (slice f) (omega arith) (omega arith)

-- A part of a slice is a slice.
pub take-drop-slice :
    (f : Content) (off len k n : ℕ)
    → k + n ≤ len
    → take n (drop k (slice f off len)) ≡ slice f (off + k) n
take-drop-slice f off len k n h =
    rw (drop-slice f off len k (omega arith)) (take-slice f (off + k) (len - k) n (omega arith))

pub slice_ext :
    (f g : Content) (off n : ℕ)
    → ((x : ℕ) → off ≤ x → x < off + n → f x ≡ g x)
    → slice f off n ≡ slice g off n
unfolding slice
slice_ext f g off zero h = refl
slice_ext f g off (suc n) h =
    ap₂ ◌∷◌ (h off (omega arith) (omega arith))
      (slice_ext f g (suc off) n (λ x p q. h x (omega arith) (omega arith)))

-- Equal slices have equal bytes.
pub slice_bytes :
    (f g : Content) (off n : ℕ)
    → slice f off n ≡ slice g off n
    → (x : ℕ) → off ≤ x
    → x < off + n
    → f x ≡ g x
unfolding slice
slice_bytes f g off zero e x p q = absurd (omega arith)
slice_bytes f g off (suc n) e x p q = elim (ℕ_discrete x off) [
  | yes same ↦ rw same (cc)
  | no other ↦ slice_bytes f g (suc off) n (cc) x (omega arith) (omega arith)
]

pub blit-inside :
    (f : Content) (off : ℕ) (l : List ℕ) (x : ℕ)
    → off ≤ x
    → x < off + length l
    → blit f off l x ≡ get_or l (x - off) 0
unfolding blit
blit-inside f off l x p q = ground arith

pub blit-outside :
    (f : Content) (off : ℕ) (l : List ℕ) (x : ℕ)
    → (x < off) ⊎ (off + length l ≤ x)
    → blit f off l x ≡ f x
unfolding blit
blit-outside f off l x p = ground arith

-- Writing a slice of `g` makes the span agree with `g`.
pub blit-slice :
    (f g : Content) (off n x : ℕ) → off ≤ x → x < off + n → blit f off (slice g off n) x ≡ g x
blit-slice f g off n x p q =
    let there = blit-inside f off (slice g off n) x p (rw (length-slice g off n) q) in
    there ∙ get_or-slice g off n (x - off) (omega arith) ∙ ap g (omega arith)

-- Adjacent slices are one.
pub slice-append :
    (f : Content) (at next n k : ℕ)
    → next ≡ at + n
    → slice f at n ++ slice f next k ≡ slice f at (n + k)
unfolding slice
slice-append f at next zero k h = ap₂ (slice f) (omega arith) (omega arith)
slice-append f at next (suc n) k h =
    let size : suc (n + k) ≡ suc n + k = omega arith in
    ap (λ l. f at ∷ l) (slice-append f (suc at) next n k (omega arith)) ∙ ap (slice f at) size

pub slice-nothing : (f : Content) (at n : ℕ) → n ≡ 0 → slice f at n ≡ []
unfolding slice
slice-nothing f at zero h = refl
slice-nothing f at (suc n) h = absurd (omega arith)

-- What a short write puts down of a slice is a slice.
pub take-slice-min :
    (f : Content) (off len n : ℕ) → take n (slice f off len) ≡ slice f off (min n len)
unfolding slice
take-slice-min f off len zero = sym (slice-nothing f off (min 0 len) (omega arith))
take-slice-min f off zero (suc n) = sym (slice-nothing f off (min (suc n) 0) (omega arith))
take-slice-min f off (suc len) (suc n) =
    let size : suc (min n len) ≡ min (suc n) (suc len) = omega arith in
    ap (λ l. f off ∷ l) (take-slice-min f (suc off) len n) ∙ ap (slice f off) size

-- The part from `first` to `last` of a slice, which is empty when they are out of order.
pub clip-slice :
    (f : Content) (start n first last : ℕ)
    → start ≤ first
    → last ≤ start + n
    → take (last - first) (drop (first - start) (slice f start n)) ≡ slice f first (last - first)
clip-slice f start n first last lo hi = elim (dec_lt first last) [
  | yes l ↦
      let at : start + (first - start) ≡ first = omega arith in
      take-drop-slice f start n (first - start) (last - first) (omega arith)
      ∙ ap (λ k. slice f k (last - first)) at
  | no r ↦
      let nothing : last - first ≡ 0 = omega arith in
      rw nothing (sym (slice-nothing f first 0 refl))
]
