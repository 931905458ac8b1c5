-- ===== src/Base/Mul.antt =====
-- Orders between multiples of one number, for page and record boundaries.
use Prim.Native.Nat.{ℕ, suc, ◌+◌, ◌*◌, ◌/◌, ◌≤◌, ◌<◌}
use mathlib.Core.Path.{◌≡◌}
use native.Mathlib.Omega.{arith}
use native.Mathlib.Decide.{dec_lt}

pub mul_mono : (a b p : ℕ) → a ≤ b → a * p ≤ b * p
mul_mono a b p h = grind arith

pub lt_of_mul : (i q p : ℕ) → i * p < q * p → i < q
lt_of_mul i q p h = elim (dec_lt i q) [
  | yes l ↦ l
  | no n ↦ absurd (omega (arith, mul_mono q i p (omega arith)))
]

-- A multiple of p above i * p is at least the next one.
pub page_below : (i q p x : ℕ) → i * p < x → x ≤ q * p → suc i * p ≤ q * p
page_below i q p x h g = mul_mono (suc i) q p (lt_of_mul i q p (omega arith))

-- A multiple of p below suc i * p is at most i * p.
pub page_above : (i q p x : ℕ) → x < suc i * p → q * p ≤ x → q * p ≤ i * p
page_above i q p x h g =
    let l : q < suc i = lt_of_mul q (suc i) p (omega arith) in mul_mono q i p (omega arith)

-- The multiple of p at or below a.
pub div_mul_bounds : (a p : ℕ) → 0 < p → (a / p * p ≤ a) × (a < a / p * p + p)
div_mul_bounds a p h = grind arith

-- The page that holds byte x.
pub div_eq : (i x p : ℕ) → i * p ≤ x → x < i * p + p → x / p ≡ i
div_eq i x p lo hi =
    let pos : 0 < p = omega arith in
    let b = div_mul_bounds x p pos in
    let l : x / p < suc i = lt_of_mul (x / p) (suc i) p (omega (arith, b)) in
    let g : i < suc (x / p) = lt_of_mul i (suc (x / p)) p (omega (arith, b)) in omega arith
