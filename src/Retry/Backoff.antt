-- ===== src/Retry/Backoff.antt =====
-- src/plugin/OpenRetry.cc: the doubling loop against its closed form.
use xrd_ucache.Base.{
  ℕ, zero, suc, ◌*◌, ◌%◌, ◌^◌, ◌≤◌, ◌<◌, ◌≡◌, arith, min, leb, mul_mono, ap, Bool-cases, inl, inr,
}
use native.Mathlib.Nat.{pow-suc, one-le-pow}
use xrd_ucache.Retry.{Settings, double_to_cap, backoff_bound_ms}

grows : (bound rounds : ℕ) → bound ≤ bound * 2 ^ rounds
grows bound rounds =
    omega (arith, mul_mono 1 (2 ^ rounds) bound (one-le-pow rounds 2 (omega arith)))

twice : (bound rounds : ℕ) → bound * 2 * 2 ^ rounds ≡ bound * 2 ^ suc rounds
twice bound rounds = omega (arith, ap (λ (t : ℕ). bound * t) (pow-suc 2 rounds))

min_double :
    (rounds top bound : ℕ)
    → top < 2 ^ 31
    → min (double_to_cap rounds top bound) top ≡ min (bound * 2 ^ rounds) top
unfolding double_to_cap
min_double zero top bound h = omega arith
min_double (suc rounds) top bound h = elim (Bool-cases (leb top bound)) [
  | inl above ↦ rw above (ground (arith, grows bound (suc rounds)))
  | inr below ↦
      let exact : bound * 2 % 2 ^ 64 ≡ bound * 2 = ground arith in
      rw (below, exact, min_double rounds top (bound * 2) h, twice bound rounds)
]

-- The ceiling doubles with each attempt from the first on and never passes the cap.
pub backoff_bound_ms_lem :
    (attempt : ℕ) (cfg : Settings)
    → cfg.max_ms < 2 ^ 31
    → backoff_bound_ms (suc attempt) cfg ≡ min (cfg.base_ms * 2 ^ attempt) cfg.max_ms
unfolding backoff_bound_ms
backoff_bound_ms_lem attempt cfg h = ground (arith, min_double attempt cfg.max_ms cfg.base_ms h)
