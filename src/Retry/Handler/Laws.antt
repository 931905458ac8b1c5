-- ===== src/Retry/Handler/Laws.antt =====
-- src/plugin/UCacheFile.cc: `RetryingOpenHandler` completes exactly once, in bounded attempts.
use xrd_ucache.Base.{
  ℕ, zero, suc, ◌+◌, ◌≤◌, ◌<◌, ◌≡◌, refl, ◌⊎◌, inl, inr, arith, Bool, true, false, ◌&&◌, ◌∷◌, leb,
  Bool-cases,
}
use mathlib.Core.Path.{subst, sym, ap, ◌∙◌}
use native.Mathlib.Decide.{ℕ_discrete}
use xrd_ucache.Retry.{Settings, Status}
use xrd_ucache.Retry.Handler.{
  Handler, new_handler, is_ok, may_retry, run, open_origin, schedule, retries, forward, give_up,
}

module _ (cfg : Settings) (has_store : Bool) (answer : ℕ → Status) (still_open : ℕ → Bool) where
  -- Why no attempt follows attempt n.
  abbrev pub Ends : ℕ → Type 0
  Ends n =
      (is_ok (answer n) ≡ true)
      ⊎ ((may_retry (answer n) ≡ false) ⊎ ((n ≡ cfg.open_retries + 1) ⊎ (still_open n ≡ false)))

  -- A run from `h` to `r`: one more completion, the answer to its last attempt, and every attempt
  -- before that one failed in a way that is worth a retry, with the handle still open.
  pub record Completes (h r : Handler) : Type 0 where
    pub completed : r.completions ≡ answer r.attempt ∷ h.completions
    pub tried : h.attempt < r.attempt
    pub bounded : r.attempt ≤ cfg.open_retries + 1
    pub before :
        (k : ℕ)
        → h.attempt < k
        → k < r.attempt
        → (may_retry (answer k) ≡ true) × (still_open k ≡ true)
    pub ends : Ends r.attempt

  Completes-here :
      (h r : Handler)
      → r.attempt ≡ h.attempt + 1
      → h.attempt ≤ cfg.open_retries
      → r.completions ≡ answer (h.attempt + 1) ∷ h.completions
      → Ends (h.attempt + 1)
      → Completes h r
  Completes-here h r a le c stop = record {
    completed = ground (arith, c);
    tried = omega arith;
    bounded = omega arith;
    before = λ k p q. absurd (omega arith);
    ends = subst Ends (sym a) stop;
  }

  Completes-next :
      (h h' r : Handler)
      → h'.attempt ≡ h.attempt + 1
      → h'.completions ≡ h.completions
      → may_retry (answer (h.attempt + 1)) ≡ true
      → still_open (h.attempt + 1) ≡ true
      → Completes h' r
      → Completes h r
  Completes-next h h' r a c worth alive rest = record {
    completed = rest.completed ∙ ap (λ l. answer r.attempt ∷ l) c;
    tried = omega arith;
    bounded = rest.bounded;
    before = λ k p q. elim (ℕ_discrete k (h.attempt + 1)) [
      | yes e ↦ rw e (worth, alive)
      | no n ↦ rest.before k (omega arith) q
    ];
    ends = rest.ends;
  }

  run-Completes :
      (fuel : ℕ) (h : Handler)
      → h.attempt ≤ cfg.open_retries
      → cfg.open_retries < h.attempt + fuel
      → Completes h (run cfg has_store answer still_open fuel h)
  unfolding run forward retries schedule give_up
  run-Completes zero h le e = absurd (omega arith)
  run-Completes (suc fuel) h le e =
      let n = h.attempt + 1 in
      elim (Bool-cases (is_ok (answer n))) [
        | inl good ↦ rw good (Completes-here h _ refl le refl (inl good))
        | inr bad ↦ elim (Bool-cases (leb n cfg.open_retries && may_retry (answer n))) [
          | inl again ↦ elim (Bool-cases (still_open n)) [
            | inl alive ↦
                rw (bad, again, alive)
                  (Completes-next h _ _ refl refl (ground arith) alive
                    (run-Completes fuel _ (ground arith) (omega arith)))
            | inr shut ↦
                rw (bad, again, shut) (Completes-here h _ refl le refl (inr (inr (inr shut))))
          ]
          | inr over ↦ rw (bad, over) (Completes-here h _ refl le refl (inr (ground arith)))
        ]
      ]

  -- An open completes exactly once, after at least one attempt and at most one more than the setting
  -- allows to retry: with the answer to its last attempt, every earlier one having failed in a way
  -- worth a retry with the handle still open; and no attempt follows a success, a failure that is
  -- not worth one, the last attempt allowed, or a handle that was shut.
  pub open_origin-Completes : Completes new_handler (open_origin cfg has_store answer still_open)
  unfolding open_origin
  open_origin-Completes =
      run-Completes (cfg.open_retries + 1) new_handler (unfold new_handler in omega arith)
        (unfold new_handler in omega arith)
