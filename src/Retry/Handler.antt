-- ===== src/Retry/Handler.antt =====
-- src/plugin/UCacheFile.cc: `RetryingOpenHandler`. The origin's answer to attempt n is a parameter,
-- and so is whether the handle is still open when the retry after attempt n runs. A failure found
-- at the issue and one that the callback brings take the same path.
pub mod Laws
use xrd_ucache.Base.{
  ℕ, zero, suc, ◌+◌, ◌-◌, Bool, true, false, ◌&&◌, List, [], ◌∷◌, if◌then◌else◌, leb, ltb,
}
use xrd_ucache.Retry.{Settings, Status, success, failure, is_retryable_open, backoff_bound_ms}

-- The handler, the store's two counters, the bounds of the waits asked for and the completions that
-- the reader's handler has received, newest first.
pub record Handler : Type 0 where
  pub attempt : ℕ
  pub last_status : Status
  pub open_retries : ℕ
  pub open_retries_exhausted : ℕ
  pub waits : List ℕ
  pub completions : List Status

pub new_handler : Handler
new_handler = record {
  attempt = 0;
  last_status = success;
  open_retries = 0;
  open_retries_exhausted = 0;
  waits = [];
  completions = [];
}

abbrev pub is_ok : Status → Bool
is_ok success = true
is_ok (failure code errno) = false

abbrev pub may_retry : Status → Bool
may_retry success = false
may_retry (failure code errno) = is_retryable_open code errno

-- The one completion of the reader's handler.
pub forward : Handler → Status → Handler
forward h s = record h { completions = s ∷ h.completions }

-- The test of `decideRetryOrForward`.
pub retries : Settings → Handler → Bool
retries cfg h = leb h.attempt cfg.open_retries && may_retry h.last_status

-- Its retry branch: counted if there is a store, and posted after a wait.
pub schedule : Settings → Bool → Handler → Handler
schedule cfg has_store h = record h {
  open_retries = h.open_retries + (if has_store then 1 else 0);
  waits = backoff_bound_ms h.attempt cfg ∷ h.waits;
}

-- Its other branch: the failure is forwarded, counted when there was a retry.
pub give_up : Bool → Handler → Handler
unfolding forward
give_up has_store h =
    forward
      (record h {
        open_retries_exhausted =
            h.open_retries_exhausted + (if ltb 1 h.attempt && has_store then 1 else 0);
      })
      h.last_status

module _ (cfg : Settings) (has_store : Bool) (answer : ℕ → Status) (still_open : ℕ → Bool) where
  -- `issueOn` with the decision on its answer, then `doRetry`, with fuel.
  pub run : ℕ → Handler → Handler
  unfolding forward retries schedule give_up
  run zero h = h
  run (suc fuel) h =
      let issued = record h { attempt = h.attempt + 1 } in
      let reply = answer issued.attempt in
      let failed = record issued { last_status = reply } in
      let again = run fuel (schedule cfg has_store failed) in
      if is_ok reply
      then forward issued reply
      else if retries cfg failed
      then (if still_open issued.attempt
          then again
          else forward (schedule cfg has_store failed) reply)
      else give_up has_store failed

  -- A whole open: `start` on a new handler, with fuel for every attempt that the setting allows.
  pub open_origin : Handler
  unfolding new_handler
  open_origin = run (cfg.open_retries + 1) new_handler
