-- ===== src/Retry.antt =====
-- src/plugin/OpenRetry.cc: which failed opens are tried again, and the ceiling of the wait before
-- attempt n. The status and error codes are the numbers of that file. The two settings are C ints.
pub mod Backoff
pub mod Handler
use xrd_ucache.Base.{
  ℕ, zero, suc, ◌+◌, ◌-◌, ◌*◌, ◌%◌, ◌^◌, Bool, true, false, ◌||◌, if◌then◌else◌, leb, ltb, ◌==◌,
  min,
}

-- The settings of src/core/Config.h that the retries read.
pub record Settings : Type 0 where
  pub open_retries : ℕ
  pub base_ms : ℕ
  pub max_ms : ℕ

-- `XRootDStatus`: success, or a failure with its code and errNo.
pub data Status : Type 0 where
  success : Status
  failure : ℕ → ℕ → Status

-- The transient or load-induced subset of the server's errors (kXR_ItExists, kXR_ServerError,
-- kXR_FSError, kXR_IOError, kXR_noserver, kXR_Cancelled, kXR_FileLocked, kXR_Overloaded).
is_transient_reply : ℕ → Bool
is_transient_reply errno =
    errno == 3018
    || errno == 3012
    || errno == 3005
    || errno == 3007
    || errno == 3014
    || errno == 3017
    || errno == 3003
    || errno == 3024

-- Transport failures whatever the errNo (kErrConnectionError, kErrSocketError, kErrSocketTimeout,
-- kErrOperationExpired, kErrThresholdExceeded), and the subset above under kErrErrorResponse.
pub is_retryable_open : ℕ → ℕ → Bool
unfolding is_transient_reply
is_retryable_open code errno =
    if code == 108 || code == 102 || code == 103 || code == 206 || code == 208
    then true
    else if code == 400
    then is_transient_reply errno
    else false

-- The doubling loop with `rounds` left; `bound <<= 1` on a uint64_t.
pub double_to_cap : ℕ → ℕ → ℕ → ℕ
double_to_cap zero cap bound = bound
double_to_cap (suc rounds) cap bound =
    let rest = double_to_cap rounds cap (bound * 2 % 2 ^ 64) in
    if leb cap bound then bound else rest

-- `backoffBoundMs`; an attempt below 1 counts as 1.
pub backoff_bound_ms : ℕ → Settings → ℕ
unfolding double_to_cap
backoff_bound_ms attempt cfg =
    let attempt' = if ltb attempt 1 then 1 else attempt in
    min (double_to_cap (attempt' - 1) cfg.max_ms cfg.base_ms) cfg.max_ms
