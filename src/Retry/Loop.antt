-- ===== src/Retry/Loop.antt =====
-- The retry loop of `DoWithContext` in client.go, from the first attempt to its last return. What an
-- attempt gives, from the scheduler or from the pool and its connection, is a parameter. The metrics
-- and the buffers that go back to their pools are not here.
pub mod Ends
use bursthttp.Base.{
  Bytes, codes, ℕ, zero, suc, Bool, true, false, Option, none, some, [], ℤ, pos, leb_ℤ,
  if◌then◌else◌, ◌+◌,
}
use bursthttp.Errors.{
  ErrorType, Error, wrap_error, sentinel, connect_failed, timeout_error, internal_error, canceled,
}
use bursthttp.Response.{Response}
use bursthttp.Response.Lookup.{header}
use bursthttp.Retry.{Retryer, Clock, should_retry, adaptive_delay}

-- What one attempt gives, by the branches that follow it: no connection, a response that another
-- goroutine owns now, an error, an error with a response whose status is not 0, or a response.
pub data Attempt : Type 0 where
  no_connection : Attempt
  transferred : Attempt
  fails : Error → Attempt
  breaks : Response → Error → Attempt
  replies : Response → Attempt

-- What surrounds the loop: the attempts, `Backoff`, the clock, the context's error if it ends before
-- a timer of that length does, and its error once a response has been transferred.
pub record World : Type 0 where
  pub attempt : ℕ → Attempt
  pub backoff : ℕ → ℤ
  pub clock : Clock
  pub timer : ℤ → Option Error
  pub context_error : Error

-- The two results of `DoWithContext`.
abbrev pub Answer : Type 0
Answer = Option Response × Option Error

-- `lastRetryStatus`, `lastRetryAfterHdr` and `lastRetryErr`.
pub record Last : Type 0 where
  pub status : ℕ
  pub hint : Bytes
  pub err : Option Error

abbrev pub no_last : Last
no_last = record { status = 0; hint = []; err = none }

abbrev pub no_connection_error : Error
no_connection_error =
    wrap_error internal_error "failed to get connection from pool" (sentinel connect_failed)

-- `WaitAdaptive`: the error it returns.
unfoldable pub wait_adaptive : World → Retryer → ℕ → Last → Option Error
wait_adaptive w r attempt last =
    let d = adaptive_delay r w.clock (w.backoff attempt) last.status last.hint last.err in
    if leb_ℤ d (pos 0) then none else w.timer d

-- The wait at the top of the loop.
unfoldable pub wait_before : World → Option Retryer → ℕ → Last → Option Error
wait_before w none n last = none
wait_before w (some r) zero last = none
wait_before w (some r) (suc n) last = wait_adaptive w r n last

abbrev pub should : Option Retryer → ℕ → Option ℕ → Option Error → Bool
should none n status err = false
should (some r) n status err = should_retry r n status err

-- The tests that lead to `continue`.
unfoldable pub retries : Option Retryer → ℕ → Attempt → Bool
retries r n no_connection = should r n none (some no_connection_error)
retries r n transferred = false
retries r n (fails e) = should r n none (some e)
retries r n (breaks resp e) = should r n (some resp.status_code) (some e)
retries r n (replies resp) = should r n (some resp.status_code) none

-- What the next wait is told.
unfoldable pub last_of : Attempt → Last
last_of no_connection = record { status = 0; hint = []; err = some no_connection_error }
last_of transferred = no_last
last_of (fails e) = record { status = 0; hint = []; err = some e }
last_of (breaks resp e) = record {
  status = resp.status_code;
  hint = header resp.headers (codes "Retry-After");
  err = some e;
}
last_of (replies resp) = record {
  status = resp.status_code;
  hint = header resp.headers (codes "Retry-After");
  err = none;
}

-- `lastErr` after `continue`.
unfoldable pub last_err : Attempt → Option Error → Option Error
last_err no_connection old = some no_connection_error
last_err transferred old = old
last_err (fails e) old = some e
last_err (breaks resp e) old = some e
last_err (replies resp) old = old

-- The returns of an attempt that is not retried.
unfoldable pub answer_of : World → Attempt → Answer
answer_of w no_connection = (none, some no_connection_error)
answer_of w transferred =
    (none, some (wrap_error timeout_error "request cancelled" w.context_error))
answer_of w (fails e) = (none, some e)
answer_of w (breaks resp e) = (some resp, some e)
answer_of w (replies resp) = (some resp, none)

-- The returns after the loop.
unfoldable pub exhausted : Option Error → Answer
exhausted (some e) = (none, some e)
exhausted none =
    (none, some (wrap_error internal_error "max retries exhausted" (sentinel connect_failed)))

-- The loop with so many attempts left: its answer, and how many attempts it has made.
unfoldable pub attempts : World → Option Retryer → ℕ → ℕ → Last → Option Error → Answer × ℕ
attempts w r zero n last err = (exhausted err, n)
attempts w r (suc left) n last err = elim (wait_before w r n last) [
  | some e ↦ ((none, some (wrap_error timeout_error "retry wait cancelled" e)), n)
  | none ↦ elim (retries r n (w.attempt n)) [
    | true ↦ attempts w r left (suc n) (last_of (w.attempt n)) (last_err (w.attempt n) err)
    | false ↦ (answer_of w (w.attempt n), suc n)
  ]
]

unfoldable pub max_attempts : Option Retryer → ℕ
max_attempts none = 1
max_attempts (some r) = 1 + r.max_retries

-- `DoWithContext` from its loop on.
unfoldable pub do_attempts : World → Option Retryer → Answer × ℕ
do_attempts w r = attempts w r (max_attempts r) 0 no_last none
