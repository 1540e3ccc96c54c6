-- ===== src/Retry/Delay.antt =====
-- How long a retry waits when the server says how long: `adaptiveDelay` and `WaitAdaptive`.
use bursthttp.Base.{
  Bytes, ℕ, min, refl, true, Option, none, some, arith, ℤ, pos, negsuc, nonempty, ◌-◌, ◌*◌, ◌^◌,
  ◌≤◌, ◌<◌, ◌≡◌,
}
use bursthttp.Errors.{Error}
use bursthttp.Retry.{Retryer, Clock, seconds, parse_retry_after, hinted_delay, adaptive_delay}
use bursthttp.Retry.Loop.{World, Last, wait_adaptive}

seconds_exact : (n : ℕ) → n * 1000000000 < 2 ^ 63 → seconds n ≡ pos (n * 1000000000)
unfolding seconds
seconds_exact n h = grind arith

seconds_wrap :
    (n : ℕ) → 2 ^ 63 ≤ n * 1000000000 → n * 1000000000 < 2 ^ 64 → (k : ℕ) × (seconds n ≡ negsuc k)
unfolding seconds
seconds_wrap n h k = (2 ^ 64 - 1 - n * 1000000000, grind arith)

-- After a 429 whose Retry-After reads as n seconds, with n seconds below 2 ^ 63 nanoseconds, the
-- delay is n seconds or the maximal delay, whichever is less, whatever the error and the backoff
-- are.
pub adaptive_delay-seconds :
    (r : Retryer) (clock : Clock) (backoff : ℤ) (hint : Bytes) (err : Option Error) (n limit : ℕ)
    → nonempty hint ≡ true
    → clock.atoi hint ≡ some (pos n)
    → r.max_delay ≡ pos limit
    → n * 1000000000 < 2 ^ 63
    → adaptive_delay r clock backoff 429 hint err ≡ pos (min (n * 1000000000) limit)
unfolding adaptive_delay hinted_delay parse_retry_after
adaptive_delay-seconds r clock backoff hint err n limit a b c d =
    rw (a, b, seconds_exact n d, c) (ground arith)

-- After a 429 whose Retry-After reads as a number of seconds from 2 ^ 63 up to 2 ^ 64
-- nanoseconds, under a maximal delay that is not negative, the multiplication wraps to a
-- negative duration and WaitAdaptive does not wait at all.
pub wait_adaptive_wraps :
    (w : World) (r : Retryer) (attempt n limit : ℕ) (last : Last)
    → last.status ≡ 429
    → nonempty last.hint ≡ true
    → w.clock.atoi last.hint ≡ some (pos n)
    → r.max_delay ≡ pos limit
    → 2 ^ 63 ≤ n * 1000000000
    → n * 1000000000 < 2 ^ 64
    → wait_adaptive w r attempt last ≡ none
unfolding wait_adaptive adaptive_delay hinted_delay parse_retry_after
wait_adaptive_wraps w r attempt n limit last s a b c d e =
    let (k, f) = seconds_wrap n d e in rw (s, a, b, f, c) refl
