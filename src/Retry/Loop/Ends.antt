-- ===== src/Retry/Loop/Ends.antt =====
-- How the retry loop ends: with the answer of the first attempt that is not retried.
use bursthttp.Base.{
  Bool-cases, Option-cases, ℕ, zero, suc, refl, inl, inr, true, false, Option, none, some, arith,
  ◌+◌, ◌≤◌, ◌<◌, ◌≡◌,
}
use bursthttp.Errors.{Error, wrap_error, timeout_error}
use bursthttp.Retry.{Retryer, should_retry}
use bursthttp.Retry.Loop.{
  Attempt, no_connection, transferred, fails, breaks, replies, World, Answer, Last, no_last,
  wait_before, should, retries, last_of, answer_of, attempts, max_attempts, do_attempts, Attempt,
  fails, breaks, replies,
}

-- `Follows w r n last`: attempts 0 to n - 1 were made and retried, each after a wait that ended.
pub data Follows (w : World) (r : Option Retryer) : ℕ → Last → Type 0 where
  start : Follows w r 0 no_last
  again :
      {n : ℕ} {last : Last}
      → Follows w r n last
      → wait_before w r n last ≡ none
      → retries r n (w.attempt n) ≡ true
      → Follows w r (suc n) (last_of (w.attempt n))

-- The two ends of the loop, with the number of attempts made.
pub data Ends (w : World) (r : Option Retryer) : Answer × ℕ → Type 0 where
  settled :
      {n : ℕ} {last : Last}
      → Follows w r n last
      → wait_before w r n last ≡ none
      → retries r n (w.attempt n) ≡ false
      → Ends w r (answer_of w (w.attempt n), suc n)
  cancelled :
      {n : ℕ} {last : Last} {e : Error}
      → Follows w r n last
      → wait_before w r n last ≡ some e
      → Ends w r ((none, some (wrap_error timeout_error "retry wait cancelled" e)), n)

should_bound :
    (r : Option Retryer) (n : ℕ) (status : Option ℕ) (err : Option Error)
    → should r n status err ≡ true
    → suc n < max_attempts r
unfolding should_retry max_attempts
should_bound none n status err h = ground arith
should_bound (some r) n status err h = ground arith

-- The last attempt is never retried.
retries_bound :
    (r : Option Retryer) (n : ℕ) (a : Attempt) → retries r n a ≡ true → suc n < max_attempts r
unfolding retries
retries_bound r n no_connection h = should_bound r n _ _ h
retries_bound r n transferred h = ground arith
retries_bound r n (fails e) h = should_bound r n _ _ h
retries_bound r n (breaks resp e) h = should_bound r n _ _ h
retries_bound r n (replies resp) h = should_bound r n _ _ h

attempts-Ends :
    (w : World) (r : Option Retryer) (left n : ℕ) (last : Last) (err : Option Error)
    → Follows w r n last
    → n < max_attempts r
    → max_attempts r ≡ left + n
    → Ends w r (attempts w r left n last err)
unfolding attempts
attempts-Ends w r zero n last err f l h = absurd (omega arith)
attempts-Ends w r (suc left) n last err f l h = elim (Option-cases (wait_before w r n last)) [
  | inr (e, c) ↦ rw (c, attempts) (cancelled f c)
  | inl c ↦ elim (Bool-cases (retries r n (w.attempt n))) [
    | inr k ↦ rw (c, k, attempts) (settled f c k)
    | inl k ↦
        rw (c, k, attempts)
          (attempts-Ends w r left (suc n) _ _ (again f c k) (retries_bound r n (w.attempt n) k)
            (omega arith))
  ]
]

max_attempts_positive : (r : Option Retryer) → (k : ℕ) × (max_attempts r ≡ suc k)
unfolding max_attempts
max_attempts_positive none = (0, refl)
max_attempts_positive (some r) = (r.max_retries, omega arith)

pub do_attempts-Ends : (w : World) (r : Option Retryer) → Ends w r (do_attempts w r)
unfolding do_attempts
do_attempts-Ends w r =
    let (k, e) = max_attempts_positive r in
    attempts-Ends w r (max_attempts r) 0 no_last none start (omega (arith, e)) (omega arith)

Follows-bound :
    (w : World) (r : Option Retryer) {n : ℕ} {last : Last} → Follows w r n last → n < max_attempts r
Follows-bound w r start = let (k, e) = max_attempts_positive r in omega (arith, e)
Follows-bound w r (again f c k) = retries_bound r _ _ k

Ends-bound : (w : World) (r : Option Retryer) (x : Answer × ℕ) → Ends w r x → x.1 ≤ max_attempts r
Ends-bound w r x (settled f c k) = Follows-bound w r f
Ends-bound w r x (cancelled f c) = omega (arith, Follows-bound w r f)

-- The retry loop makes at most one attempt more than the configured number of retries, and a
-- single one without a retryer.
pub do_attempts_bound : (w : World) (r : Option Retryer) → (do_attempts w r).1 ≤ max_attempts r
do_attempts_bound w r = Ends-bound w r (do_attempts w r) (do_attempts-Ends w r)
