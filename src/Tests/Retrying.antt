-- ===== src/Tests/Retrying.antt =====
-- The retry logic, the error classes and the health score on small cases.
use bursthttp.Base.{codes, ℕ, zero, suc, refl, true, false, none, some, [], arith, pos, ◌≡◌, ◌∷◌}
use bursthttp.Errors.{
  Error, is_retryable, wraps_connect_class, is_timeout, wraps_timeout, net_timeout, detailed,
  sentinel, write_failed, network_error, invalid_request, deadline_exceeded,
}
use bursthttp.Response.{Response}
use bursthttp.Retry.{
  Retryer, Clock, adaptive_delay, should_retry, contains, is_connection_level_error, hinted_delay,
}
use bursthttp.Retry.Delay.{wait_adaptive_wraps}
use bursthttp.Retry.Loop.{
  World, Attempt, replies, fails, wait_adaptive, attempts, retries, answer_of, last_of, last_err,
  wait_before, max_attempts, do_attempts,
}
use bursthttp.Retry.Loop.Ends.{Ends}
use bursthttp.Connection.{HealthConfig, new_connection, record_error, record_success, health}
use bursthttp.Connection.Health.{
  WellFormed, created, later, errs, Reaches-WellFormed, fresh_score_drops,
}
use bursthttp.Tests.Bodies.{empty_response}

abbrev write_error : Error
write_error = detailed network_error "write" (sentinel write_failed)

is_retryable_run : is_retryable (some (sentinel invalid_request)) ≡ false
unfolding is_retryable wraps_connect_class
is_retryable_run = refl

-- Two retries, of status 503, with a delay of at most a second.
abbrev two_retries : Retryer
two_retries = record { max_retries = 2; max_delay = pos 1000000000; status_codes = 503 ∷ [] }

abbrev reading_clock : ℕ → Clock
reading_clock n = record { atoi = λ s. some (pos n); until_date = λ s. none }

abbrev ok_response : Response
ok_response = record (empty_response 0 0) { status_code = 200 }

-- The first attempt fails on the network, the second is answered.
abbrev blip : ℕ → Attempt
blip zero = fails write_error
blip (suc n) = replies ok_response

abbrev blip_world : World
blip_world = record {
  attempt = blip;
  backoff = λ n. pos 5;
  clock = reading_clock 3;
  timer = λ d. none;
  context_error = deadline_exceeded;
}

do_attempts_run : do_attempts blip_world (some two_retries) ≡ ((some ok_response, none), 2)
unfolding do_attempts max_attempts attempts wait_before wait_adaptive adaptive_delay hinted_delay
    is_connection_level_error is_timeout wraps_timeout net_timeout retries should_retry contains
    is_retryable wraps_connect_class answer_of last_of last_err
do_attempts_run = refl

abbrev huge_world : World
huge_world = record blip_world { clock = reading_clock 9223372037 }

wait_adaptive_wraps_example :
    wait_adaptive huge_world two_retries 0
      (record { status = 429; hint = codes "9223372037"; err = none })
    ≡ none
wait_adaptive_wraps_example =
    wait_adaptive_wraps huge_world two_retries 0 9223372037 1000000000
      (record { status = 429; hint = codes "9223372037"; err = none }) refl refl refl refl
      (omega arith) (omega arith)

abbrev pub scoring : HealthConfig
scoring = record {
  enable_pipelining = false;
  enable_health_scoring = true;
  enable_pipeline_auto_tune = false;
  max_pipelined_requests = 0;
}

Reaches-WellFormed_example : WellFormed scoring (record_error scoring (new_connection scoring 1))
Reaches-WellFormed_example =
    Reaches-WellFormed scoring (record_error scoring (new_connection scoring 1))
      (later (created 1) (errs (new_connection scoring 1)))

fresh_score_drops_example :
    (health (new_connection scoring 1) ≡ 100)
    × (health (record_success scoring 7 (new_connection scoring 1)) ≡ 0)
fresh_score_drops_example = fresh_score_drops scoring 1 7 refl (omega arith)
