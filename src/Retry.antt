-- ===== src/Retry.antt =====
-- retry.go, and the loop of `DoWithContext` in client.go. Delays are nanoseconds. What a float
-- computes in `Backoff` is a parameter, and so are the clock and the two calls of the standard
-- library that read a header's text.
pub mod Loop
pub mod Delay
use bursthttp.Base.{
  leb, Bytes, codes, ℕ, Bool, true, false, Option, none, some, List, [], ℤ, pos, ltb_ℤ, nonempty,
  to_int, ◌==◌, if◌then◌else◌, ◌*◌, ◌%◌, ◌^◌, ◌&&◌, ◌||◌, ◌∷◌,
}
use bursthttp.Errors.{
  Sentinel, ErrorType, Error, connect_failed, connection_closed, network_error, detailed_type,
  is_retryable, is_timeout, sentinel, detailed,
}

-- `Retryer`, less what only `Backoff` reads. A map of booleans is the list of its keys.
pub record Retryer : Type 0 where
  pub max_retries : ℕ
  pub max_delay : ℤ
  pub status_codes : List ℕ

-- `NewRetryer`, where 0 is a `MaxRetries` that is not positive.
unfoldable pub new_retryer : ℕ → ℤ → List ℕ → Option Retryer
new_retryer max_retries max_delay codes =
    if max_retries == 0
    then none
    else some (record { max_retries = max_retries; max_delay = max_delay; status_codes = codes })

unfoldable pub contains : List ℕ → ℕ → Bool
contains [] n = false
contains (c ∷ cs) n = c == n || contains cs n

-- `ShouldRetry`, over the status of a response that is not nil.
unfoldable pub should_retry : Retryer → ℕ → Option ℕ → Option Error → Bool
should_retry r attempt status err =
    if leb r.max_retries attempt
    then false
    else if is_retryable err
    then true
    else elim status [ none ↦ false | some s ↦ contains r.status_codes s ]

-- `errors.Is` with one of the two sentinels, along the chain.
unfoldable pub wraps_connection_loss : Error → Bool
wraps_connection_loss (sentinel connect_failed) = true
wraps_connection_loss (sentinel connection_closed) = true
wraps_connection_loss (detailed t m e) = wraps_connection_loss e
wraps_connection_loss _ = false

abbrev pub is_network : ErrorType → Bool
is_network network_error = true
is_network _ = false

-- `isConnectionLevelError`
unfoldable pub is_connection_level_error : Error → Bool
is_connection_level_error e = elim (detailed_type e) [
  | some t ↦ is_network t
  | none ↦ wraps_connection_loss e
]

-- What a header's text reads as: `strconv.Atoi` of it, and the time until the date that `time.Parse`
-- gives, each of the text with its blanks trimmed.
pub record Clock : Type 0 where
  pub atoi : Bytes → Option ℤ
  pub until_date : Bytes → Option ℤ

-- `time.Duration(n) * time.Second` on 64 bits.
unfoldable pub seconds : ℕ → ℤ
seconds n = to_int ((n * 1000000000) % 2 ^ 64)

-- `parseRetryAfter`
unfoldable pub parse_retry_after : Clock → Bytes → Option ℤ
parse_retry_after clock s = elim (clock.atoi s) [
  | some (pos n) ↦ some (seconds n)
  | _ ↦ elim (clock.until_date s) [
    | none ↦ none
    | some d ↦ some (if ltb_ℤ d (pos 0) then pos 0 else d)
  ]
]

abbrev pub some_or : Option ℤ → ℤ → ℤ
some_or none d = d
some_or (some x) d = x

-- The part of `adaptiveDelay` that honours the server's hint, `none` where it goes on.
unfoldable pub hinted_delay : Retryer → Clock → ℕ → Bytes → Option ℤ
hinted_delay r clock status hint =
    if status == 429 && nonempty hint
    then elim (parse_retry_after clock hint) [
      | none ↦ none
      | some d ↦ some (if ltb_ℤ r.max_delay d then r.max_delay else d)
    ]
    else none

abbrev pub is_blip : Option Error → Bool
is_blip none = false
is_blip (some e) = is_timeout (some e) || is_connection_level_error e

-- `adaptiveDelay`, over what `Backoff` gives.
unfoldable pub adaptive_delay : Retryer → Clock → ℤ → ℕ → Bytes → Option Error → ℤ
adaptive_delay r clock backoff status hint err =
    some_or (hinted_delay r clock status hint) (if is_blip err then pos 0 else backoff)
