-- ===== src/Errors.antt =====
-- errors.go: the sentinel errors, the wrapping error, and the two tests that the retry logic makes.
pub mod Classes
use Prim.Native.String.{String}
use bursthttp.Base.{ℕ, Bool, true, false, Option, none, some, if◌then◌else◌}

pub data Sentinel : Type 0 where
  connect_failed write_failed read_failed header_too_large invalid_response : Sentinel
  response_too_large request_too_large header_buffer_small timeout connection_closed : Sentinel
  proxy_failed invalid_url invalid_request : Sentinel

pub data ErrorType : Type 0 where
  network_error timeout_error protocol_error tls_error proxy_error validation_error : ErrorType
  internal_error : ErrorType

-- `detailed` is `*DetailedError`, less the context that it only prints. `eof`, `unexpected_eof`, the two
-- context errors and `net_error`, with the answer of its `Timeout()`, come from the standard library;
-- `other` is any error that wraps nothing and is none of these.
pub data Error : Type 0 where
  sentinel : Sentinel → Error
  detailed : ErrorType → String → Error → Error
  eof unexpected_eof : Error
  deadline_exceeded : Error
  canceled : Error
  net_error : Bool → Error
  other : ℕ → Error

-- `WrapError`; `LogErrorWithFlag` builds the same value.
abbrev pub wrap_error : ErrorType → String → Error → Error
wrap_error = detailed

-- The error at the end of the chain of `Unwrap`.
unfoldable pub root : Error → Error
root (detailed t m e) = root e
root (sentinel s) = sentinel s
root eof = eof
root unexpected_eof = unexpected_eof
root deadline_exceeded = deadline_exceeded
root canceled = canceled
root (net_error b) = net_error b
root (other n) = other n

-- `errors.As` for a `*DetailedError`, which is the outermost one: nothing else wraps.
abbrev pub detailed_type : Error → Option ErrorType
detailed_type (detailed t m e) = some t
detailed_type _ = none

abbrev pub is_connect_class : Sentinel → Bool
is_connect_class connect_failed = true
is_connect_class write_failed = true
is_connect_class read_failed = true
is_connect_class connection_closed = true
is_connect_class timeout = true
is_connect_class _ = false

-- The five `errors.Is` tests of `IsRetryable`, each along the chain.
unfoldable pub wraps_connect_class : Error → Bool
wraps_connect_class (sentinel s) = is_connect_class s
wraps_connect_class (detailed t m e) = wraps_connect_class e
wraps_connect_class _ = false

abbrev pub is_network_or_timeout : ErrorType → Bool
is_network_or_timeout network_error = true
is_network_or_timeout timeout_error = true
is_network_or_timeout _ = false

-- The answer of a type test, false where `errors.As` finds nothing.
abbrev pub tests_type : (ErrorType → Bool) → Option ErrorType → Bool
tests_type test none = false
tests_type test (some t) = test t

unfoldable pub is_retryable : Option Error → Bool
unfolding wraps_connect_class
is_retryable none = false
is_retryable (some e) =
    if wraps_connect_class e then true else tests_type is_network_or_timeout (detailed_type e)

-- `errors.Is(err, ErrTimeout) || errors.Is(err, context.DeadlineExceeded)`
unfoldable pub wraps_timeout : Error → Bool
wraps_timeout (sentinel timeout) = true
wraps_timeout (detailed t m e) = wraps_timeout e
wraps_timeout deadline_exceeded = true
wraps_timeout _ = false

-- `errors.As` for a `net.Error`, and its `Timeout()`. `context.DeadlineExceeded` is one too.
unfoldable pub net_timeout : Error → Bool
net_timeout (detailed t m e) = net_timeout e
net_timeout (net_error b) = b
net_timeout deadline_exceeded = true
net_timeout _ = false

abbrev pub is_timeout_type : ErrorType → Bool
is_timeout_type timeout_error = true
is_timeout_type _ = false

unfoldable pub is_timeout : Option Error → Bool
unfolding wraps_timeout net_timeout
is_timeout none = false
is_timeout (some e) =
    if wraps_timeout e
    then true
    else if tests_type is_timeout_type (detailed_type e)
    then true
    else net_timeout e
