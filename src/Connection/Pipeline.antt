-- ===== src/Connection/Pipeline.antt =====
-- connection.go: the queue of pipelined requests, and `ResponseReader.run`, which answers them. The
-- channels of a request are the log of what is sent on them; each holds one value and gets at most
-- one. The health window, the deadlines and the byte counts are not in this state.
pub mod Fifo
use bursthttp.Base.{
  ltb, Bytes, ℕ, zero, suc, Bool, true, false, Option, none, some, List, [], ◌==◌, if◌then◌else◌,
  ◌+◌, ◌-◌, ◌∷◌, ◌++◌,
}
use bursthttp.Errors.{
  Error, ErrorType, wrap_error, network_error, timeout_error, internal_error, sentinel,
  connect_failed, invalid_response, eof, net_timeout,
}
use bursthttp.Input.{Input, Outcome, done, failed, panics, out_of_fuel}
use bursthttp.Response.{Response, reset}
use bursthttp.Response.Lookup.{is_connection_close}
use bursthttp.Parser.Gzip.{Gunzip}
use bursthttp.Parser.Buffered.{read_response_buffered}

-- `PendingRequest`, known by a ticket as the source knows it by its pointer.
pub record Pending : Type 0 where
  pub ticket : ℕ
  pub resp : Option Response
  pub cancelled : Bool
  pub method : Bytes

-- What is sent on the channels of a request.
pub data Sent : Type 0 where
  response_to : ℕ → Response → Sent
  error_to : ℕ → Error → Sent

pub record Pipe : Type 0 where
  pub closing : Bool
  pub pending : List Pending
  pub active_reqs : ℕ
  pub reqs_on_conn : ℕ
  pub input : Input
  pub sent : List Sent

-- `doPipelined` after a write that succeeds, under the lock.
unfoldable pub enqueue : Pending → Pipe → Option Pipe
enqueue p s =
    if s.closing
    then none
    else some (record s { pending = s.pending ++ p ∷ []; active_reqs = s.active_reqs + 1 })

abbrev pub close_error : Error
close_error = wrap_error network_error "connection closed" (sentinel connect_failed)

unfoldable pub send_all : Error → List Pending → List Sent
send_all e [] = []
send_all e (p ∷ ps) = error_to p.ticket e ∷ send_all e ps

-- `closeConn`
unfoldable pub close_conn : Pipe → Pipe
close_conn s =
    if s.closing
    then s
    else record s { closing = true; pending = []; sent = s.sent ++ send_all close_error s.pending }

-- `removePending`
unfoldable pub remove_pending : ℕ → List Pending → List Pending
remove_pending t [] = []
remove_pending t (p ∷ ps) = let rest = remove_pending t ps in if p.ticket == t then ps else p ∷ rest

-- A send to a caller that has not gone.
abbrev pub send : Pending → Sent → Pipe → Pipe
send p m s = if p.cancelled then s else record s { sent = s.sent ++ m ∷ [] }

-- A response is delivered, and the connection closed if it says so: the second part says that `run`
-- returns.
unfoldable pub deliver : Pending → Response → Pipe → Pipe × Bool
deliver p r s =
    let delivered =
      send p (response_to p.ticket r) (record s { reqs_on_conn = s.reqs_on_conn + 1 }) in
    if is_connection_close r.headers then (close_conn delivered, true) else (delivered, false)

-- The error that the caller gets, by the switch on the kind of the error.
unfoldable pub reported : Error → Error
reported e =
    if net_timeout e
    then wrap_error timeout_error "read timeout" e
    else elim e [ eof ↦ wrap_error network_error "connection closed by server" eof | x ↦ x ]

-- What follows the reading of a response. `leftover` is the input behind an error, which
-- `read_response_buffered` does not give. A panic ends the program: `none`.
unfoldable pub after_response :
    Input → Pending → Pipe → Response × Outcome Input → Option (Pipe × Bool)
after_response leftover p s (r, done rest) = some (deliver p r (record s { input = rest }))
after_response leftover p s (r, failed e) = some (
    if ltb 0 r.status_code then deliver p r (record s { input = leftover }) else (
      send p (error_to p.ticket (reported e)) (close_conn (record s { input = leftover })),
      true,
    ))
after_response leftover p s (r, panics) = none
after_response leftover p s (r, out_of_fuel) = none

abbrev pub nil_response : Error
nil_response = wrap_error internal_error "response object is nil" (sentinel invalid_response)

-- The sizes and parameters that the reader has.
pub record Reader : Type 0 where
  pub gunzip : Bytes → Gunzip
  pub fuel : ℕ
  pub scratch : ℕ
  pub max_resp_size : ℕ
  pub leftover : Input → Input

-- A round of the inner loop of `run`, for the first request in the queue.
unfoldable pub answer : Reader → Pending → Pipe → Option (Pipe × Bool)
answer rr p s =
    let taken = record s {
      active_reqs = s.active_reqs - 1;
      pending = remove_pending p.ticket s.pending;
    } in
    elim p.resp [
      | none ↦ some (send p (error_to p.ticket nil_response) taken, false)
      | some r ↦ after_response (rr.leftover s.input) p taken (
          read_response_buffered rr.gunzip rr.fuel rr.scratch rr.max_resp_size p.method (reset r)
            s.input)
    ]

-- The inner loop of `run`, for so many rounds; it ends when the queue is empty.
unfoldable pub run : Reader → ℕ → Pipe → Option Pipe
run rr zero s = none
run rr (suc n) s = elim s.pending [
  | [] ↦ some s
  | p ∷ _ ↦ if s.closing then some s else elim (answer rr p s) [
    | none ↦ none
    | some (s', stops) ↦ elim stops [ true ↦ some s' | false ↦ run rr n s' ]
  ]
]
