-- ===== src/Connection/Sequential.antt =====
-- connection.go: `doSequential`, one request and its response on a connection without pipelining, and
-- the branch of `Do` that leads to it. `now` is the time, `elapsed` what the exchange took.
pub mod Keeps
pub mod Counts
pub mod Ready
pub mod Exchange
pub mod Expect
use bursthttp.Base.{
  ltb, leb, length, replicate, Bytes, ℕ, Bool, true, false, Option, none, some, [], pos, nonempty,
  pos_part, ◌==◌, if◌then◌else◌, ◌+◌, ◌-◌, ◌&&◌,
}
use bursthttp.Errors.{
  Error, eof, wrap_error, network_error, timeout_error, internal_error, validation_error, sentinel,
  connect_failed, invalid_response, net_timeout,
}
use bursthttp.Input.{Input, Outcome, done, failed, panics, out_of_fuel}
use bursthttp.Proxy.{Conn, write, wrapped}
use bursthttp.Request.{Request}
use bursthttp.Response.{Response, reset}
use bursthttp.Response.Lookup.{is_connection_close}
use bursthttp.Connection.{Connection, record_success, record_error}
use bursthttp.Connection.Link.{
  LinkConfig, Link, set_healthy, ensure_connection, close_link, update_time_cache, prepare_body,
  send_request, receive_response,
}

abbrev pub Result : Type 0
Result = Outcome Response × Link

abbrev pub refused : Link → Error → Result
refused l e = (failed e, l)

-- The connection cannot be used any more.
abbrev pub broken : Link → Error → Result
broken l e = (failed e, set_healthy false l)

abbrev pub with_health : Link → Connection → Link
with_health l h = record l { state = h }

-- `c.healthy.Store(0)` and `c.recordError()`
abbrev pub read_broken : LinkConfig → Link → Error → Result
read_broken cfg l e =
    let down : Link = set_healthy false l in
    (failed e, with_health down (record_error cfg.health_config down.state))

-- The request is count_request on the connection, and the clock is advanced.
abbrev pub count_request : ℕ → Link → Link
count_request now l = update_time_cache now (record l { reqs_on_conn = l.reqs_on_conn + 1 })

-- The three errors for a response that could not be read.
abbrev pub closed_error : Error → Error
closed_error eof = wrap_error network_error "connection closed by server" eof
closed_error e = e

abbrev pub read_error : Error → Error
read_error e = if net_timeout e then wrap_error timeout_error "read timeout" e else closed_error e

abbrev pub closes : Response → Link → Link
closes r l = if is_connection_close r.headers then set_healthy false l else l

abbrev pub at_input : Conn → Input → Conn
at_input c i = record c { incoming = i }

abbrev pub on_socket : Link → Conn → Link
on_socket l c = record l { socket = some c }

-- What stands behind a response that was read.
abbrev pub succeeded : LinkConfig → ℕ → ℕ → ℕ → Link → Response → Link
succeeded cfg now elapsed sent l r =
    let k : Link = count_request now l in
    closes r (record k {
      state = record_success cfg.health_config elapsed k.state;
      bytes_written = k.bytes_written + sent;
      bytes_read = k.bytes_read + pos_part r.content_length;
    })

-- From `c.readResponse` on. A response that has a status is given even when its reading failed.
unfoldable pub after_receive :
    LinkConfig → ℕ → ℕ → ℕ → Link → Conn → Response × Outcome Input → Result
after_receive cfg now elapsed sent l c (r, done rest) =
    (done r, succeeded cfg now elapsed sent (on_socket l (at_input c rest)) r)
after_receive cfg now elapsed sent l c (r, failed e) =
    let l' : Link = on_socket l (at_input c (cfg.leftover c.incoming)) in
    if ltb 0 r.status_code
    then (done r, count_request now l')
    else read_broken cfg l' (read_error e)
after_receive cfg now elapsed sent l c (r, panics) = (panics, l)
after_receive cfg now elapsed sent l c (r, out_of_fuel) = (out_of_fuel, l)

-- From the write of the request, or of its body, on.
unfoldable pub after_write :
    LinkConfig → ℕ → ℕ → ℕ → Bytes → Response → Link → Outcome Conn → Result
after_write cfg now elapsed sent method r l (done c) =
    after_receive cfg now elapsed sent l c (receive_response cfg method r c.incoming)
after_write cfg now elapsed sent method r l (failed e) = broken l e
after_write cfg now elapsed sent method r l panics = (panics, l)
after_write cfg now elapsed sent method r l out_of_fuel = (out_of_fuel, l)

-- The fields that are copied from a response that is not the 100 asked for.
abbrev pub final_of : Response → Response → Response
final_of r cont = record r {
  status_code = cont.status_code;
  headers = cont.headers;
  body_len = cont.body_len;
  body_buf = cont.body_buf;
  content_length = cont.content_length;
}

-- The answer to the head of a request that waits for a 100.
unfoldable pub after_continue :
    LinkConfig → ℕ → ℕ → Bytes → Bytes → Response → Link → Conn → Response × Outcome Input → Result
after_continue cfg now elapsed method content r l c (cont, done rest) =
    let c' : Conn = at_input c rest in
    if cont.status_code == 100
    then after_write cfg now elapsed (length content) method r (on_socket l c')
        (wrapped network_error "write body after 100-continue failed" (write content c'))
    else (done (final_of r cont), count_request now (on_socket l c'))
after_continue cfg now elapsed method content r l c (cont, failed e) = broken l e
after_continue cfg now elapsed method content r l c (cont, panics) = (panics, l)
after_continue cfg now elapsed method content r l c (cont, out_of_fuel) = (out_of_fuel, l)

-- `&Response{bodyBuf: make([]byte, 512), …}`
abbrev pub continue_response : Response
continue_response = record {
  status_code = 0;
  content_length = pos 0;
  body_len = 0;
  headers = [];
  body_buf = replicate 512 0;
  max_size = 0;
  raw_header_buf = [];
}

unfoldable pub after_expect :
    LinkConfig → ℕ → ℕ → Bytes → Bytes → Response → Link → Outcome Conn → Result
after_expect cfg now elapsed method content r l (done c) =
    after_continue cfg now elapsed method content r l c
      (receive_response cfg method continue_response c.incoming)
after_expect cfg now elapsed method content r l (failed e) = broken l e
after_expect cfg now elapsed method content r l panics = (panics, l)
after_expect cfg now elapsed method content r l out_of_fuel = (out_of_fuel, l)

-- The exchange on a socket, with the body prepared.
unfoldable pub exchange :
    LinkConfig → ℕ → ℕ → Request → Bytes × Bool → Response → Link → Conn → Result
exchange cfg now elapsed req (content, compressed) r l c =
    if req.expect_continue && nonempty content
    then after_expect cfg now elapsed req.method content r l (send_request cfg req [] compressed c)
    else after_write cfg now elapsed (length content) req.method r l
        (send_request cfg req content compressed c)

abbrev pub nil_response_error : Error
nil_response_error = wrap_error internal_error "response object is nil" (sentinel invalid_response)

abbrev pub with_response :
    LinkConfig → ℕ → ℕ → Request → Option Response → Link → Conn → Outcome (Bytes × Bool) → Result
with_response cfg now elapsed req r l c (failed e) = refused l e
with_response cfg now elapsed req none l c (done b) = refused l nil_response_error
with_response cfg now elapsed req (some r) l c (done b) =
    exchange cfg now elapsed req b (reset r) l c
with_response cfg now elapsed req r l c panics = (panics, l)
with_response cfg now elapsed req r l c out_of_fuel = (out_of_fuel, l)

abbrev pub on_conn : LinkConfig → ℕ → ℕ → Request → Option Response → Link → Option Conn → Result
on_conn cfg now elapsed req r l none =
    refused l (wrap_error network_error "connection is nil" (sentinel connect_failed))
on_conn cfg now elapsed req r l (some c) =
    with_response cfg now elapsed req r l c (prepare_body cfg req)

-- Behind the rotation of the connection.
abbrev pub rotated : LinkConfig → ℕ → ℕ → Request → Option Response → Link × Bool → Result
rotated cfg now elapsed req r (l, true) = on_conn cfg now elapsed req r l l.socket
rotated cfg now elapsed req r (l, false) =
    refused l (wrap_error network_error "connection not available" (sentinel connect_failed))

abbrev pub rotate : LinkConfig → ℕ → Link → Link × Bool
rotate cfg now l =
    if ltb 0 cfg.max_requests_per_conn && leb cfg.max_requests_per_conn l.reqs_on_conn
    then ensure_connection cfg now (close_link l)
    else (l, true)

abbrev pub unless_cancelled :
    LinkConfig → ℕ → ℕ → Request → Option Response → Option Error → Link → Result
unless_cancelled cfg now elapsed req r (some e) l =
    refused l (wrap_error timeout_error "request cancelled" e)
unless_cancelled cfg now elapsed req r none l = rotated cfg now elapsed req r (rotate cfg now l)

-- `if !c.poolClaimed.Swap(false) { c.activeReqs.Add(1) }`, and the deferred decrement.
abbrev pub claim : Connection → Connection
claim h = record h {
  pool_claimed = false;
  active_reqs = if h.pool_claimed then h.active_reqs else h.active_reqs + 1;
}

abbrev pub unclaim : Connection → Connection
unclaim h = record h { active_reqs = h.active_reqs - 1 }

-- `doSequential`, for the error of a context that is done.
unfoldable pub do_sequential :
    LinkConfig → ℕ → ℕ → Request → Option Response → Option Error → Link → Result
do_sequential cfg now elapsed req r cancelled l =
    let (out, l') =
      unless_cancelled cfg now elapsed req r cancelled (with_health l (claim l.state)) in
    (out, with_health l' (unclaim l'.state))

-- `Do` with pipelining off.
abbrev pub do_ensured :
    LinkConfig → ℕ → ℕ → Request → Option Response → Option Error → Link × Bool → Result
do_ensured cfg now elapsed req r cancelled (l, true) =
    do_sequential cfg now elapsed req r cancelled l
do_ensured cfg now elapsed req r cancelled (l, false) =
    refused l (wrap_error network_error "connection failed" (sentinel connect_failed))

unfoldable pub do_request :
    LinkConfig → ℕ → ℕ → Option Request → Option Response → Option Error → Link → Result
do_request cfg now elapsed none r cancelled l =
    refused l (wrap_error validation_error "request is nil" (sentinel invalid_response))
do_request cfg now elapsed (some req) r cancelled l =
    do_ensured cfg now elapsed req r cancelled (ensure_connection cfg now l)
