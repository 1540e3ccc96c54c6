-- ===== src/Connection/Link.antt =====
-- connection.go: the link to the server under a connection, as `doSequential` uses it: `ensureConnection`,
-- `closeConn`, the cached clock, and one request written and one response read. The deadlines of the
-- socket are not modelled; a timeout is an error of its input. A dial, TLS included, is an entry of
-- `dials`: the socket that it gives, or none. `last_used` is taken from the cached clock.
use bursthttp.Base.{
  ltb, leb, length, Bytes, codes, ℕ, Bool, true, false, Option, none, some, List, [], ℤ, pos,
  negsuc, nonempty, ◌==◌, if◌then◌else◌, ◌+◌, ◌-◌, ◌/◌, ◌%◌, ◌^◌, ◌&&◌, ◌∷◌, ◌++◌,
}
use bursthttp.Errors.{
  Error, wrap_error, network_error, internal_error, sentinel, header_buffer_small,
  request_too_large,
}
use bursthttp.Input.{Input, Outcome, done, failed, ◌>>=◌, panics}
use bursthttp.Proxy.{Conn, write, wrapped}
use bursthttp.Request.{Request, ensure_body_size}
use bursthttp.Response.{Response}
use bursthttp.Writer.{KeepAlive, Destination, int_bytes, write_request_part1, write_request_part3}
use bursthttp.Parser.Gzip.{Gunzip}
use bursthttp.Parser.Buffered.{then_decompress}
use bursthttp.Parser.Direct.{read_response}
use bursthttp.Connection.{Connection, HealthConfig}

-- What `CompressInto` gives with a buffer of some size.
pub data Compressed : Type 0 where
  compressed_to : Bytes → Compressed
  not_compressed : Error → Compressed

-- The configuration of a connection, and what stands for the code of others: the compressor, the
-- decompressor, and the input behind a read that failed.
pub record LinkConfig : Type 0 where
  pub health_config : HealthConfig
  pub keep_alive_config : KeepAlive
  pub destination : Destination
  pub is_forward_proxy : Bool
  pub proxy_auth_header : Bytes
  pub max_requests_per_conn : ℕ
  pub idle_timeout : ℕ
  pub part1_size : ℕ
  pub read_buf_size : ℕ
  pub header_read_size : ℕ
  pub body_read_size : ℕ
  pub max_resp_size : ℕ
  pub max_req_size : ℕ
  pub fuel : ℕ
  pub compress : Option (ℕ → Bytes → Compressed)
  pub gunzip : Bytes → Gunzip
  pub leftover : Input → Input

pub record Link : Type 0 where
  pub state : Connection
  pub socket : Option Conn
  pub dials : List (Option Conn)
  pub closing : Bool
  pub reqs_on_conn : ℕ
  pub cached_now : ℕ
  pub last_used : ℕ
  pub time_counter : ℕ
  pub bytes_read : ℕ
  pub bytes_written : ℕ

abbrev pub set_healthy : Bool → Link → Link
set_healthy b l = let h = l.state in record l { state = record h { healthy = b } }

-- The test of `ensureConnection` on a connection that is up.
abbrev pub is_usable : LinkConfig → Link → Bool
is_usable cfg l =
    l.state.healthy
    && (if ltb 0 cfg.idle_timeout then leb (l.cached_now - l.last_used) cfg.idle_timeout else true)

-- `connectLocked`, and the stores of `ensureConnection` behind it.
abbrev pub connect : ℕ → Link → List (Option Conn) → Link × Bool
connect now l [] = (record (set_healthy false l) { socket = none }, false)
connect now l (none ∷ ds) = (record (set_healthy false l) { socket = none; dials = ds }, false)
connect now l (some s ∷ ds) = (
  record (set_healthy true l) {
    socket = some s;
    dials = ds;
    closing = false;
    reqs_on_conn = 0;
    cached_now = now;
    last_used = now;
    time_counter = 0;
  },
  true,
)

-- `ensureConnection` at the time `now`.
unfoldable pub ensure_connection : LinkConfig → ℕ → Link → Link × Bool
ensure_connection cfg now l = if is_usable cfg l then (l, true) else connect now l l.dials

-- `closeConn`, less the queue of pipelined requests.
unfoldable pub close_link : Link → Link
close_link l =
    if l.closing then l else record (set_healthy false l) { closing = true; socket = none }

-- `updateTimeCache`
unfoldable pub update_time_cache : ℕ → Link → Link
update_time_cache now l =
    let ctr = (l.time_counter + 1) % 2 ^ 32 in
    if ctr % 128 == 0
    then record l { time_counter = ctr; cached_now = now; last_used = now }
    else record l { time_counter = ctr; last_used = l.cached_now }

-- What `prepareBody` gives: the bytes to send, and whether they are compressed.
abbrev pub compressed_body : Bytes → Compressed → Outcome (Bytes × Bool)
compressed_body content (not_compressed e) =
    failed (wrap_error internal_error "compression failed" e)
compressed_body content (compressed_to []) = done (content, false)
compressed_body content (compressed_to (b ∷ bs)) = done (b ∷ bs, true)

abbrev pub into_buffer : Bytes → (ℕ → Bytes → Compressed) → Option ℤ → Outcome (Bytes × Bool)
into_buffer content comp none =
    failed (
      wrap_error internal_error "body buffer too small for compression"
        (sentinel request_too_large))
into_buffer content comp (some (pos size)) = compressed_body content (comp size content)
into_buffer content comp (some (negsuc m)) = panics

-- `needed`
abbrev pub needed_size : Request → ℕ
needed_size r =
    let needed = length r.req_body + length r.req_body / 10 + 100 in
    if ltb 0 r.max_body_size && ltb r.max_body_size needed then r.max_body_size else needed

abbrev pub compressing : Request → Option (ℕ → Bytes → Compressed) → Outcome (Bytes × Bool)
compressing r none = done (r.req_body, false)
compressing r (some comp) = into_buffer r.req_body comp (ensure_body_size r (needed_size r))

-- `prepareBody`
unfoldable pub prepare_body : LinkConfig → Request → Outcome (Bytes × Bool)
prepare_body cfg r =
    if ltb cfg.max_req_size (length r.req_body)
    then failed (sentinel request_too_large)
    else if r.is_compressed && nonempty r.req_body
    then compressing r cfg.compress
    else done (r.req_body, false)

-- The blocks of the request before its body, with the errors of the two encoders.
abbrev pub part : Error → Option Bytes → Outcome Bytes
part e none = failed e
part e (some bs) = done bs

abbrev pub encode_error : Error
encode_error = sentinel header_buffer_small

unfoldable pub head_block : LinkConfig → Request → ℕ → Bool → Outcome Bytes
head_block cfg r len compressed = do
  p1 ← part (wrap_error internal_error "encode request part1 failed" encode_error) (
      write_request_part1 cfg.part1_size r cfg.keep_alive_config cfg.destination compressed
        cfg.is_forward_proxy)
  p3 ←
      part (wrap_error internal_error "encode request part3 failed" encode_error)
        (write_request_part3 128 r len cfg.proxy_auth_header)
  done (p1 ++ (r.header_block ++ p3))

abbrev pub write_body : Bytes → Conn → Outcome Conn
write_body [] c = done c
write_body (b ∷ bs) c = wrapped network_error "write body failed" (write (b ∷ bs) c)

-- The branch for `PreEncodedHeaderPrefix`, with its line for the length.
abbrev pub write_pre_encoded : Request → Bytes → Conn → Outcome Conn
write_pre_encoded r content c = wrapped network_error "write pre-encoded request failed" (
    write
      (r.pre_encoded
        ++ ((codes "Content-Length: " ++ (int_bytes (length content) ++ codes "\r\n\r\n"))
            ++ content))
      c)

-- The method `writeRequest`.
unfoldable pub send_request : LinkConfig → Request → Bytes → Bool → Conn → Outcome Conn
send_request cfg r content compressed c =
    if nonempty r.pre_encoded
    then write_pre_encoded r content c
    else (head_block cfg r (length content) compressed >>= λ block.
        wrapped network_error "write request failed" (write block c) >>= write_body content)

-- The method `readResponse`: the reader, and `decompressBody` where it succeeds.
unfoldable pub receive_response : LinkConfig → Bytes → Response → Input → Response × Outcome Input
receive_response cfg method r input = then_decompress cfg.gunzip (
    read_response cfg.fuel cfg.read_buf_size cfg.max_resp_size method cfg.header_read_size
      cfg.body_read_size r input)
