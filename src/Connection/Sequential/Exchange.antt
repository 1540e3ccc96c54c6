-- ===== src/Connection/Sequential/Exchange.antt =====
-- What `doSequential` of connection.go does with a connection that is up.
use bursthttp.Base.{
  lt→ltb, Bool-cases, length, Bytes, ℕ, refl, sym, ap, inl, inr, false, none, some, List, [], arith,
  if◌then◌else◌, ◌+◌, ◌^◌, ◌≤◌, ◌<◌, ◌≡◌, ◌∙◌, ◌++◌,
}
use mathlib.Core.Path.{subst}
use bursthttp.Errors.{Error}
use bursthttp.Input.{Input, Outcome, done, failed}
use bursthttp.Input.Flat.{flat, ending}
use bursthttp.Proxy.{Conn}
use bursthttp.Request.{Request}
use bursthttp.Response.{Response, reset, body}
use bursthttp.Response.Lookup.{is_connection_close, Header}
use bursthttp.Parser.HeaderEnd.{find_header_end}
use bursthttp.Parser.Headers.{parse_headers}
use bursthttp.Parser.Gzip.{is_gzip}
use bursthttp.Parser.Buffered.{then_decompress}
use bursthttp.Parser.Direct.{read_response}
use bursthttp.Parser.Direct.Head.{NoEmpty}
use bursthttp.Parser.Direct.Body.{Read}
use bursthttp.Parser.Direct.Whole.{Announces, read_response-Read, read_response-cut}
use bursthttp.Connection.{Connection, record_success}
use bursthttp.Connection.Link.{LinkConfig, Link, update_time_cache, receive_response}
use bursthttp.Connection.Sequential.{
  Result, succeeded, after_receive, do_sequential, on_socket, at_input,
}
use bursthttp.Connection.Sequential.Ready.{
  Ready, sent_on, claimed_link, released, do_sequential-Ready, then_decompress-failed,
  then_decompress-done, record_success-healthy, update_time_cache-kept,
}

-- A response that is read: what the caller gets, and what becomes of the connection.
pub record Exchanged (status : ℕ) (hs : List Header) (payload wire : Bytes) (l : Link) (c : Conn)
    (out : Result) : Type 0 where
  pub response : Response
  pub socket : Conn
  pub gives : out.0 ≡ done response
  pub status_is : response.status_code ≡ status
  pub headers_are : response.headers ≡ hs
  pub body_is : body response ≡ payload
  pub socket_is : out.1.socket ≡ some socket
  pub sent_is : socket.sent ≡ c.sent ++ wire
  pub unread : flat socket.incoming ≡ []
  pub reqs_is : out.1.reqs_on_conn ≡ l.reqs_on_conn + 1
  pub healthy_is : out.1.state.healthy ≡ (if is_connection_close hs then false else l.state.healthy)

-- What stands behind a response that was read.
succeeded-kept :
    (cfg : LinkConfig) (now elapsed sent : ℕ) (l : Link) (r : Response)
    → ((succeeded cfg now elapsed sent l r).socket ≡ l.socket)
      × ((succeeded cfg now elapsed sent l r).reqs_on_conn ≡ l.reqs_on_conn + 1)
      × ((succeeded cfg now elapsed sent l r).state.healthy
          ≡ (if is_connection_close r.headers then false else l.state.healthy))
succeeded-kept cfg now elapsed sent l r =
    let bumped : Link = record l { reqs_on_conn = l.reqs_on_conn + 1 } in
    let (h, s, n) = update_time_cache-kept now bumped in
    let up : (record_success cfg.health_config elapsed (update_time_cache now bumped).state).healthy
        ≡ l.state.healthy =
      record_success-healthy cfg.health_config elapsed (update_time_cache now bumped).state
      ∙ ap (λ (k : Connection). k.healthy) h in
    elim (Bool-cases (is_connection_close r.headers)) [
      | inl t ↦ (rw t s, rw t n, rw t refl)
      | inr t ↦ (rw t s, rw t n, rw t up)
    ]

received-Read :
    (cfg : LinkConfig) (req : Request) (status : ℕ) (hs : List Header) (payload : Bytes)
    (r : Response) (i : Input) (out : Response × Outcome Input)
    → Read status hs payload i out
    → is_gzip hs ≡ false
    → (left : Input) × (then_decompress cfg.gunzip out ≡ (out.0, done left)) × (flat left ≡ [])
received-Read cfg req status hs payload r i (r', o) d g = (
  d.input,
  then_decompress-done cfg.gunzip r' o d.input d.ended (ap is_gzip d.headers_are ∙ g),
  d.unread,
)

released-Exchanged :
    (cfg : LinkConfig) (now elapsed sent status : ℕ) (hs : List Header) (payload wire : Bytes)
    (l : Link) (c : Conn) (r : Response) (left : Input)
    → r.status_code ≡ status
    → r.headers ≡ hs
    → body r ≡ payload
    → flat left ≡ []
    → Exchanged status hs payload wire l c (
        released
          (after_receive cfg now elapsed sent (claimed_link l) (sent_on c wire) (r, done left)))
unfolding after_receive
released-Exchanged cfg now elapsed sent status hs payload wire l c r left st h b u =
    let (s, n, up) =
      succeeded-kept cfg now elapsed sent
        (on_socket (claimed_link l) (at_input (sent_on c wire) left)) r in
    record {
      response = r;
      socket = at_input (sent_on c wire) left;
      gives = refl;
      status_is = st;
      headers_are = h;
      body_is = b;
      socket_is = s;
      sent_is = refl;
      unread = u;
      reqs_is = n;
      healthy_is = up ∙ ap (λ x. if is_connection_close x then false else l.state.healthy) h;
    }

-- On a connection that is up, below its limit of requests, for a request that is encoded, does
-- not wait for a 100 and whose writes succeed: where the socket delivers, in any segments that
-- are not empty, a head that ends first where it should and announces the length of what
-- follows, within the limits and at most 2 ^ 62 - 2 ^ 16, with a body allowed, not chunked and
-- not gzip, doSequential gives that status, those fields and that body, has sent exactly the
-- head block and the body of the request, leaves nothing unread, counts one request more, and
-- leaves the connection healthy exactly if it was and the response does not say Connection:
-- close.
pub do_sequential-Exchanged :
    (cfg : LinkConfig) (now elapsed status : ℕ) (req : Request) (r : Response)
    (content block head payload : Bytes) (l : Link) (c : Conn)
    → Ready cfg req content block l c
    → flat c.incoming ≡ head ++ payload
    → NoEmpty c.incoming
    → 0 < cfg.header_read_size
    → find_header_end (head ++ payload) ≡ some (length head)
    → length head ≤ cfg.read_buf_size
    → Announces req.method head (length payload) status
    → is_gzip (parse_headers head []) ≡ false
    → length payload ≤ cfg.max_resp_size
    → cfg.max_resp_size < 2 ^ 63
    → Exchanged status
        (parse_headers head [])
        payload
        (block ++ content)
        l
        c
        (do_sequential cfg now elapsed req (some r) none l)
unfolding receive_response reset
do_sequential-Exchanged cfg now elapsed status req r content block head payload l c h f ne p e b a g
      m mm =
    let d =
      read_response-Read cfg.fuel cfg.read_buf_size cfg.max_resp_size cfg.header_read_size
        cfg.body_read_size status req.method head payload (reset r) c.incoming f ne p e b a m mm
        (λ x. absurd (omega arith)) in
    let (left, q, u) =
      received-Read cfg req status (parse_headers head []) payload (reset r) c.incoming _ d g in
    let got : Response =
      (read_response cfg.fuel cfg.read_buf_size cfg.max_resp_size req.method cfg.header_read_size
        cfg.body_read_size (reset r) c.incoming).0 in
    subst (Exchanged status (parse_headers head []) payload (block ++ content) l c)
      (sym (do_sequential-Ready cfg now elapsed req r content block l c h))
      (subst
        (λ o. Exchanged status (parse_headers head []) payload (block ++ content) l c (
          released (
            after_receive cfg now elapsed (length content) (claimed_link l)
              (sent_on c (block ++ content)) o)))
        (sym q)
        (released-Exchanged cfg now elapsed (length content) status (parse_headers head []) payload
          (block ++ content) l c got left d.status_is d.headers_are d.body_is u))

-- What the caller gets of a response that is cut off.
pub record Kept (status : ℕ) (l : Link) (out : Result) : Type 0 where
  pub response : Response
  pub gives : out.0 ≡ done response
  pub status_is : response.status_code ≡ status
  pub healthy_is : out.1.state.healthy ≡ l.state.healthy

released-Kept :
    (cfg : LinkConfig) (now elapsed sent status : ℕ) (l : Link) (c : Conn) (r : Response)
    (e : Error)
    → r.status_code ≡ status
    → 0 < status
    → Kept status l (released (after_receive cfg now elapsed sent (claimed_link l) c (r, failed e)))
unfolding after_receive
released-Kept cfg now elapsed sent status l c r e st p =
    let l' : Link = on_socket (claimed_link l) (at_input c (cfg.leftover c.incoming)) in
    let bumped : Link = record l' { reqs_on_conn = l'.reqs_on_conn + 1 } in
    let (h, s, n) = update_time_cache-kept now bumped in
    rw (lt→ltb 0 r.status_code (omega (arith, st, p))) (record {
      response = r;
      gives = refl;
      status_is = st;
      healthy_is = ap (λ (k : Connection). k.healthy) h;
    })

-- On a connection that is up, below its limit of requests, for a request that is encoded, does
-- not wait for a 100 and whose writes succeed: a response with an announced length within the
-- limits and at most 2 ^ 62 - 2 ^ 16, with a body allowed and not chunked, whose connection ends
-- before that length, is given to the caller without an error, with its status, and the
-- connection stays as healthy as it was.
pub do_sequential-cut :
    (cfg : LinkConfig) (now elapsed status n : ℕ) (req : Request) (r : Response)
    (content block head cut_body : Bytes) (l : Link) (c : Conn)
    → Ready cfg req content block l c
    → flat c.incoming ≡ head ++ cut_body
    → NoEmpty c.incoming
    → 0 < cfg.header_read_size
    → find_header_end (head ++ cut_body) ≡ some (length head)
    → length head ≤ cfg.read_buf_size
    → Announces req.method head n status
    → 0 < status
    → length cut_body < n
    → n ≤ cfg.max_resp_size
    → cfg.max_resp_size < 2 ^ 63
    → Kept status l (do_sequential cfg now elapsed req (some r) none l)
unfolding receive_response reset
do_sequential-cut cfg now elapsed status n req r content block head cut_body l c h f ne p e b a z lt
      m mm =
    let out : Response × Outcome Input =
      read_response cfg.fuel cfg.read_buf_size cfg.max_resp_size req.method cfg.header_read_size
        cfg.body_read_size (reset r) c.incoming in
    let (d, st) =
      read_response-cut cfg.fuel cfg.read_buf_size cfg.max_resp_size cfg.header_read_size
        cfg.body_read_size status n req.method head cut_body (reset r) c.incoming f ne p e b a lt m
        mm (λ x. absurd (omega arith)) in
    subst (Kept status l) (sym (do_sequential-Ready cfg now elapsed req r content block l c h)) (
      subst
        (λ o. Kept status l (
          released (
            after_receive cfg now elapsed (length content) (claimed_link l)
              (sent_on c (block ++ content)) o)))
        (sym (then_decompress-failed cfg.gunzip out.0 out.1 (ending c.incoming) d))
        (released-Kept cfg now elapsed (length content) status l (sent_on c (block ++ content))
          out.0 (ending c.incoming) st z))
