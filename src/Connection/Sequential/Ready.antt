-- ===== src/Connection/Sequential/Ready.antt =====
-- `doSequential` of connection.go on a connection that is up: the request that goes out, and what the
-- steps behind the response keep.
use bursthttp.Base.{
  ltb, leb, Bool-cases, length, Bytes, ℕ, refl, sym, ap, inl, inr, Bool, true, false, not, none,
  some, [], append_assoc, append-nil, nonempty, ◌==◌, if◌then◌else◌, ◌+◌, ◌/◌, ◌%◌, ◌^◌, ◌≡◌, ◌∙◌,
  ◌&&◌, ◌∷◌, ◌++◌,
}
use bursthttp.Errors.{Error}
use bursthttp.Input.{Input, Outcome, done, failed}
use bursthttp.Proxy.{Conn, write, wrapped}
use bursthttp.Request.{Request}
use bursthttp.Response.{Response, reset}
use bursthttp.Parser.Gzip.{Gunzip, is_gzip}
use bursthttp.Parser.Buffered.{then_decompress}
use bursthttp.Parser.Buffered.Framing.{then_decompress_plain}
use bursthttp.Connection.{
  Connection, HealthConfig, record_success, advance_health_window, tune_pipeline_depth,
  health_window_size, smooth,
}
use bursthttp.Connection.Link.{
  LinkConfig, Link, update_time_cache, prepare_body, head_block, send_request, receive_response,
  write_body,
}
use bursthttp.Connection.Sequential.{
  Result, after_receive, after_write, exchange, claim, unclaim, do_sequential, with_health,
}

-- A connection that is up, and a request that goes out whole and does not wait for a 100.
pub record Ready (cfg : LinkConfig) (req : Request) (content block : Bytes) (l : Link) (c : Conn)
    : Type 0 where
  pub compressed : Bool
  pub no_rotation :
      (ltb 0 cfg.max_requests_per_conn && leb cfg.max_requests_per_conn l.reqs_on_conn) ≡ false
  pub socket_is : l.socket ≡ some c
  pub writes : c.write_errors ≡ []
  pub prepared : prepare_body cfg req ≡ done (content, compressed)
  pub no_wait : (req.expect_continue && nonempty content) ≡ false
  pub no_prefix : nonempty req.pre_encoded ≡ false
  pub encoded : head_block cfg req (length content) compressed ≡ done block

-- The socket with more bytes sent.
abbrev pub sent_on : Conn → Bytes → Conn
sent_on c bs = record c { sent = c.sent ++ bs; write_errors = [] }

write-sent : (bs : Bytes) (c : Conn) → c.write_errors ≡ [] → write bs c ≡ done (sent_on c bs)
unfolding write
write-sent bs c h = rw h refl

write_body-sent :
    (content : Bytes) (c : Conn)
    → c.write_errors ≡ []
    → write_body content c ≡ done (sent_on c content)
unfolding wrapped
write_body-sent [] c h =
    ap (λ es. done (record c { write_errors = es })) h
    ∙ ap (λ t. done (record c { sent = t; write_errors = [] })) (sym (append-nil c.sent))
write_body-sent (b ∷ bs) c h = ap (wrapped _ _) (write-sent (b ∷ bs) c h)

send_request-sent :
    (cfg : LinkConfig) (req : Request) (content block : Bytes) (compressed : Bool) (c : Conn)
    → c.write_errors ≡ []
    → nonempty req.pre_encoded ≡ false
    → head_block cfg req (length content) compressed ≡ done block
    → send_request cfg req content compressed c ≡ done (sent_on c (block ++ content))
unfolding send_request wrapped
send_request-sent cfg req content block compressed c h p e =
    rw
      (
        p,
        e,
        write-sent block c h,
        write_body-sent content (sent_on c block) refl,
        append_assoc c.sent block content,
      )
      refl

-- The response goes into a reset one, and is read from what the socket delivers.
abbrev pub received : LinkConfig → Request → Response → Conn → Response × Outcome Input
received cfg req r c = receive_response cfg req.method (reset r) c.incoming

abbrev pub claimed_link : Link → Link
claimed_link l = with_health l (claim l.state)

abbrev pub released : Result → Result
released (out, l) = (out, with_health l (unclaim l.state))

pub do_sequential-Ready :
    (cfg : LinkConfig) (now elapsed : ℕ) (req : Request) (r : Response) (content block : Bytes)
    (l : Link) (c : Conn)
    → Ready cfg req content block l c
    → do_sequential cfg now elapsed req (some r) none l
      ≡ released (
          after_receive cfg now elapsed
            (length content)
            (claimed_link l)
            (sent_on c (block ++ content))
            (received cfg req r c))
unfolding do_sequential exchange after_write
do_sequential-Ready cfg now elapsed req r content block l c h =
    rw
      (
        h.no_rotation,
        h.socket_is,
        h.prepared,
        h.no_wait,
        send_request-sent cfg req content block h.compressed c h.writes h.no_prefix h.encoded,
      )
      refl

pub then_decompress-failed :
    (gunzip : Bytes → Gunzip) (r : Response) (out : Outcome Input) (e : Error)
    → out ≡ failed e
    → then_decompress gunzip (r, out) ≡ (r, failed e)
unfolding then_decompress
then_decompress-failed gunzip r out e h = rw h refl

pub then_decompress-done :
    (gunzip : Bytes → Gunzip) (r : Response) (out : Outcome Input) (i : Input)
    → out ≡ done i
    → is_gzip r.headers ≡ false
    → then_decompress gunzip (r, out) ≡ (r, done i)
then_decompress-done gunzip r out i h g =
    ap (λ o. then_decompress gunzip (r, o)) h ∙ then_decompress_plain gunzip r i g

-- What the recording of a success and of the clock leaves as it was.
healthy_if :
    (b : Bool) (h k m : Connection)
    → k.healthy ≡ h.healthy
    → m.healthy ≡ h.healthy
    → (if b then k else m).healthy ≡ h.healthy
healthy_if true h k m e f = e
healthy_if false h k m e f = f

advance-healthy : (h : Connection) → (advance_health_window h).healthy ≡ h.healthy
unfolding advance_health_window
advance-healthy h = healthy_if (ltb (h.total_window + 1) health_window_size) h _ _ refl refl

tune-healthy :
    (cfg : HealthConfig) (ewma : ℕ) (h : Connection)
    → (tune_pipeline_depth cfg ewma h).healthy ≡ h.healthy
unfolding tune_pipeline_depth
tune-healthy cfg ewma h =
    healthy_if (ltb (ewma / 1000000) 10) h _ _ refl
      (healthy_if (ltb 100 (ewma / 1000000)) h _ _ refl refl)

pub record_success-healthy :
    (cfg : HealthConfig) (ns : ℕ) (h : Connection) → (record_success cfg ns h).healthy ≡ h.healthy
unfolding record_success
record_success-healthy cfg ns h =
    let ewma : ℕ = if h.latency_ewma == 0 then ns else smooth h.latency_ewma ns in
    let timed : Connection = record h { latency_ewma = ewma } in
    let a : (advance_health_window timed).healthy ≡ h.healthy = advance-healthy timed in
    healthy_if (not cfg.enable_health_scoring) h h _ refl (
      healthy_if (cfg.enable_pipeline_auto_tune && cfg.enable_pipelining) h _ _
        (tune-healthy cfg ewma (advance_health_window timed) ∙ a) a)

pub update_time_cache-kept :
    (now : ℕ) (l : Link)
    → ((update_time_cache now l).state ≡ l.state)
      × ((update_time_cache now l).socket ≡ l.socket)
      × ((update_time_cache now l).reqs_on_conn ≡ l.reqs_on_conn)
unfolding update_time_cache
update_time_cache-kept now l = elim (Bool-cases ((l.time_counter + 1) % 2 ^ 32 % 128 == 0)) [
  | inl t ↦ (rw t refl, rw t refl, rw t refl)
  | inr t ↦ (rw t refl, rw t refl, rw t refl)
]
