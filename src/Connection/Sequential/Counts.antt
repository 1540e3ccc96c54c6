-- ===== src/Connection/Sequential/Counts.antt =====
-- The count of active requests through `doSequential` of connection.go.
use bursthttp.Base.{
  ltb, leb, Bool-cases, length, Bytes, ℕ, refl, ap, inl, inr, Bool, true, false, Option, none, some,
  List, [], arith, nonempty, ◌==◌, if◌then◌else◌, ◌+◌, ◌-◌, ◌≡◌, ◌∙◌, ◌&&◌, ◌∷◌,
}
use bursthttp.Errors.{Error, network_error}
use bursthttp.Input.{Input, Outcome, done, failed, panics, out_of_fuel}
use bursthttp.Proxy.{Conn, write, wrapped}
use bursthttp.Request.{Request}
use bursthttp.Response.{Response, reset}
use bursthttp.Connection.Link.{
  LinkConfig, Link, is_usable, connect, ensure_connection, close_link, prepare_body, send_request,
  receive_response,
}
use bursthttp.Connection.Sequential.{
  continue_response, after_receive, after_write, after_continue, after_expect, exchange, on_conn,
  with_response, rotated, rotate, unless_cancelled, claim, do_sequential, read_error, on_socket,
  at_input, with_health,
}
use bursthttp.Connection.Sequential.Keeps.{
  KeepsLink, Steady, Keeps-refl, Keeps-trans, succeeded-Keeps, read_broken-Keeps,
  count_request-Keeps, down-Keeps, Steady-if, link_if,
}

unclaimed : (b : Bool) (n : ℕ) → (if b then n else n + 1) - 1 ≡ (if b then n - 1 else n)
unclaimed true n = refl
unclaimed false n = omega arith

after_receive-Steady :
    (cfg : LinkConfig) (now elapsed sent : ℕ) (l : Link) (c : Conn) (r : Response)
    (out : Outcome Input)
    → Steady l (after_receive cfg now elapsed sent l c (r, out))
unfolding after_receive
after_receive-Steady cfg now elapsed sent l c r (done rest) =
    succeeded-Keeps cfg now elapsed sent (on_socket l (at_input c rest)) r
after_receive-Steady cfg now elapsed sent l c r (failed e) =
    let l' : Link = on_socket l (at_input c (cfg.leftover c.incoming)) in
    Steady-if l (ltb 0 r.status_code) _ _ (count_request-Keeps now l')
      (read_broken-Keeps cfg l' (read_error e))
after_receive-Steady cfg now elapsed sent l c r panics = Keeps-refl l.state
after_receive-Steady cfg now elapsed sent l c r out_of_fuel = Keeps-refl l.state

after_write-Steady :
    (cfg : LinkConfig) (now elapsed sent : ℕ) (method : Bytes) (r : Response) (l : Link)
    (w : Outcome Conn)
    → Steady l (after_write cfg now elapsed sent method r l w)
unfolding after_write
after_write-Steady cfg now elapsed sent method r l (done c) =
    let out : Response × Outcome Input = receive_response cfg method r c.incoming in
    after_receive-Steady cfg now elapsed sent l c out.0 out.1
after_write-Steady cfg now elapsed sent method r l (failed e) = down-Keeps false l
after_write-Steady cfg now elapsed sent method r l panics = Keeps-refl l.state
after_write-Steady cfg now elapsed sent method r l out_of_fuel = Keeps-refl l.state

after_continue-Steady :
    (cfg : LinkConfig) (now elapsed : ℕ) (method content : Bytes) (r : Response) (l : Link)
    (c : Conn) (cont : Response) (out : Outcome Input)
    → Steady l (after_continue cfg now elapsed method content r l c (cont, out))
unfolding after_continue
after_continue-Steady cfg now elapsed method content r l c cont (done rest) =
    let l' : Link = on_socket l (at_input c rest) in
    Steady-if l (cont.status_code == 100) _ _
      (after_write-Steady cfg now elapsed (length content) method r l' (
        wrapped network_error "write body after 100-continue failed"
          (write content (at_input c rest))))
      (count_request-Keeps now l')
after_continue-Steady cfg now elapsed method content r l c cont (failed e) = down-Keeps false l
after_continue-Steady cfg now elapsed method content r l c cont panics = Keeps-refl l.state
after_continue-Steady cfg now elapsed method content r l c cont out_of_fuel = Keeps-refl l.state

after_expect-Steady :
    (cfg : LinkConfig) (now elapsed : ℕ) (method content : Bytes) (r : Response) (l : Link)
    (w : Outcome Conn)
    → Steady l (after_expect cfg now elapsed method content r l w)
unfolding after_expect
after_expect-Steady cfg now elapsed method content r l (done c) =
    let out : Response × Outcome Input = receive_response cfg method continue_response c.incoming in
    after_continue-Steady cfg now elapsed method content r l c out.0 out.1
after_expect-Steady cfg now elapsed method content r l (failed e) = down-Keeps false l
after_expect-Steady cfg now elapsed method content r l panics = Keeps-refl l.state
after_expect-Steady cfg now elapsed method content r l out_of_fuel = Keeps-refl l.state

exchange-Steady :
    (cfg : LinkConfig) (now elapsed : ℕ) (req : Request) (b : Bytes × Bool) (r : Response)
    (l : Link) (c : Conn)
    → Steady l (exchange cfg now elapsed req b r l c)
unfolding exchange
exchange-Steady cfg now elapsed req (content, compressed) r l c =
    Steady-if l (req.expect_continue && nonempty content) _ _
      (after_expect-Steady cfg now elapsed req.method content r l
        (send_request cfg req [] compressed c))
      (after_write-Steady cfg now elapsed (length content) req.method r l
        (send_request cfg req content compressed c))

with_response-Steady :
    (cfg : LinkConfig) (now elapsed : ℕ) (req : Request) (r : Option Response) (l : Link) (c : Conn)
    (b : Outcome (Bytes × Bool))
    → Steady l (with_response cfg now elapsed req r l c b)
with_response-Steady cfg now elapsed req r l c (failed e) = Keeps-refl l.state
with_response-Steady cfg now elapsed req none l c (done b) = Keeps-refl l.state
with_response-Steady cfg now elapsed req (some r) l c (done b) =
    exchange-Steady cfg now elapsed req b (reset r) l c
with_response-Steady cfg now elapsed req r l c panics = Keeps-refl l.state
with_response-Steady cfg now elapsed req r l c out_of_fuel = Keeps-refl l.state

on_conn-Steady :
    (cfg : LinkConfig) (now elapsed : ℕ) (req : Request) (r : Option Response) (l : Link)
    (o : Option Conn)
    → Steady l (on_conn cfg now elapsed req r l o)
on_conn-Steady cfg now elapsed req r l none = Keeps-refl l.state
on_conn-Steady cfg now elapsed req r l (some c) =
    with_response-Steady cfg now elapsed req r l c (prepare_body cfg req)

connect-Keeps : (now : ℕ) (l : Link) (ds : List (Option Conn)) → KeepsLink l (connect now l ds).0
connect-Keeps now l [] = down-Keeps false l
connect-Keeps now l (none ∷ ds) = down-Keeps false l
connect-Keeps now l (some s ∷ ds) = down-Keeps true l

ensure-Keeps : (cfg : LinkConfig) (now : ℕ) (l : Link) → KeepsLink l (ensure_connection cfg now l).0
unfolding ensure_connection
ensure-Keeps cfg now l = elim (Bool-cases (is_usable cfg l)) [
  | inl t ↦ rw t (Keeps-refl l.state)
  | inr t ↦ rw t (connect-Keeps now l l.dials)
]

close-Keeps : (l : Link) → KeepsLink l (close_link l)
unfolding close_link
close-Keeps l = link_if l l.closing l _ (Keeps-refl l.state) (down-Keeps false l)

rotate-Keeps : (cfg : LinkConfig) (now : ℕ) (l : Link) → KeepsLink l (rotate cfg now l).0
rotate-Keeps cfg now l =
    elim (Bool-cases
      (ltb 0 cfg.max_requests_per_conn && leb cfg.max_requests_per_conn l.reqs_on_conn)) [
        | inl t ↦ rw t (
            Keeps-trans l.state (close_link l).state _ (close-Keeps l)
              (ensure-Keeps cfg now (close_link l)))
        | inr t ↦ rw t (Keeps-refl l.state)
      ]

rotated-Steady :
    (cfg : LinkConfig) (now elapsed : ℕ) (req : Request) (r : Option Response) (l : Link) (k : Link)
    (ok : Bool)
    → KeepsLink l k
    → Steady l (rotated cfg now elapsed req r (k, ok))
rotated-Steady cfg now elapsed req r l k true h =
    Keeps-trans l.state k.state _ h (on_conn-Steady cfg now elapsed req r k k.socket)
rotated-Steady cfg now elapsed req r l k false h = h

unless_cancelled-Steady :
    (cfg : LinkConfig) (now elapsed : ℕ) (req : Request) (r : Option Response) (e : Option Error)
    (l : Link)
    → Steady l (unless_cancelled cfg now elapsed req r e l)
unless_cancelled-Steady cfg now elapsed req r (some e) l = Keeps-refl l.state
unless_cancelled-Steady cfg now elapsed req r none l =
    let k : Link × Bool = rotate cfg now l in
    rotated-Steady cfg now elapsed req r l k.0 k.1 (rotate-Keeps cfg now l)

-- Whatever doSequential meets, a cancelled context, a failed reconnection, an error of the
-- write, of the read or of the body, or a panic, it leaves no mark of the pool and the number of
-- active requests that was there before, less the one that the pool had counted in advance where
-- there was a mark.
pub do_sequential-balanced :
    (cfg : LinkConfig) (now elapsed : ℕ) (req : Request) (r : Option Response)
    (cancelled : Option Error) (l : Link)
    → ((do_sequential cfg now elapsed req r cancelled l).1.state.active_reqs
        ≡ (if l.state.pool_claimed then l.state.active_reqs - 1 else l.state.active_reqs))
      × ((do_sequential cfg now elapsed req r cancelled l).1.state.pool_claimed ≡ false)
unfolding do_sequential
do_sequential-balanced cfg now elapsed req r cancelled l =
    let k =
      unless_cancelled-Steady cfg now elapsed req r cancelled (with_health l (claim l.state)) in
    (ap (λ n. n - 1) k.active ∙ unclaimed l.state.pool_claimed l.state.active_reqs, k.same_claim)
