-- ===== src/Connection/Pipeline/Fifo.antt =====
-- Pipelined requests get their own responses: the reader and the queue stay in step.
use bursthttp.Base.{
  Bool-cases, length, Bytes, ℕ, zero, suc, refl, sym, ap, inl, inr, true, false, Option, some, List,
  [], append_assoc, append-nil, arith, if◌then◌else◌, ◌+◌, ◌-◌, ◌≤◌, ◌<◌, ◌≡◌, ◌∙◌, ◌∷◌, ◌++◌,
}
use bursthttp.Input.{Input, Outcome, done}
use bursthttp.Input.Flat.{flat}
use bursthttp.Response.{Response, reset, body}
use bursthttp.Response.Lookup.{is_connection_close}
use bursthttp.Parser.HeaderEnd.{find_header_end}
use bursthttp.Parser.HeaderEnd.First.{find_header_end-append}
use bursthttp.Parser.StatusCode.{parse_status_code}
use bursthttp.Parser.Headers.{parse_headers}
use bursthttp.Parser.Buffered.{read_response_buffered, is_bodiless}
use bursthttp.Parser.Buffered.Framing.{Framed, HasLength, read_response_buffered-Framed}
use bursthttp.Connection.Pipeline.{
  Pending, Sent, response_to, Pipe, remove_pending, send, deliver, after_response, Reader, answer,
  run,
}

-- A response on the wire: its status, its head with the blank line, and its body.
pub record Wire : Type 0 where
  pub status : ℕ
  pub head : Bytes
  pub payload : Bytes

abbrev pub wires : List Wire → Bytes → Bytes
wires [] rest = rest
wires (w ∷ ws) rest = w.head ++ (w.payload ++ wires ws rest)

-- A response with a length that the reader takes, and that keeps the connection open.
pub record IsWire (rr : Reader) (w : Wire) : Type 0 where
  pub found : find_header_end w.head ≡ some (length w.head)
  pub fits : length w.head ≤ rr.scratch
  pub status_ok : parse_status_code w.head ≡ (w.status, true)
  pub sized : HasLength w.head w.payload []
  pub within : 0 < rr.max_resp_size → length w.payload ≤ rr.max_resp_size
  pub keeps : is_connection_close (parse_headers w.head []) ≡ false

-- A request that waits for a response with a body.
pub record Waits (p : Pending) (w : Wire) : Type 0 where
  pub resp : Response
  pub has_resp : p.resp ≡ some resp
  pub with_body : is_bodiless p.method w.status ≡ false

abbrev pub Match : Reader → List Pending → List Wire → Type 0
Match rr [] [] = Unit
Match rr (p ∷ ps) (w ∷ ws) = IsWire rr w × Waits p w × Match rr ps ws
Match rr _ _ = ⊥

-- The first thing sent is the response `w` to the request `p`.
abbrev pub First : Pending → Wire → (List Sent → Type 0) → List Sent → Type 0
First p w others (response_to t r ∷ sent) =
    (t ≡ p.ticket) × (r.status_code ≡ w.status) × (body r ≡ w.payload) × others sent
First p w others _ = ⊥

-- What is sent: to each request that was not cancelled, in order, its own response.
abbrev pub Answered : List Pending → List Wire → List Sent → Type 0
Answered [] [] sent = sent ≡ []
Answered (p ∷ ps) (w ∷ ws) sent = elim p.cancelled [
  | true ↦ Answered ps ws sent
  | false ↦ First p w (Answered ps ws) sent
]
Answered _ _ _ = ⊥

-- One response is read for the request that waits for it.
read_wire :
    (rr : Reader) (w : Wire) (method : Bytes) (r : Response) (rest : Bytes) (i : Input)
    → IsWire rr w
    → is_bodiless method w.status ≡ false
    → flat i ≡ w.head ++ (w.payload ++ rest)
    → Framed w.status
        (parse_headers w.head [])
        w.payload
        rest
        i
        (read_response_buffered rr.gunzip rr.fuel rr.scratch rr.max_resp_size method (reset r) i)
unfolding reset
read_wire rr w method r rest i k b f =
    read_response_buffered-Framed rr.gunzip rr.fuel rr.scratch rr.max_resp_size w.status method
      w.head w.payload rest (reset r) i
      (record {
        flat_is = f;
        found = rw f (find_header_end-append w.head (w.payload ++ rest) (length w.head) k.found);
        fits = k.fits;
        status_ok = k.status_ok;
      })
      b k.sized k.within (λ h. absurd (omega arith))

after_response_done :
    (leftover i : Input) (p : Pending) (s : Pipe) (out : Response × Outcome Input)
    → out.1 ≡ done i
    → is_connection_close out.0.headers ≡ false
    → after_response leftover p s out
      ≡ some (
        send p
            (response_to p.ticket out.0)
            (record s { input = i; reqs_on_conn = s.reqs_on_conn + 1 }),
        false,
      )
unfolding after_response deliver
after_response_done leftover i p s (r, o) e c = rw (e, c) refl

-- What a round adds to the log.
abbrev news : Pending → Sent → List Sent
news p m = if p.cancelled then [] else m ∷ []

send_keeps :
    (p : Pending) (m : Sent) (s : Pipe)
    → ((send p m s).closing ≡ s.closing)
      × ((send p m s).pending ≡ s.pending)
      × ((send p m s).input ≡ s.input)
      × ((send p m s).sent ≡ s.sent ++ news p m)
send_keeps p m s = elim (Bool-cases p.cancelled) [
  | inl c ↦ rw c (refl, refl, refl, sym (append-nil s.sent))
  | inr c ↦ rw c (refl, refl, refl, refl)
]

remove_pending_head : (p : Pending) (ps : List Pending) → remove_pending p.ticket (p ∷ ps) ≡ ps
unfolding remove_pending
remove_pending_head p ps = ground arith

record Answer (rr : Reader) (p : Pending) (ps : List Pending) (w : Wire) (rest : Bytes) (s : Pipe)
    : Type 0 where
  next : Pipe
  response : Response
  answered : answer rr p s ≡ some (next, false)
  closing_kept : next.closing ≡ s.closing
  pending_is : next.pending ≡ ps
  sent_is : next.sent ≡ s.sent ++ news p (response_to p.ticket response)
  unread : flat next.input ≡ rest
  status_is : response.status_code ≡ w.status
  body_is : body response ≡ w.payload

answer-Answer :
    (rr : Reader) (p : Pending) (ps : List Pending) (w : Wire) (rest : Bytes) (s : Pipe)
    → IsWire rr w
    → Waits p w
    → s.pending ≡ p ∷ ps
    → flat s.input ≡ w.head ++ (w.payload ++ rest)
    → Answer rr p ps w rest s
unfolding answer
answer-Answer rr p ps w rest s k t e f =
    let framed = read_wire rr w p.method t.resp rest s.input k t.with_body f in
    let out =
      read_response_buffered rr.gunzip rr.fuel rr.scratch rr.max_resp_size p.method (reset t.resp)
        s.input in
    let taken : Pipe = record s {
      active_reqs = s.active_reqs - 1;
      pending = remove_pending p.ticket s.pending;
    } in
    let read : Pipe = record taken { input = framed.input; reqs_on_conn = s.reqs_on_conn + 1 } in
    let (c, q, i, m) = send_keeps p (response_to p.ticket out.0) read in
    record {
      next = send p (response_to p.ticket out.0) read;
      response = out.0;
      answered =
          rw (t.has_resp, answer)
            (after_response_done (rr.leftover s.input) framed.input p taken out framed.ended
              (ap is_connection_close framed.headers_are ∙ k.keeps));
      closing_kept = c;
      pending_is = q ∙ ap (remove_pending p.ticket) e ∙ remove_pending_head p ps;
      sent_is = m;
      unread = ap flat i ∙ framed.unread;
      status_is = framed.status_is;
      body_is = framed.body_is;
    }

-- The queue is answered, and what follows the responses is unread.
pub record Served (ps : List Pending) (ws : List Wire) (rest : Bytes) (s : Pipe) (o : Option Pipe)
    : Type 0 where
  pub pipe : Pipe
  pub ended : o ≡ some pipe
  pub pending_is : pipe.pending ≡ []
  pub closing_kept : pipe.closing ≡ false
  pub unread : flat pipe.input ≡ rest
  pub added : List Sent
  pub sent_is : pipe.sent ≡ s.sent ++ added
  pub answered : Answered ps ws added

Answered-news :
    (p : Pending) (ps : List Pending) (w : Wire) (ws : List Wire) (r : Response) (sent : List Sent)
    → r.status_code ≡ w.status
    → body r ≡ w.payload
    → Answered ps ws sent
    → Answered (p ∷ ps) (w ∷ ws) (news p (response_to p.ticket r) ++ sent)
Answered-news p ps w ws r sent a b h = elim (Bool-cases p.cancelled) [
  | inl c ↦ rw (c, c) h
  | inr c ↦ rw (c, c) (refl, a, b, h)
]

-- Where the input begins with one response for each pending request, in order, each with a
-- length, within the limits and at most 2 ^ 62 - 2 ^ 16, not chunked, not gzip and without
-- Connection: close, the reader empties the queue within one round more than there are requests:
-- every request that was not cancelled is sent its own response, in order, a cancelled one is
-- skipped with its response, nothing else is sent, and exactly the bytes behind the responses
-- are unread.
pub run-Served :
    (rr : Reader) (ps : List Pending) (ws : List Wire) (rounds : ℕ) (rest : Bytes) (s : Pipe)
    → Match rr ps ws
    → s.pending ≡ ps
    → s.closing ≡ false
    → flat s.input ≡ wires ws rest
    → length ps < rounds
    → Served ps ws rest s (run rr rounds s)
unfolding run answer
run-Served rr ps ws zero rest s m q c f l = absurd (omega arith)
run-Served rr [] [] (suc n) rest s m q c f l =
    rw (q, run)
      (record {
        pipe = s;
        ended = refl;
        pending_is = q;
        closing_kept = c;
        unread = f;
        added = [];
        sent_is = sym (append-nil s.sent);
        answered = refl;
      })
run-Served rr (p ∷ ps) (w ∷ ws) (suc n) rest s (k, t, m) q c f l =
    let a = answer-Answer rr p ps w (wires ws rest) s k t q f in
    let later =
      run-Served rr ps ws n rest a.next m a.pending_is (a.closing_kept ∙ c) a.unread
        (omega arith) in
    rw (q, c, a.answered, run)
      (record {
        pipe = later.pipe;
        ended = later.ended;
        pending_is = later.pending_is;
        closing_kept = later.closing_kept;
        unread = later.unread;
        added = news p (response_to p.ticket a.response) ++ later.added;
        sent_is =
            later.sent_is
            ∙ ap (λ t. t ++ later.added) a.sent_is
            ∙ append_assoc s.sent (news p (response_to p.ticket a.response)) later.added;
        answered =
            Answered-news p ps w ws a.response later.added a.status_is a.body_is later.answered;
      })
run-Served rr [] (w ∷ ws) (suc n) rest s m q c f l = elim m [ ]
run-Served rr (p ∷ ps) [] (suc n) rest s m q c f l = elim m [ ]
