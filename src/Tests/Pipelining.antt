-- ===== src/Tests/Pipelining.antt =====
-- Two pipelined requests, of which the first is cancelled, and their two responses.
use bursthttp.Base.{
  length, codes, ℕ, refl, Bool, true, false, some, List, [], arith, skip_blanks, trim, ◌≡◌, ◌∷◌,
  ◌++◌,
}
use bursthttp.Errors.{eof}
use bursthttp.Input.{chunk, stop}
use bursthttp.Response.Lookup.{is_connection_close, equal_fold}
use bursthttp.Parser.HeaderEnd.{header_end_from, find_header_end}
use bursthttp.Parser.Headers.{
  parse_headers, split_line, header_lines, header_of, field_of, split_colon,
}
use bursthttp.Connection.Pipeline.{Pending, Pipe, Reader, run, enqueue}
use bursthttp.Connection.Pipeline.Fifo.{Wire, IsWire, Waits, Served, run-Served}
use bursthttp.Tests.Bodies.{
  no_gzip, empty_response, abc_head, abc_status, abc_not_bodiless, abc_HasLength,
}

abbrev reader : Reader
reader = record {
  gunzip = no_gzip;
  fuel = 10;
  scratch = 4096;
  max_resp_size = 1000;
  leftover = λ i. i;
}

abbrev abc_wire : Wire
abc_wire = record { status = 200; head = abc_head; payload = codes "abc" }

abc_head_found : find_header_end abc_head ≡ some (length abc_head)
unfolding find_header_end header_end_from
abc_head_found = refl

abc_keeps : is_connection_close (parse_headers abc_head []) ≡ false
unfolding is_connection_close parse_headers split_line header_lines header_of field_of split_colon
    trim skip_blanks equal_fold
abc_keeps = refl

abc_wire-IsWire : IsWire reader abc_wire
abc_wire-IsWire = record {
  found = abc_head_found;
  fits = omega arith;
  status_ok = abc_status;
  sized = abc_HasLength;
  within = λ h. omega arith;
  keeps = abc_keeps;
}

abbrev waiting : ℕ → Bool → Pending
waiting ticket cancelled = record {
  ticket = ticket;
  resp = some (empty_response 2 0);
  cancelled = cancelled;
  method = codes "GET";
}

waiting-Waits : (ticket : ℕ) (cancelled : Bool) → Waits (waiting ticket cancelled) abc_wire
waiting-Waits ticket cancelled = record {
  resp = empty_response 2 0;
  has_resp = refl;
  with_body = abc_not_bodiless;
}

abbrev two_waiting : List Pending
two_waiting = waiting 1 true ∷ waiting 2 false ∷ []

abbrev two_in_flight : Pipe
two_in_flight = record {
  closing = false;
  pending = two_waiting;
  active_reqs = 2;
  reqs_on_conn = 0;
  input = chunk (abc_head ++ codes "abc") (chunk (abc_head ++ codes "abcHTTP") (stop eof));
  sent = [];
}

enqueue_run :
    enqueue
      (waiting 2 false)
      (record two_in_flight { pending = waiting 1 true ∷ []; active_reqs = 1 })
    ≡ some two_in_flight
unfolding enqueue
enqueue_run = refl

run-Served_example :
    Served two_waiting
      (abc_wire ∷ abc_wire ∷ [])
      (codes "HTTP")
      two_in_flight
      (run reader 3 two_in_flight)
run-Served_example =
    run-Served reader two_waiting (abc_wire ∷ abc_wire ∷ []) 3 (codes "HTTP") two_in_flight
      (abc_wire-IsWire, waiting-Waits 1 true, (abc_wire-IsWire, waiting-Waits 2 false, tt)) refl
      refl refl (omega arith)
