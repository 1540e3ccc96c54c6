-- ===== src/Tests/Linking.antt =====
-- One request on a connection without pipelining: answered, cut off, and waiting for a 100.
use bursthttp.Base.{
  length, Bytes, codes, eq_bytes, refl, true, false, none, some, [], arith, match_fold, skip_blanks,
  trim, if◌then◌else◌, ◌-◌, ◌≡◌, ◌++◌,
}
use bursthttp.Errors.{eof}
use bursthttp.Input.{Input, chunk, stop, done}
use bursthttp.Proxy.{Conn}
use bursthttp.Request.{Request, effective_path}
use bursthttp.Response.Lookup.{equal_fold}
use bursthttp.Parser.HeaderEnd.{header_end_from, find_header_end}
use bursthttp.Parser.ContentLength.{parse_content_length, length_value}
use bursthttp.Parser.TransferEncoding.{transfer_from, parse_transfer_encoding}
use bursthttp.Parser.Headers.{
  parse_headers, split_line, header_lines, header_of, field_of, split_colon,
}
use bursthttp.Parser.Gzip.{is_gzip}
use bursthttp.Parser.Direct.{read_response}
use bursthttp.Parser.Direct.Body.{Read}
use bursthttp.Parser.Direct.Whole.{Announces, read_response-Read}
use bursthttp.Writer.{
  write_bytes, write_int, int_bytes, digits_onto, write_port, write_request_part1,
  write_request_part3, write_content_length,
}
use bursthttp.Connection.{new_connection}
use bursthttp.Connection.Link.{LinkConfig, Link, prepare_body, head_block}
use bursthttp.Connection.Sequential.{do_sequential}
use bursthttp.Connection.Sequential.Counts.{do_sequential-balanced}
use bursthttp.Connection.Sequential.Ready.{Ready}
use bursthttp.Connection.Sequential.Exchange.{
  Exchanged, Kept, do_sequential-Exchanged, do_sequential-cut,
}
use bursthttp.Tests.Bodies.{no_gzip, empty_response, abc_head, abc_status}
use bursthttp.Tests.Sending.{small_request, always, local_port}
use bursthttp.Tests.Retrying.{scoring}

abbrev post_body : Request
post_body = record small_request { req_body = codes "hey" }

abbrev link_config : LinkConfig
link_config = record {
  health_config = scoring;
  keep_alive_config = always;
  destination = local_port;
  is_forward_proxy = false;
  proxy_auth_header = [];
  max_requests_per_conn = 0;
  idle_timeout = 0;
  part1_size = 512;
  read_buf_size = 4096;
  header_read_size = 20;
  body_read_size = 0;
  max_resp_size = 100;
  max_req_size = 100;
  fuel = 10;
  compress = none;
  gunzip = no_gzip;
  leftover = λ i. i;
}

-- A body of three bytes, in two segments.
abbrev abc_pieces : Input
abc_pieces = chunk (abc_head ++ codes "ab") (chunk (codes "c") (stop eof))

abbrev abc_conn : Input → Conn
abc_conn i = record { sent = []; write_errors = []; incoming = i }

abbrev link : Input → Link
link i =
    let h = new_connection scoring 1 in
    record {
      state = record h { healthy = true };
      socket = some (abc_conn i);
      dials = [];
      closing = false;
      reqs_on_conn = 0;
      cached_now = 5;
      last_used = 5;
      time_counter = 0;
      bytes_read = 0;
      bytes_written = 0;
    }

abc_Announces : Announces (codes "POST") abc_head 3 200
unfolding parse_transfer_encoding transfer_from parse_content_length length_value match_fold
    skip_blanks eq_bytes
abc_Announces = record {
  status_ok = abc_status;
  has_body = refl;
  not_chunked = refl;
  length_read = refl;
  sized = omega arith;
}

abbrev block : Bytes
block =
    codes "POST /a HTTP/1.1\r\nHost: h:8080\r\nConnection: keep-alive\r\nContent-Length: 3\r\n\r\n"

pieces_found : find_header_end (abc_head ++ codes "abc") ≡ some (length abc_head)
unfolding find_header_end header_end_from
pieces_found = refl

read_response-Read_example :
    Read 200
      (parse_headers abc_head [])
      (codes "abc")
      abc_pieces
      (read_response 10 4096 100 (codes "POST") 20 0 (empty_response 4 0) abc_pieces)
read_response-Read_example =
    read_response-Read 10 4096 100 20 0 200 (codes "POST") abc_head (codes "abc")
      (empty_response 4 0) abc_pieces refl (omega arith, (omega arith, tt)) (omega arith)
      pieces_found (omega arith) abc_Announces (omega arith) (omega arith)
      (λ z. absurd (omega arith))

block_encoded : head_block link_config post_body 3 false ≡ done block
unfolding head_block write_request_part1 write_request_part3 write_bytes write_content_length
    write_int int_bytes digits_onto effective_path write_port
block_encoded = refl

link-Ready : (i : Input) → Ready link_config post_body (codes "hey") block (link i) (abc_conn i)
unfolding prepare_body
link-Ready i = record {
  compressed = false;
  no_rotation = refl;
  socket_is = refl;
  writes = refl;
  prepared = refl;
  no_wait = refl;
  no_prefix = refl;
  encoded = block_encoded;
}

abc_no_gzip : is_gzip (parse_headers abc_head []) ≡ false
unfolding is_gzip parse_headers split_line header_lines header_of field_of split_colon equal_fold
    trim skip_blanks
abc_no_gzip = refl

do_sequential-Exchanged_example :
    Exchanged 200
      (parse_headers abc_head [])
      (codes "abc")
      (block ++ codes "hey")
      (link abc_pieces)
      (abc_conn abc_pieces)
      (do_sequential link_config 6 9 post_body (some (empty_response 4 0)) none (link abc_pieces))
do_sequential-Exchanged_example =
    do_sequential-Exchanged link_config 6 9 200 post_body (empty_response 4 0) (codes "hey") block
      abc_head (codes "abc") (link abc_pieces) (abc_conn abc_pieces) (link-Ready abc_pieces) refl
      (omega arith, (omega arith, tt)) (omega arith) pieces_found (omega arith) abc_Announces
      abc_no_gzip (omega arith) (omega arith)

-- The same response, but for its last byte.
abbrev cut_pieces : Input
cut_pieces = chunk (abc_head ++ codes "ab") (stop eof)

cut_found : find_header_end (abc_head ++ codes "ab") ≡ some (length abc_head)
unfolding find_header_end header_end_from
cut_found = refl

do_sequential-cut_example :
    Kept 200
      (link cut_pieces)
      (do_sequential link_config 6 9 post_body (some (empty_response 4 0)) none (link cut_pieces))
do_sequential-cut_example =
    do_sequential-cut link_config 6 9 200 3 post_body (empty_response 4 0) (codes "hey") block
      abc_head (codes "ab") (link cut_pieces) (abc_conn cut_pieces) (link-Ready cut_pieces) refl
      (omega arith, tt) (omega arith) cut_found (omega arith) abc_Announces (omega arith)
      (omega arith) (omega arith) (omega arith)

do_sequential-balanced_example :
    ((do_sequential link_config 6 9 post_body none none (link cut_pieces)).1.state.active_reqs ≡ (
      if (link cut_pieces).state.pool_claimed
      then (link cut_pieces).state.active_reqs - 1
      else (link cut_pieces).state.active_reqs))
    × ((do_sequential link_config 6 9 post_body none none (link cut_pieces)).1.state.pool_claimed
        ≡ false)
do_sequential-balanced_example =
    do_sequential-balanced link_config 6 9 post_body none none (link cut_pieces)

abbrev waiting : Request
waiting = record post_body { expect_continue = true }
