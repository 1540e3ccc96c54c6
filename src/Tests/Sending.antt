-- ===== src/Tests/Sending.antt =====
-- The request's fields and the writers on small requests.
use bursthttp.Base.{
  Bytes, codes, cr, lf, refl, true, false, some, [], arith, pos, to_int, ◌≡◌, ◌∷◌, ◌++◌,
}
use bursthttp.Request.{Request, contains_crlf, set_header, effective_path}
use bursthttp.Request.Header.{SetsHeader, set_header-SetsHeader}
use bursthttp.Request.Header.RoundTrip.{IsClean, set_headers, set_headers-parse_headers}
use bursthttp.Parser.Headers.{parse_headers}
use bursthttp.Tests.Parsing.{host_field, host_field-IsField}
use bursthttp.Writer.{
  KeepAlive, Destination, write_bytes, write_int, int_bytes, digits_onto, write_port,
  write_request_part1, write_request_part3, write_content_length, write_request,
}
use bursthttp.Parser.ContentLength.{parse_content_length}
use bursthttp.Writer.Length.{parse_content_length-length_bytes}
use bursthttp.Writer.Exact.{
  length_bytes, request_bytes, write_request-request_bytes, write_request-parts,
}

-- A request to "/a" with an empty header buffer, and room for 512 bytes in it.
abbrev pub small_request : Request
small_request = record {
  method = codes "POST";
  url = [];
  path = codes "/a";
  req_body = [];
  is_compressed = false;
  expect_continue = false;
  read_timeout = pos 0;
  write_timeout = pos 0;
  parsed_host = [];
  parsed_port = 0;
  parsed_tls = false;
  parsed_path = [];
  url_parsed = false;
  header_block = [];
  header_size = 512;
  max_body_size = 0;
  body_size = 0;
  pre_encoded = [];
}

abbrev pub always : KeepAlive
always = record { keep_alive = true; disable_keep_alive = false }

abbrev pub local_port : Destination
local_port = record { host = codes "h"; port = 8080; use_tls = false }

set_header-SetsHeader_example :
    SetsHeader small_request
      (codes "A")
      (codes "b")
      (set_header small_request (codes "A") (codes "b"))
set_header-SetsHeader_example = set_header-SetsHeader small_request (codes "A") (codes "b")

set_header_refuses_run : (set_header small_request (codes "A") (codes "b\r\nC: d")).1 ≡ false
unfolding set_header contains_crlf
set_header_refuses_run = refl

host_field-IsClean : IsClean host_field
host_field-IsClean = record {
  field = host_field-IsField;
  key_no_lf = ground arith;
  value_no_lf = ground arith;
}

set_headers-parse_headers_example :
    parse_headers
      (codes "GET"
        ++ cr
          ∷ lf
          ∷ ((set_headers small_request (host_field ∷ [])).header_block ++ cr ∷ lf ∷ codes "x"))
      []
    ≡ host_field ∷ []
set_headers-parse_headers_example =
    set_headers-parse_headers small_request (host_field ∷ []) (codes "GET") (codes "x")
      (ground arith) (host_field-IsClean, tt) refl (omega arith)

int_bytes_run : (int_bytes 4096 ≡ codes "4096") × (int_bytes 1234567 ≡ codes "1234567")
unfolding int_bytes digits_onto
int_bytes_run = (refl, refl)

write_request-request_bytes_example :
    write_request 400 small_request always local_port (codes "hi") false false []
    ≡ write_bytes 400 [] (request_bytes small_request always local_port 2 false false [])
write_request-request_bytes_example =
    write_request-request_bytes 400 small_request always local_port (codes "hi") false false []

abbrev part1_text : Bytes
part1_text = codes "POST /a HTTP/1.1\r\nHost: h:8080\r\nConnection: keep-alive\r\n"

part1_run : write_request_part1 200 small_request always local_port false false ≡ some part1_text
unfolding write_request_part1 write_port write_int write_bytes int_bytes digits_onto effective_path
part1_run = refl

part3_run : write_request_part3 200 small_request 2 [] ≡ some (codes "Content-Length: 2\r\n\r\n")
unfolding write_request_part3 write_content_length write_int write_bytes int_bytes
part3_run = refl

write_request-parts_example :
    write_request 400 small_request always local_port (codes "hi") false false []
    ≡ some (part1_text ++ ([] ++ codes "Content-Length: 2\r\n\r\n"))
write_request-parts_example =
    write_request-parts 400 200 200 small_request always local_port (codes "hi") false false []
      part1_text (codes "Content-Length: 2\r\n\r\n") part1_run part3_run (omega arith)

parse_content_length-length_bytes_example :
    (parse_content_length (length_bytes 1048576) ≡ (1048576, true)) × (to_int 1048576 ≡ pos 1048576)
parse_content_length-length_bytes_example = parse_content_length-length_bytes 1048576 (omega arith)
