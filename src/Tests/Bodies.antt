-- ===== src/Tests/Bodies.antt =====
-- The readers of bodies on small responses, and on the lengths that break them.
use bursthttp.Base.{
  length, take, replicate, Bytes, codes, eq_bytes, ℕ, refl, true, false, some, [], arith,
  match_fold, skip_blanks, skip_token, trim, pos, ◌≡◌, ◌∷◌, ◌++◌,
}
use bursthttp.Input.{Input, chunk, stop, done, panics}
use bursthttp.Input.Flat.{flat}
use bursthttp.Errors.{eof}
use bursthttp.Response.{Response, ensure_buffer_size}
use bursthttp.Response.Buffer.{EnsuresBuffer, ensure_buffer_size-EnsuresBuffer}
use bursthttp.Parser.HeaderEnd.{header_end_from, find_header_end}
use bursthttp.Parser.StatusCode.{parse_status_code, status_digits, after_http}
use bursthttp.Parser.ContentLength.{parse_content_length, length_value}
use bursthttp.Parser.TransferEncoding.{transfer_from, parse_transfer_encoding}
use bursthttp.Parser.Headers.{
  parse_headers, split_line, header_lines, header_of, field_of, split_colon,
}
use bursthttp.Response.Lookup.{equal_fold}
use bursthttp.Parser.Gzip.{Gunzip, bad_header, is_gzip}
use bursthttp.Parser.Chunked.{
  read_chunk, read_chunks, chunk_size, before_semicolon, parse_int_16, hex_value, hex_digit,
}
use bursthttp.Parser.Chunked.Faults.{read_chunk_forgets}
use bursthttp.Parser.Chunked.RoundTrip.{
  WireChunk, IsWire, wire, payloads, Decodes, read_chunks-Decodes,
}
use bursthttp.Parser.Buffered.{read_response_buffered, is_bodiless}
use bursthttp.Parser.Buffered.Framing.{
  Framed, HasHead, HasLength, read_response_buffered-Framed, read_response_buffered_panics,
}

abbrev pub no_gzip : Bytes → Gunzip
no_gzip bs = bad_header eof

-- A response with a body buffer of that size and a limit.
abbrev pub empty_response : ℕ → ℕ → Response
empty_response size limit = record {
  status_code = 0;
  content_length = pos 0;
  body_len = 0;
  headers = [];
  body_buf = replicate size 0;
  max_size = limit;
  raw_header_buf = [];
}

ensure_buffer_size-EnsuresBuffer_example :
    EnsuresBuffer (empty_response 4 100) 90 (ensure_buffer_size (empty_response 4 100) (pos 90))
ensure_buffer_size-EnsuresBuffer_example =
    ensure_buffer_size-EnsuresBuffer (empty_response 4 100) 90 (omega arith)

abbrev pub abc_head : Bytes
abc_head = codes "HTTP/1.1 200 OK\r\nContent-Length: 3\r\n\r\n"

-- A body of three bytes, and the start of the next response.
abbrev abc_input : Input
abc_input = chunk (abc_head ++ codes "ab") (chunk (codes "cHTTP") (stop eof))

pub abc_status : parse_status_code abc_head ≡ (200, true)
unfolding parse_status_code after_http status_digits skip_blanks skip_token
abc_status = refl

abc_found : find_header_end (flat abc_input) ≡ some (length abc_head)
unfolding find_header_end header_end_from
abc_found = refl

abc_HasHead : HasHead abc_input 4096 abc_head (codes "abc" ++ codes "HTTP") 200
abc_HasHead = record {
  flat_is = refl;
  found = abc_found;
  fits = omega arith;
  status_ok = abc_status;
}

pub abc_not_bodiless : is_bodiless (codes "GET") 200 ≡ false
unfolding eq_bytes
abc_not_bodiless = refl

abc_plain : parse_transfer_encoding abc_head ≡ false
unfolding parse_transfer_encoding transfer_from match_fold
abc_plain = refl

abc_length : parse_content_length abc_head ≡ (3, true)
unfolding parse_content_length match_fold length_value skip_blanks
abc_length = refl

abc_not_gzip : is_gzip (parse_headers abc_head []) ≡ false
unfolding is_gzip parse_headers split_line header_lines header_of field_of split_colon trim
    skip_blanks equal_fold
abc_not_gzip = refl

pub abc_HasLength : HasLength abc_head (codes "abc") []
abc_HasLength = record {
  not_chunked = abc_plain;
  length_read = abc_length;
  int_sized = omega arith;
  not_gzip = abc_not_gzip;
}

read_response_buffered-Framed_example :
    Framed 200
      (parse_headers abc_head [])
      (codes "abc")
      (codes "HTTP")
      abc_input
      (read_response_buffered no_gzip 10 4096 1000 (codes "GET") (empty_response 2 0) abc_input)
read_response_buffered-Framed_example =
    read_response_buffered-Framed no_gzip 10 4096 1000 200 (codes "GET") abc_head (codes "abc")
      (codes "HTTP") (empty_response 2 0) abc_input abc_HasHead abc_not_bodiless abc_HasLength
      (λ h. omega arith) (λ h. omega arith)

abbrev huge_head : Bytes
huge_head = codes "HTTP/1.1 200 OK\r\nContent-Length: 18446744073709551615\r\n\r\n"

abbrev huge_input : Input
huge_input = chunk huge_head (stop eof)

huge_status : parse_status_code huge_head ≡ (200, true)
unfolding parse_status_code after_http status_digits skip_blanks skip_token
huge_status = refl

huge_found : find_header_end (flat huge_input) ≡ some (length huge_head)
unfolding find_header_end header_end_from
huge_found = refl

huge_HasHead : HasHead huge_input 4096 huge_head [] 200
huge_HasHead = record {
  flat_is = refl;
  found = huge_found;
  fits = omega arith;
  status_ok = huge_status;
}

huge_plain : parse_transfer_encoding huge_head ≡ false
unfolding parse_transfer_encoding transfer_from match_fold
huge_plain = refl

huge_length : parse_content_length huge_head ≡ (18446744073709551615, true)
unfolding parse_content_length match_fold length_value skip_blanks
huge_length = refl

read_response_buffered_panics_example :
    (read_response_buffered no_gzip 10 4096 1000 (codes "GET") (empty_response 2 0) huge_input).1
    ≡ panics
read_response_buffered_panics_example =
    read_response_buffered_panics no_gzip 10 4096 1000 200 18446744073709551615 (codes "GET")
      huge_head [] (empty_response 2 0) huge_input huge_HasHead abc_not_bodiless huge_plain
      huge_length (omega arith)

read_chunk_forgets_example :
    (r' : Response) × (j : Input) × (read_chunk 1000 2 3
        (empty_response 4 0)
        (chunk (codes "abc") (stop eof))
      ≡ (r', done j))
    × (take 2 r'.body_buf ≡ replicate 2 0)
read_chunk_forgets_example =
    read_chunk_forgets 1000 2 (codes "abc") [] (empty_response 4 0) (chunk (codes "abc") (stop eof))
      refl (omega arith) (omega arith) (omega arith) (λ h. omega arith) (λ h. omega arith)

abbrev one_chunk : WireChunk
one_chunk = record { size_line = codes "3;x"; payload = codes "abc" }

one_chunk_sized : chunk_size (codes "3;x") ≡ some 3
unfolding chunk_size before_semicolon parse_int_16 hex_value hex_digit
one_chunk_sized = refl

one_chunk-IsWire : IsWire one_chunk
one_chunk-IsWire = record {
  no_lf = ground arith;
  short = omega arith;
  sized = one_chunk_sized;
  some_data = omega arith;
}

read_chunks-Decodes_example :
    Decodes
      (empty_response 8 0)
      0
      (payloads (one_chunk ∷ []))
      (codes "HTTP")
      (chunk (wire (one_chunk ∷ []) (codes "HTTP")) (stop eof))
      (read_chunks 3 0 0
        (empty_response 8 0)
        (chunk (wire (one_chunk ∷ []) (codes "HTTP")) (stop eof)))
read_chunks-Decodes_example =
    read_chunks-Decodes (one_chunk ∷ []) 3 0 0 (empty_response 8 0)
      (chunk (wire (one_chunk ∷ []) (codes "HTTP")) (stop eof)) (codes "HTTP")
      (one_chunk-IsWire, tt) (omega arith) refl (omega arith) (omega arith) (λ h. omega arith)
