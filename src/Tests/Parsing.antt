-- ===== src/Tests/Parsing.antt =====
-- The parsers of the head on small heads.
use bursthttp.Base.{
  Bytes, codes, cr, lf, refl, true, some, [], arith, match_fold, skip_blanks, skip_token, trim, ◌≡◌,
  ◌↔◌, ◌∷◌, ◌++◌,
}
use bursthttp.Parser.Fields.{Misses}
use bursthttp.Input.{Input, chunk, stop}
use bursthttp.Input.Flat.{flat}
use bursthttp.Errors.{eof}
use bursthttp.Parser.HeaderEnd.{header_end_from, find_header_end}
use bursthttp.Parser.HeaderEnd.Found.{HeadAt, find_header_end_iff}
use bursthttp.Parser.StatusCode.{parse_status_code, status_digits, after_http}
use bursthttp.Parser.TransferEncoding.{
  transfer_encoding_name, transfer_from, contains_chunked, to_line_end, parse_transfer_encoding,
}
use bursthttp.Parser.Headers.{split_line, parse_headers, header_bytes_from_raw}
use bursthttp.Parser.Headers.Render.{render, IsField, parse_headers-render}
use bursthttp.Parser.Headers.Agree.{Agrees, header_bytes_from_raw-Agrees}
use bursthttp.Response.Lookup.{Header}

abbrev small_head : Bytes
small_head = codes "A\r\n\r\nB"

find_header_end_iff_example : (find_header_end small_head ≡ some 5) ↔ HeadAt small_head 5
find_header_end_iff_example = find_header_end_iff small_head 5

-- A jump over a line end misses no blank line.
find_header_end_run : find_header_end (codes "\r\n\r\r\n\r\nx") ≡ some 7
unfolding find_header_end header_end_from
find_header_end_run = refl

-- The head and what follows it, in two reads.
abbrev two_reads : Input
two_reads = chunk (codes "A\r\n\r") (chunk (codes "\nB") (stop eof))

two_reads_found : find_header_end (flat two_reads) ≡ some 5
unfolding find_header_end header_end_from
two_reads_found = refl

parse_status_code_run : parse_status_code (codes "HTTP/1.1 503 Unavailable\r\n") ≡ (503, true)
unfolding parse_status_code after_http status_digits skip_blanks skip_token
parse_status_code_run = refl

abbrev chunked_after : Bytes
chunked_after = codes " gzip, Chunked\r\n"

chunked_after_chunked : contains_chunked (to_line_end (skip_blanks chunked_after)) ≡ true
unfolding contains_chunked to_line_end skip_blanks match_fold
chunked_after_chunked = refl

transfer_encoding_Misses :
    Misses transfer_encoding_name (codes "\r\n") (codes "Transfer-Encoding:" ++ chunked_after)
unfolding match_fold
transfer_encoding_Misses = ground arith

chunked_run : parse_transfer_encoding (codes "transfer-encoding:chunked") ≡ true
unfolding parse_transfer_encoding transfer_from contains_chunked to_line_end skip_blanks match_fold
chunked_run = refl

abbrev pub host_field : Header
host_field = record { key = codes "Host"; value = codes "a:1" }

pub host_field-IsField : IsField host_field
unfolding trim skip_blanks
host_field-IsField = record {
  key_nonempty = refl;
  key_trimmed = refl;
  key_no_cr = ground arith;
  key_no_colon = ground arith;
  value_nonempty = refl;
  value_trimmed = refl;
  value_no_cr = ground arith;
}

parse_headers-render_example :
    parse_headers (codes "GET" ++ cr ∷ lf ∷ render (host_field ∷ []) (cr ∷ lf ∷ codes "body")) []
    ≡ host_field ∷ []
parse_headers-render_example =
    parse_headers-render (codes "GET") (host_field ∷ []) [] (codes "body") (ground arith)
      (host_field-IsField, tt)

abbrev raw_head : Bytes
raw_head = codes "OK\r\nHost: a\r\n\r\n"

raw_head_split : split_line raw_head ≡ some (codes "OK", codes "Host: a\r\n\r\n")
unfolding split_line
raw_head_split = refl

header_bytes_from_raw-Agrees_example :
    Agrees
      (header_bytes_from_raw raw_head (codes "host"))
      (parse_headers raw_head [])
      (codes "host")
header_bytes_from_raw-Agrees_example =
    header_bytes_from_raw-Agrees raw_head (codes "host") (codes "OK") (codes "Host: a\r\n\r\n") []
      raw_head_split refl refl
