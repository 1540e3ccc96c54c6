-- ===== src/Parser/Buffered.antt =====
-- `readResponseBuffered` of parser.go: the reading of one pipelined response from the buffered
-- reader that the connection keeps.
pub mod Head
pub mod Framing
use bursthttp.Base.{
  ltb, leb, length, drop, Bytes, codes, cr, lf, eq_bytes, ℕ, zero, suc, Bool, true, false, [], ℤ,
  pos, negsuc, ltb_ℤ, to_int, ◌==◌, if◌then◌else◌, ◌-◌, ◌&&◌, ◌||◌, ◌∷◌, ◌++◌,
}
use bursthttp.Parser.UntilEof.{until_eof}
use bursthttp.Parser.ContentLength.{parse_content_length}
use bursthttp.Parser.Chunked.{read_chunks, place}
use bursthttp.Parser.TransferEncoding.{parse_transfer_encoding}
use bursthttp.Errors.{
  sentinel, header_too_large, response_too_large, wrap_error, protocol_error, invalid_response,
}
use bursthttp.Parser.StatusCode.{parse_status_code}
use bursthttp.Parser.Headers.{parse_headers}
use bursthttp.Parser.Gzip.{Gunzip, decompress_body}
use bursthttp.Input.{◌>>=◌, out_of_fuel, Input, Outcome, failed, done, panics, read_full, read_byte}
use bursthttp.Response.{Growth, has_room, refused, overflows, Response, ensure_buffer_size}

-- `scratch[total-4 : total]` is "\r\n\r\n".
unfoldable pub ends_blank : Bytes → Bool
ends_blank s = leb 4 (length s) && eq_bytes (drop (length s - 4) s) (cr ∷ lf ∷ cr ∷ lf ∷ [])

-- The first loop: `room` bytes of the scratch buffer are left behind `head`.
unfoldable pub read_head : ℕ → Bytes → Input → Outcome (Bytes × Input)
read_head zero head input = failed (sentinel header_too_large)
read_head (suc room) head input = do
  (b, rest) ← read_byte input
  let longer = head ++ b ∷ []
  let more = read_head room longer rest
  if ends_blank longer then done (longer, rest) else more

-- `parseHeaders`, with the copy that it keeps, into a response with its status set.
abbrev pub with_head : Response → ℕ → Bytes → Response
with_head r status head = record r {
  status_code = status;
  headers = parse_headers head r.headers;
  raw_header_buf = head;
}

-- `isHEAD || status == 204 || status == 304 || status == 101`
abbrev pub is_bodiless : Bytes → ℕ → Bool
is_bodiless method status =
    eq_bytes method (codes "HEAD") || status == 204 || status == 304 || status == 101

-- The error of `decompressBody` is the error of the whole.
unfoldable pub then_decompress :
    (Bytes → Gunzip) → Response × Outcome Input → Response × Outcome Input
then_decompress gunzip (r, done rest) =
    ((decompress_body gunzip r).0, (decompress_body gunzip r).1 >>= λ _. done rest)
then_decompress gunzip (r, outcome) = (r, outcome)

-- `resp.bodyBuf[:length]` is filled, from what `ensureBufferSize` gave. A slice that ends below zero
-- panics.
abbrev pub fill_sized : (Bytes → Gunzip) → ℤ → Input → Response × Growth → Response × Outcome Input
fill_sized gunzip (pos n) input (r, has_room) =
    let (got, outcome) = read_full n [] input in
    then_decompress gunzip (record (place r 0 got) { body_len = n }, outcome)
fill_sized gunzip (negsuc m) input (r, has_room) = (r, panics)
fill_sized gunzip n input (r, refused) = (r, failed (sentinel response_too_large))
fill_sized gunzip n input (r, overflows) = (r, panics)

abbrev pub is_zero_int : ℤ → Bool
is_zero_int (pos zero) = true
is_zero_int (pos (suc n)) = false
is_zero_int (negsuc m) = false

-- The tail for a body of known length within the limit.
unfoldable pub read_length : (Bytes → Gunzip) → ℤ → Response → Input → Response × Outcome Input
read_length gunzip n r input =
    let sized = record r { content_length = n } in
    if is_zero_int n
    then (record sized { body_len = 0 }, done input)
    else fill_sized gunzip n input (ensure_buffer_size sized n)

-- From the head on. `length > maxBody` is tested before the status is set.
unfoldable pub read_body :
    (Bytes → Gunzip) → ℕ → ℕ → Bytes → ℕ → Bytes → Response → Input → Response × Outcome Input
read_body gunzip fuel max_body method status head r input =
    let filled = with_head r status head in
    if is_bodiless method status
    then (record filled { content_length = pos 0; body_len = 0 }, done input)
    else if parse_transfer_encoding head
    then then_decompress gunzip (read_chunks fuel max_body 0 filled input)
    else let (n, has_len) = parse_content_length head in
      if has_len
      then (if ltb 0 max_body && ltb_ℤ (pos max_body) (to_int n)
          then (r, failed (sentinel response_too_large))
          else read_length gunzip (to_int n) filled input)
      else then_decompress gunzip (until_eof fuel max_body 65536 0 filled input)

unfoldable pub read_response_buffered :
    (Bytes → Gunzip) → ℕ → ℕ → ℕ → Bytes → Response → Input → Response × Outcome Input
read_response_buffered gunzip fuel scratch_len max_body method r input =
    elim (read_head scratch_len [] input) [
      | failed e ↦ (r, failed e)
      | panics ↦ (r, panics)
      | out_of_fuel ↦ (r, out_of_fuel)
      | done (head, rest) ↦
          let (status, ok) = parse_status_code head in
          if ok then read_body gunzip fuel max_body method status head r rest else (
            r,
            failed (
                wrap_error protocol_error "failed to parse status code"
                  (sentinel invalid_response)),
          )
    ]
