-- ===== src/Parser/Direct.antt =====
-- `readResponse` of parser.go, which reads from the connection without a buffered reader. What it reads
-- of the input past the head stays in its own buffer: the bytes there that the body does not take are
-- not in what is left of the input.
pub mod Head
pub mod Body
pub mod Whole
use bursthttp.Base.{
  ltb, leb, length, take, drop, Bytes, ℕ, zero, suc, min, Bool, true, false, Option, none, some, [],
  ℤ, pos, negsuc, ltb_ℤ, to_int, ◌==◌, if◌then◌else◌, ◌+◌, ◌-◌, ◌∷◌, ◌++◌,
}
use bursthttp.Errors.{
  Error, eof, sentinel, header_too_large, response_too_large, invalid_response, protocol_error,
  wrap_error,
}
use bursthttp.Input.{Input, chunk, stop, Outcome, done, failed, panics, out_of_fuel, read}
use bursthttp.Input.Flat.{flat}
use bursthttp.Response.{Growth, has_room, refused, overflows, Response, ensure_buffer_size}
use bursthttp.Parser.HeaderEnd.{find_header_end}
use bursthttp.Parser.StatusCode.{parse_status_code}
use bursthttp.Parser.ContentLength.{parse_content_length}
use bursthttp.Parser.TransferEncoding.{parse_transfer_encoding}
use bursthttp.Parser.Chunked.{read_chunks, place}
use bursthttp.Parser.UntilEof.{until_eof}
use bursthttp.Parser.Buffered.{is_zero_int, with_head, is_bodiless}

-- A round of the first loop from its read on, with `buf[:total]` as `seen`.
pub data HeadRound : Type 0 where
  fails : Error → HeadRound
  found_at : ℕ → Bytes → Input → HeadRound
  reads_on : Bytes → Input → HeadRound

abbrev pub searched : Bytes → Input → Option ℕ → HeadRound
searched seen rest none = reads_on seen rest
searched seen rest (some n) = found_at n seen rest

abbrev pub head_read : Bytes → Outcome (Bytes × Input) → HeadRound
head_read seen (done ([], rest)) = fails eof
head_read seen (done (b ∷ bs, rest)) =
    searched (seen ++ (b ∷ bs)) rest (find_header_end (seen ++ (b ∷ bs)))
head_read seen (failed e) = fails e
head_read seen _ = fails eof

unfoldable pub head_round : ℕ → ℕ → Bytes → Input → HeadRound
head_round buf_len read_size seen input =
    if leb buf_len (length seen)
    then fails (sentinel header_too_large)
    else head_read seen (read (min (buf_len - length seen) read_size) input)

-- The first loop. A round that goes on has read a byte.
unfoldable pub read_until_head : ℕ → ℕ → ℕ → Bytes → Input → Outcome (ℕ × Bytes × Input)
read_until_head zero buf_len read_size seen input = out_of_fuel
read_until_head (suc fuel) buf_len read_size seen input =
    elim (head_round buf_len read_size seen input) [
      | fails e ↦ failed e
      | found_at n seen' rest ↦ done (n, seen', rest)
      | reads_on seen' rest ↦ read_until_head fuel buf_len read_size seen' rest
    ]

-- A round of the loop over `remaining`: how it ends, or the bytes that remain and what was read.
pub data RestRound : Type 0 where
  rest_fails : Response → Outcome Input → RestRound
  rest_goes : ℕ → ℕ → Response → Input → RestRound

abbrev pub rest_read : ℕ → ℕ → Response → Outcome (Bytes × Input) → RestRound
rest_read n offset r (done ([], rest)) = rest_fails r (failed eof)
rest_read n offset r (done (b ∷ bs, rest)) =
    rest_goes (n - length (b ∷ bs)) (offset + length (b ∷ bs)) (place r offset (b ∷ bs)) rest
rest_read n offset r (failed e) = rest_fails r (failed e)
rest_read n offset r panics = rest_fails r panics
rest_read n offset r out_of_fuel = rest_fails r out_of_fuel

unfoldable pub read_rest : ℕ → ℕ → ℕ → ℕ → Response → Input → Response × Outcome Input
read_rest fuel size zero offset r input = (r, done input)
read_rest zero size (suc n) offset r input = (r, out_of_fuel)
read_rest (suc fuel) size (suc n) offset r input =
    elim (rest_read (suc n) offset r (read (min (suc n) size) input)) [
      | rest_fails r' outcome ↦ (r', outcome)
      | rest_goes m offset' r' rest ↦ read_rest fuel size m offset' r' rest
    ]

-- The input without the bytes that were in the buffer of the head, where the body did not take them.
abbrev pub off_buffer : Input → Response × Outcome Input → Response × Outcome Input
off_buffer input (r, done rest) =
    (r, done (if ltb (length (flat input)) (length (flat rest)) then input else rest))
off_buffer input (r, outcome) = (r, outcome)

-- `readResponseUntilEOF`, from its copy of `buf[bodyStart:total]` on.
abbrev pub eof_start : ℕ → ℕ → ℕ → Bytes → Input → Response × Growth → Response × Outcome Input
eof_start fuel max_body size after input (r, has_room) =
    until_eof fuel max_body size (length after) (place r 0 after) input
eof_start fuel max_body size after input (r, refused) =
    let kept = take (length r.body_buf) after in
    until_eof fuel max_body size (length kept) (place r 0 kept) input
eof_start fuel max_body size after input (r, overflows) = (r, panics)

unfoldable pub until_eof_from : ℕ → ℕ → ℕ → Bytes → Response → Input → Response × Outcome Input
until_eof_from fuel max_body size [] r input = until_eof fuel max_body size 0 r input
until_eof_from fuel max_body size (b ∷ bs) r input =
    eof_start fuel max_body size (b ∷ bs) input (ensure_buffer_size r (pos (length (b ∷ bs))))

-- The body of a known length, with the bytes behind the head that are read already.
-- A slice that ends below zero panics.
abbrev pub length_start : ℕ → ℤ → Bytes → Input → Response × Growth → Response × Outcome Input
length_start size (negsuc m) after input (r, has_room) = (r, panics)
length_start size n after input (r, refused) = (r, failed (sentinel response_too_large))
length_start size n after input (r, overflows) = (r, panics)
length_start size (pos n) after input (r, has_room) =
    let here = take n after in
    read_rest n size (n - length here) (length here) (place (record r { body_len = n }) 0 here)
      input

unfoldable pub read_length_from : ℕ → ℤ → Bytes → Response → Input → Response × Outcome Input
read_length_from size n after r input =
    let sized = record r { content_length = n } in
    if is_zero_int n
    then (record sized { body_len = 0 }, done input)
    else length_start size n after input (ensure_buffer_size sized n)

-- `if bodyReadSize <= 0 { bodyReadSize = 65536 }`
abbrev pub chunk_or_default : ℕ → ℕ
chunk_or_default n = if n == 0 then 65536 else n

-- From the head on, with the bytes `after` it in the buffer.
unfoldable pub read_body_from :
    ℕ → ℕ → ℕ → Bytes → ℕ → Bytes → Bytes → Response → Input → Response × Outcome Input
read_body_from fuel max_body body_read_size method status head after r input =
    let filled = with_head r status head in
    if is_bodiless method status
    then (record filled { content_length = pos 0; body_len = 0 }, done input)
    else if parse_transfer_encoding head
    then off_buffer input (read_chunks fuel max_body 0 filled (chunk after input))
    else let (n, has_len) = parse_content_length head in
      if has_len
      then (if ltb_ℤ (pos max_body) (to_int n)
          then (r, failed (sentinel response_too_large))
          else read_length_from (chunk_or_default body_read_size) (to_int n) after filled input)
      else until_eof_from fuel max_body (chunk_or_default body_read_size) after filled input

abbrev pub parsed_head :
    ℕ → ℕ → ℕ → Bytes → Bytes → Bytes → Response → Input → ℕ × Bool → Response × Outcome Input
parsed_head fuel max_body body_read_size method head after r input (status, true) =
    read_body_from fuel max_body body_read_size method status head after r input
parsed_head fuel max_body body_read_size method head after r input (status, false) = (
  r,
  failed (wrap_error protocol_error "failed to parse status code" (sentinel invalid_response)),
)

abbrev pub after_head :
    ℕ → ℕ → ℕ → Bytes → Response → Outcome (ℕ × Bytes × Input) → Response × Outcome Input
after_head fuel max_body body_read_size method r (done (n, seen, rest)) =
    parsed_head fuel max_body body_read_size method (take n seen) (drop n seen) r rest
      (parse_status_code (take n seen))
after_head fuel max_body body_read_size method r (failed e) = (r, failed e)
after_head fuel max_body body_read_size method r panics = (r, panics)
after_head fuel max_body body_read_size method r out_of_fuel = (r, out_of_fuel)

-- `readResponse` into a buffer of `buf_len` bytes. One more round than there are bytes is enough for
-- its head; `fuel` is that of the readers of bodies.
unfoldable pub read_response :
    ℕ → ℕ → ℕ → Bytes → ℕ → ℕ → Response → Input → Response × Outcome Input
read_response fuel buf_len max_body method header_read_size body_read_size r input =
    after_head fuel max_body body_read_size method r
      (read_until_head (suc buf_len) buf_len header_read_size [] input)
