-- ===== src/Parser/Chunked.antt =====
-- `readChunkedBody` of parser.go. The bytes left behind the head are the first chunk of the input.
-- A `Read` that fails leaves part of a chunk in the body buffer, behind the bytes that `Body` shows;
-- the model leaves the buffer as it was.
pub mod Lines
pub mod Place
pub mod Faults
pub mod RoundTrip
use Prim.Native.String.{String}
use bursthttp.Base.{
  ltb, leb, length, take, drop, Bytes, cr, lf, is_digit, ℕ, zero, suc, Option, none, some, [], ℤ,
  pos, negsuc, ltb_ℤ, nonempty, to_int, ◌==◌, if◌then◌else◌, ◌+◌, ◌-◌, ◌*◌, ◌%◌, ◌^◌, ◌&&◌, ◌∷◌,
  ◌++◌,
}
use bursthttp.Errors.{
  Error, sentinel, invalid_response, response_too_large, protocol_error, wrap_error,
}
use bursthttp.Input.{
  Input, chunk, stop, Outcome, done, failed, panics, out_of_fuel, ◌>>=◌, read_exact,
}
use bursthttp.Input.Flat.{ending}
use bursthttp.Response.{Growth, has_room, refused, overflows, Response, ensure_buffer_size}

-- `if end > 0 && lineBuf[end-1] == '\r' { end-- }`
unfoldable pub strip_cr : Bytes → Bytes
strip_cr [] = []
strip_cr (c ∷ []) = if c == cr then [] else c ∷ []
strip_cr (c ∷ d ∷ cs) = c ∷ strip_cr (d ∷ cs)

-- `lineBuf[lineLen] = b`, where there is room among its 64 bytes.
abbrev pub push_line : Bytes → ℕ → Bytes
push_line line b = if ltb (length line) 64 then line ++ (b ∷ []) else line

-- `readLine`, with `lineBuf[:lineLen]`.
unfoldable pub read_line : Bytes → Input → Outcome (Bytes × Input)
unfolding strip_cr
read_line line (stop e) = failed e
read_line line (chunk [] rest) = read_line line rest
read_line line (chunk (b ∷ bs) rest) =
    let more = read_line (push_line line b) (chunk bs rest) in
    if b == lf then done (strip_cr line, chunk bs rest) else more

-- Where `readLine` leaves the input when its results are dropped.
unfoldable pub skip_line : Input → Input
skip_line input = elim (read_line [] input) [ done (line, rest) ↦ rest | _ ↦ stop (ending input) ]

-- `line[:i]` at the first ';'.
unfoldable pub before_semicolon : Bytes → Bytes
before_semicolon [] = []
before_semicolon (c ∷ cs) = if c == b';' then [] else c ∷ before_semicolon cs

unfoldable pub hex_digit : ℕ → Option ℕ
hex_digit c =
    if is_digit c
    then some (c - b'0')
    else if leb b'a' c && leb c b'f'
    then some (c - b'a' + 10)
    else if leb b'A' c && leb c b'F'
    then some (c - b'A' + 10)
    else none

-- The value of hexadecimal digits.
unfoldable pub hex_value : Bytes → ℕ → Option ℕ
unfolding hex_digit
hex_value [] n = some n
hex_value (c ∷ cs) n = elim (hex_digit c) [ none ↦ none | some d ↦ hex_value cs (n * 16 + d) ]

-- A magnitude within an int64, on either side of zero.
abbrev pub hex_number : Bytes → Option ℕ
hex_number [] = none
hex_number (c ∷ cs) = hex_value (c ∷ cs) 0

-- `strconv.ParseInt(s, 16, 64)`, `none` for its errors.
unfoldable pub parse_int_16 : Bytes → Option ℤ
unfolding hex_value
parse_int_16 [] = none
parse_int_16 (c ∷ cs) =
    if c == b'-'
    then elim (hex_number cs) [
      | none ↦ none
      | some n ↦
          if n == 0 then some (pos 0) else if leb n (2 ^ 63) then some (negsuc (n - 1)) else none
    ]
    else elim (hex_number (if c == b'+' then cs else c ∷ cs)) [
      | none ↦ none
      | some n ↦ if ltb n (2 ^ 63) then some (pos n) else none
    ]

-- The size of a chunk from its line; `none` where the source refuses it.
unfoldable pub chunk_size : Bytes → Option ℕ
unfolding before_semicolon parse_int_16
chunk_size line = elim (parse_int_16 (before_semicolon line)) [ some (pos n) ↦ some n | _ ↦ none ]

-- The inner loop, which drains the trailers up to a blank line or an error.
unfoldable pub drain : ℕ → Input → Outcome Input
drain zero input = out_of_fuel
drain (suc fuel) input = elim (read_line [] input) [
  | done (line, rest) ↦ let more = drain fuel rest in if nonempty line then more else done rest
  | _ ↦ done (stop (ending input))
]

-- `resp.bodyBuf[bodyLen : bodyLen+chunkSize]` holds the bytes read.
abbrev pub place : Response → ℕ → Bytes → Response
place r at bs = record r {
  body_buf = take at r.body_buf ++ (bs ++ drop (at + length bs) r.body_buf);
}

abbrev pub invalid_chunk : Error
invalid_chunk = wrap_error protocol_error "invalid chunk size" (sentinel invalid_response)

-- The read into `resp.bodyBuf[bodyLen : bodyLen+chunkSize]`, from what `ensureBufferSize` gave. A slice
-- that ends below zero panics.
abbrev pub read_sized : ℕ → ℕ → ℤ → Input → Response × Growth → Response × Outcome Input
read_sized n at (pos m) input (r, has_room) = elim (read_exact n input) [
  | done (bs, rest) ↦ (place r at bs, done rest)
  | failed e ↦ (r, failed e)
  | panics ↦ (r, panics)
  | out_of_fuel ↦ (r, out_of_fuel)
]
read_sized n at (negsuc m) input (r, has_room) = (r, panics)
read_sized n at required input (r, refused) = (r, failed (sentinel response_too_large))
read_sized n at required input (r, overflows) = (r, panics)

-- The checks and the read for a chunk of `n` bytes behind `at`. The sum of the two is an `int`.
unfoldable pub read_chunk : ℕ → ℕ → ℕ → Response → Input → Response × Outcome Input
read_chunk max_body at n r input =
    let required = to_int ((at + n) % 2 ^ 64) in
    if ltb 0 max_body && ltb_ℤ (pos max_body) required
    then (r, failed (sentinel response_too_large))
    else read_sized n at required input (ensure_buffer_size r required)

-- What stands behind the loop.
abbrev pub finish_chunks : ℕ → Response → Response
finish_chunks at r = record r { content_length = pos at; body_len = at }

-- The end of a round of the outer loop: it returns, or goes round again with `bodyLen`.
pub data Round : Type 0 where
  ends : Response → Outcome Input → Round
  goes : ℕ → Response → Input → Round

-- What a round does with a chunk once `read_chunk` has answered.
unfoldable pub after_chunk : ℕ → Response × Outcome Input → Round
after_chunk at (r, done rest) = goes at r (skip_line rest)
after_chunk at (r, failed e) = ends r (failed e)
after_chunk at (r, panics) = ends r panics
after_chunk at (r, out_of_fuel) = ends r out_of_fuel

-- What a round does with the size of its line.
unfoldable pub sized_round : ℕ → ℕ → ℕ → Response → Input → Option ℕ → Round
sized_round fuel max_body at r input none = ends r (failed invalid_chunk)
sized_round fuel max_body at r input (some n) =
    if n == 0
    then elim (drain fuel input) [
      | done rest ↦ ends (finish_chunks at r) (done rest)
      | _ ↦ ends r out_of_fuel
    ]
    else after_chunk (at + n) (read_chunk max_body at n r input)

unfoldable pub line_round : ℕ → ℕ → ℕ → Response → Outcome (Bytes × Input) → Round
line_round fuel max_body at r (done (line, rest)) =
    sized_round fuel max_body at r rest (chunk_size line)
line_round fuel max_body at r (failed e) = ends r (failed e)
line_round fuel max_body at r panics = ends r panics
line_round fuel max_body at r out_of_fuel = ends r out_of_fuel

-- The outer loop, with `bodyLen`. Each round takes a byte of the input at least.
unfoldable pub read_chunks : ℕ → ℕ → ℕ → Response → Input → Response × Outcome Input
read_chunks zero max_body at r input = (r, out_of_fuel)
read_chunks (suc fuel) max_body at r input =
    elim (line_round fuel max_body at r (read_line [] input)) [
      | ends r' outcome ↦ (r', outcome)
      | goes at' r' input' ↦ read_chunks fuel max_body at' r' input'
    ]
