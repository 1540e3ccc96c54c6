-- ===== src/Parser/UntilEof.antt =====
-- `readResponseUntilEOF` of parser.go behind its copy of the bytes left from the head.
use bursthttp.Base.{
  ltb, leb, length, Bytes, ℕ, zero, suc, [], pos, ◌==◌, if◌then◌else◌, ◌+◌, ◌-◌, ◌&&◌, ◌∷◌,
}
use bursthttp.Parser.Chunked.{place}
use bursthttp.Errors.{eof, sentinel, Error, response_too_large}
use bursthttp.Input.{panics, Input, Outcome, out_of_fuel, done, failed, read}
use bursthttp.Response.{Growth, has_room, refused, overflows, Response, ensure_buffer_size}

-- `requiredSize`
abbrev pub required_size : ℕ → ℕ → ℕ → ℕ
required_size max_body chunk offset =
    if ltb 0 max_body && ltb max_body (offset + chunk) then max_body else offset + chunk

-- `toRead`
abbrev pub to_read : ℕ → ℕ → ℕ → ℕ → ℕ
to_read max_body chunk offset len =
    let room = len - offset in
    let part = if ltb chunk room then chunk else room in
    if ltb 0 max_body && ltb (max_body - offset) part then max_body - offset else part

abbrev pub finish_eof : ℕ → Response → Response
finish_eof offset r = record r { content_length = pos offset; body_len = offset }

-- How a round ends: the loop is left with a body, returns an error, panics, or goes on with `offset`.
pub data EofRound : Type 0 where
  breaks : Response → Input → EofRound
  returns : Response → Error → EofRound
  crashes : Response → EofRound
  reads : ℕ → Response → Input → EofRound

-- A round from its read on: `err == io.EOF`, another error, no byte, or some.
unfoldable pub after_read : ℕ → Response → Input → Outcome (Bytes × Input) → EofRound
after_read offset r input (done ([], rest)) = breaks r rest
after_read offset r input (done (b ∷ bs, rest)) =
    reads (offset + length (b ∷ bs)) (place r offset (b ∷ bs)) rest
after_read offset r input (failed eof) = breaks r input
after_read offset r input (failed e) = returns r e
after_read offset r input _ = breaks r input

-- A round from `ensureBufferSize` on. Where it gives false, the buffer that is there may have room.
abbrev pub room_read : ℕ → ℕ → ℕ → Input → Response → EofRound
room_read max_body chunk offset input r =
    let n = to_read max_body chunk offset (length r.body_buf) in
    if n == 0 then breaks r input else after_read offset r input (read n input)

abbrev pub sized_read : ℕ → ℕ → ℕ → Input → Response × Growth → EofRound
sized_read max_body chunk offset input (r, has_room) = room_read max_body chunk offset input r
sized_read max_body chunk offset input (r, refused) =
    if leb (length r.body_buf) offset
    then returns r (sentinel response_too_large)
    else room_read max_body chunk offset input r
sized_read max_body chunk offset input (r, overflows) = crashes r

unfoldable pub eof_round : ℕ → ℕ → ℕ → Response → Input → EofRound
eof_round max_body chunk offset r input =
    if ltb 0 max_body && leb max_body offset
    then returns r (sentinel response_too_large)
    else sized_read max_body chunk offset input
        (ensure_buffer_size r (pos (required_size max_body chunk offset)))

-- The loop, with `offset`.
unfoldable pub until_eof : ℕ → ℕ → ℕ → ℕ → Response → Input → Response × Outcome Input
until_eof zero max_body chunk offset r input = (r, out_of_fuel)
until_eof (suc fuel) max_body chunk offset r input =
    elim (eof_round max_body chunk offset r input) [
      | breaks r' rest ↦ (finish_eof offset r', done rest)
      | returns r' e ↦ (r', failed e)
      | crashes r' ↦ (r', panics)
      | reads offset' r' rest ↦ until_eof fuel max_body chunk offset' r' rest
    ]
