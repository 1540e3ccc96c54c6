-- ===== src/Parser/Chunked/Place.antt =====
-- The body buffer while chunks are stored in it.
use bursthttp.Base.{
  length, length-append, take, drop, length-take, length-drop, take-append_of_length, Bytes, ℕ,
  refl, append_assoc, arith, ◌+◌, ◌^◌, ◌≤◌, ◌<◌, ◌≡◌, ◌++◌,
}
use bursthttp.Input.Flat.{flat, ending, read_exact-append}
use bursthttp.Input.{Input, done}
use bursthttp.Parser.Chunked.{read_chunk, place}
use bursthttp.Response.{Response, ensure_buffer_size}

-- The slice for a chunk that fits the buffer is filled, behind the bytes of the chunks before it.
pub take-place :
    (r : Response) (at : ℕ) (bs : Bytes)
    → at + length bs ≤ length r.body_buf
    → take (at + length bs) (place r at bs).body_buf ≡ take at r.body_buf ++ bs
take-place r at bs h =
    rw (← append_assoc (take at r.body_buf) bs (drop (at + length bs) r.body_buf)) (
      take-append_of_length (take at r.body_buf ++ bs) _ _
        (omega (arith, length-append (take at r.body_buf) bs, length-take at r.body_buf)))

pub length-place :
    (r : Response) (at : ℕ) (bs : Bytes)
    → at + length bs ≤ length r.body_buf
    → length (place r at bs).body_buf ≡ length r.body_buf
length-place r at bs h = omega (
  arith,
  length-append (take at r.body_buf) (bs ++ drop (at + length bs) r.body_buf),
  length-append bs (drop (at + length bs) r.body_buf),
  length-take at r.body_buf,
  length-drop (at + length bs) r.body_buf,
)

-- A limit that is off, or not exceeded.
abbrev pub Within : ℕ → ℕ → Type 0
Within max_body n = 0 < max_body → n ≤ max_body

-- A chunk for which the buffer has room is stored, and its bytes leave the input.
pub read_chunk_fits :
    (max_body at : ℕ) (bs rest : Bytes) (r : Response) (i : Input)
    → flat i ≡ bs ++ rest
    → at + length bs ≤ length r.body_buf
    → at + length bs < 2 ^ 63
    → Within max_body (at + length bs)
    → (j : Input) × (read_chunk max_body at (length bs) r i ≡ (place r at bs, done j))
      × (flat j ≡ rest)
      × (ending j ≡ ending i)
unfolding read_chunk ensure_buffer_size
read_chunk_fits max_body at bs rest r i h room small within =
    let (j, e, f, g) = read_exact-append (length bs) i bs rest refl h in
    (j, ground (arith, e), f, g)
