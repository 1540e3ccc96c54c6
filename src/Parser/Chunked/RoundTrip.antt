-- ===== src/Parser/Chunked/RoundTrip.antt =====
-- A well-formed chunked body is decoded, in whatever pieces it arrives.
use bursthttp.Base.{
  length, length-append, take, Bytes, cr, lf, All, ℕ, zero, suc, refl, sym, ap, false, some, List,
  [], append_assoc, append-nil, arith, pos, ◌==◌, ◌+◌, ◌^◌, ◌≤◌, ◌<◌, ◌≡◌, ◌∙◌, ◌∷◌, ◌++◌,
}
use bursthttp.Input.Flat.{flat, ending}
use bursthttp.Input.{Input, Outcome, done}
use bursthttp.Parser.Chunked.Lines.{NoLf, read_line_onto, skip_line_crlf}
use bursthttp.Parser.Chunked.{
  read_chunks, drain, chunk_size, hex_digit, before_semicolon, read_line, finish_chunks,
  parse_int_16, read_chunk, place, skip_line, hex_value, line_round, sized_round, after_chunk,
}
use bursthttp.Response.{Response, body}
use bursthttp.Parser.Chunked.Place.{Within, read_chunk_fits, length-place, take-place}

-- A chunk on the wire: the line with its size, and its data.
pub record WireChunk : Type 0 where
  pub size_line : Bytes
  pub payload : Bytes

pub record IsWire (c : WireChunk) : Type 0 where
  pub no_lf : NoLf c.size_line
  pub short : length c.size_line < 64
  pub sized : chunk_size c.size_line ≡ some (length c.payload)
  pub some_data : 0 < length c.payload

-- A chunked body: the chunks, the line of size 0, and the blank line, with `rest` behind it.
abbrev pub wire : List WireChunk → Bytes → Bytes
wire [] rest = b'0' ∷ cr ∷ lf ∷ cr ∷ lf ∷ rest
wire (c ∷ cs) rest = c.size_line ++ cr ∷ lf ∷ (c.payload ++ cr ∷ lf ∷ wire cs rest)

abbrev pub payloads : List WireChunk → Bytes
payloads [] = []
payloads (c ∷ cs) = c.payload ++ payloads cs

-- `Decodes r at bs rest i out`: the outcome is the body `bs` behind `at` bytes, and `rest` is unread.
pub record Decodes (r : Response) (at : ℕ) (bs rest : Bytes) (i : Input)
    (out : Response × Outcome Input) : Type 0 where
  pub input : Input
  pub ended : out.1 ≡ done input
  pub body_is : body out.0 ≡ take at r.body_buf ++ bs
  pub length_is : out.0.content_length ≡ pos (at + length bs)
  pub headers_kept : (out.0.headers ≡ r.headers) × (out.0.status_code ≡ r.status_code)
  pub unread : flat input ≡ rest
  pub end_kept : ending input ≡ ending i

read_chunks_last :
    (fuel max_body at : ℕ) (r : Response) (i j k : Input) (line : Bytes)
    → read_line [] i ≡ done (line, j)
    → chunk_size line ≡ some 0
    → drain fuel j ≡ done k
    → read_chunks (suc fuel) max_body at r i ≡ (finish_chunks at r, done k)
unfolding read_chunks line_round sized_round
read_chunks_last fuel max_body at r i j k line e s d =
    rw (e, read_chunks) (rw (s, line_round) (rw (d, sized_round)))

read_chunks_next :
    (fuel max_body at n : ℕ) (r r' : Response) (i j k : Input) (line : Bytes)
    → read_line [] i ≡ done (line, j)
    → chunk_size line ≡ some n
    → 0 < n
    → read_chunk max_body at n r j ≡ (r', done k)
    → read_chunks (suc fuel) max_body at r i ≡ read_chunks fuel max_body (at + n) r' (skip_line k)
unfolding read_chunks line_round sized_round after_chunk
read_chunks_next fuel max_body at n r r' i j k line e s p d =
    let positive : (n == 0) ≡ false = ground arith in
    rw (e, read_chunks) (rw (s, line_round) (rw (d, positive, sized_round)))

drain_blank : (fuel : ℕ) (i j : Input) → read_line [] i ≡ done ([], j) → drain (suc fuel) i ≡ done j
unfolding drain
drain_blank fuel i j e = rw (e, drain)

zero_line : chunk_size (b'0' ∷ []) ≡ some 0
unfolding chunk_size before_semicolon parse_int_16 hex_value hex_digit
zero_line = refl

read_chunks_end :
    (fuel max_body at : ℕ) (r : Response) (i : Input) (rest : Bytes)
    → flat i ≡ wire [] rest
    → at ≤ length r.body_buf
    → Decodes r at [] rest i (read_chunks (suc (suc fuel)) max_body at r i)
read_chunks_end fuel max_body at r i rest h fits =
    let (j, e, f, g) =
      read_line_onto (b'0' ∷ []) [] (cr ∷ lf ∷ rest) i h (omega arith) (omega arith) in
    let (k, e', f', g') = read_line_onto [] [] rest j f tt (omega arith) in
    rw
      (read_chunks_last (suc fuel) max_body at r i j k (b'0' ∷ []) e zero_line
        (drain_blank fuel j k e'))
      (record {
        input = k;
        ended = refl;
        body_is = sym (append-nil (take at r.body_buf));
        length_is = ap pos (omega arith);
        headers_kept = (refl, refl);
        unread = f';
        end_kept = g' ∙ g;
      })

-- A chunked body, given as well-formed chunks on the wire whose data fits the body buffer and
-- the limit, is decoded with fuel for two rounds more than there are chunks: the body is the
-- data of the chunks in order, and the bytes behind the body are left unread.
pub read_chunks-Decodes :
    (cs : List WireChunk) (fuel max_body at : ℕ) (r : Response) (i : Input) (rest : Bytes)
    → All IsWire cs
    → length cs + 2 ≤ fuel
    → flat i ≡ wire cs rest
    → at + length (payloads cs) ≤ length r.body_buf
    → length r.body_buf < 2 ^ 63
    → Within max_body (at + length (payloads cs))
    → Decodes r at (payloads cs) rest i (read_chunks fuel max_body at r i)
read_chunks-Decodes [] zero max_body at r i rest w l h room small within = absurd (omega arith)
read_chunks-Decodes [] (suc zero) max_body at r i rest w l h room small within =
    absurd (omega arith)
read_chunks-Decodes [] (suc (suc fuel)) max_body at r i rest w l h room small within =
    read_chunks_end fuel max_body at r i rest h (omega arith)
read_chunks-Decodes (c ∷ cs) zero max_body at r i rest w l h room small within =
    absurd (omega arith)
read_chunks-Decodes (c ∷ cs) (suc fuel) max_body at r i rest (w, ws) l h room small within =
    let total = length-append c.payload (payloads cs) in
    let (j, e, f, g) = read_line_onto c.size_line [] _ i h w.no_lf (omega (arith, w.short)) in
    let (k, e', f', g') =
      read_chunk_fits max_body at c.payload _ r j f (omega (arith, total)) (omega (arith, total))
        (omega (arith, total)) in
    let r' = place r at c.payload in
    let (f'', g'') = skip_line_crlf k _ f' in
    let kept = length-place r at c.payload (omega (arith, total)) in
    let d =
      read_chunks-Decodes cs fuel max_body (at + length c.payload) r' (skip_line k) rest ws
        (omega arith) f'' (omega (arith, total)) (omega arith) (omega (arith, total)) in
    rw
      (read_chunks_next fuel max_body at (length c.payload) r r' i j k c.size_line e w.sized
        w.some_data e')
      (record {
        input = d.input;
        ended = d.ended;
        body_is =
            d.body_is
            ∙ ap (λ bs. bs ++ payloads cs) (take-place r at c.payload (omega (arith, total)))
            ∙ append_assoc (take at r.body_buf) c.payload (payloads cs);
        length_is = d.length_is ∙ ap pos (omega (arith, total));
        headers_kept = d.headers_kept;
        unread = d.unread;
        end_kept = d.end_kept ∙ g'' ∙ g' ∙ g;
      })
