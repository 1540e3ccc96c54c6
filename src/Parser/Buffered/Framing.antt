-- ===== src/Parser/Buffered/Framing.antt =====
-- A pipelined response is read to its end and no further.
use bursthttp.Base.{
  ltb, length, take, drop, take-append_of_length, drop-append_of_length, Bytes, ℕ, suc, refl, ap,
  true, false, some, List, [], arith, pos, negsuc, to_int, ◌+◌, ◌-◌, ◌^◌, ◌≤◌, ◌≡◌, ◌∙◌, ◌&&◌, ◌∷◌,
  ◌++◌,
}
use bursthttp.Parser.Headers.{parse_headers}
use bursthttp.Parser.ContentLength.{parse_content_length}
use bursthttp.Parser.TransferEncoding.{parse_transfer_encoding}
use bursthttp.Response.Lookup.{Header}
use bursthttp.Parser.Buffered.Head.{read_head-find_header_end}
use bursthttp.Parser.StatusCode.{parse_status_code}
use bursthttp.Parser.HeaderEnd.{find_header_end}
use bursthttp.Response.Buffer.{safe_size, ensure_buffer_size_fits}
use bursthttp.Parser.Chunked.Place.{Within}
use bursthttp.Input.Flat.{flat, ending, read_full-append}
use bursthttp.Response.{has_room, Response, body, ensure_buffer_size}
use bursthttp.Parser.Gzip.{decompress_body, Gunzip, is_gzip}
use bursthttp.Input.{Input, Outcome, done, read_full, panics}
use bursthttp.Parser.Buffered.{
  read_length, then_decompress, read_response_buffered, read_body, is_bodiless, with_head,
}

-- The response is read: its status and body, and `rest` left in the input for the next one.
pub record Framed (status : ℕ) (hs : List Header) (payload rest : Bytes) (i : Input)
    (out : Response × Outcome Input) : Type 0 where
  pub input : Input
  pub ended : out.1 ≡ done input
  pub status_is : out.0.status_code ≡ status
  pub headers_are : out.0.headers ≡ hs
  pub body_is : body out.0 ≡ payload
  pub length_is : out.0.content_length ≡ pos (length payload)
  pub unread : flat input ≡ rest
  pub end_kept : ending input ≡ ending i

decompress_plain :
    (gunzip : Bytes → Gunzip) (r : Response)
    → is_gzip r.headers ≡ false
    → decompress_body gunzip r ≡ (r, done tt)
unfolding decompress_body
decompress_plain gunzip r h = ground (arith, h)

pub then_decompress_plain :
    (gunzip : Bytes → Gunzip) (r : Response) (i : Input)
    → is_gzip r.headers ≡ false
    → then_decompress gunzip (r, done i) ≡ (r, done i)
unfolding then_decompress
then_decompress_plain gunzip r i h =
    let e = decompress_plain gunzip r h in rw (e, then_decompress) refl

read_length_step :
    (gunzip : Bytes → Gunzip) (m : ℕ) (got buf : Bytes) (r : Response) (i j : Input)
    → ensure_buffer_size (record r { content_length = pos (suc m) }) (pos (suc m))
      ≡ (record r { content_length = pos (suc m); body_buf = buf }, has_room)
    → read_full (suc m) [] i ≡ (got, done j)
    → is_gzip r.headers ≡ false
    → read_length gunzip (pos (suc m)) r i ≡ (
      record r {
        content_length = pos (suc m);
        body_len = suc m;
        body_buf = got ++ drop (0 + length got) buf;
      },
      done j,
    )
unfolding read_length
read_length_step gunzip m got buf r i j e f g =
    rw (e, read_length) (rw (f, read_length) (then_decompress_plain gunzip _ j g))

-- The tail of a response whose length is known.
read_length-Framed :
    (gunzip : Bytes → Gunzip) (payload rest : Bytes) (r : Response) (i : Input)
    → flat i ≡ payload ++ rest
    → length payload ≤ safe_size
    → Within r.max_size (length payload)
    → is_gzip r.headers ≡ false
    → Framed r.status_code r.headers payload rest i (read_length gunzip (pos (length payload)) r i)
read_length-Framed gunzip [] rest r i f z w g =
    unfold read_length in
    record {
      input = i;
      ended = refl;
      status_is = refl;
      headers_are = refl;
      body_is = refl;
      length_is = refl;
      unread = f;
      end_kept = refl;
    }
read_length-Framed gunzip (p ∷ payload) rest r i f z w g =
    let q = record r { content_length = pos (suc (length payload)) } in
    let (buf, e, enough) = ensure_buffer_size_fits q (suc (length payload)) z w in
    let (j, d, u, k) = read_full-append (p ∷ payload) rest [] i f in
    rw (read_length_step gunzip (length payload) (p ∷ payload) buf r i j e d g) (record {
      input = j;
      ended = refl;
      status_is = refl;
      headers_are = refl;
      body_is = take-append_of_length (p ∷ payload) _ (suc (length payload)) refl;
      length_is = refl;
      unread = u;
      end_kept = k;
    })

-- A head of a response with a body: where it ends, and what its parts say.
pub record HasHead (i : Input) (scratch : ℕ) (head after : Bytes) (status : ℕ) : Type 0 where
  pub flat_is : flat i ≡ head ++ after
  pub found : find_header_end (flat i) ≡ some (length head)
  pub fits : length head ≤ scratch
  pub status_ok : parse_status_code head ≡ (status, true)

read_response_buffered_head :
    (gunzip : Bytes → Gunzip) (fuel scratch max_body status : ℕ) (method head after : Bytes)
    (r : Response) (i : Input)
    → HasHead i scratch head after status
    → (j : Input) × (flat j ≡ after)
      × (ending j ≡ ending i)
      × (read_response_buffered gunzip fuel scratch max_body method r i
          ≡ read_body gunzip fuel max_body method status head r j)
unfolding read_response_buffered
read_response_buffered_head gunzip fuel scratch max_body status method head after r i h =
    let (j, e, f, k) = read_head-find_header_end i (length head) scratch h.found h.fits in
    let cut : take (length head) (flat i) ≡ head =
      rw h.flat_is (take-append_of_length head after (length head) refl) in
    let tail : drop (length head) (flat i) ≡ after =
      rw h.flat_is (drop-append_of_length head after (length head) refl) in
    let e' = e ∙ ap (λ t. done (t, j)) cut in
    (j, f ∙ tail, k, rw (e', read_response_buffered) (rw (h.status_ok, read_response_buffered)))

-- A head that gives the length of its body, with no encoding to undo.
pub record HasLength (head payload : Bytes) (old : List Header) : Type 0 where
  pub not_chunked : parse_transfer_encoding head ≡ false
  pub length_read : parse_content_length head ≡ (length payload, true)
  pub int_sized : length payload ≤ safe_size
  pub not_gzip : is_gzip (parse_headers head old) ≡ false

read_body-length :
    (gunzip : Bytes → Gunzip) (fuel max_body status : ℕ) (method head payload : Bytes)
    (r : Response) (i : Input)
    → is_bodiless method status ≡ false
    → HasLength head payload r.headers
    → Within max_body (length payload)
    → read_body gunzip fuel max_body method status head r i
      ≡ read_length gunzip (pos (length payload)) (with_head r status head) i
unfolding read_body
read_body-length gunzip fuel max_body status method head payload r i b h w =
    let exact : to_int (length payload) ≡ pos (length payload) = ground (arith, h.int_sized) in
    let allowed : (ltb 0 max_body && ltb max_body (length payload)) ≡ false = ground arith in
    rw (b, h.not_chunked, h.length_read, exact, read_body) (rw allowed)

-- A response with a Content-Length, whose head fits the scratch buffer and whose body is within
-- both limits and of at most 2 ^ 62 - 2 ^ 16 bytes, is read whatever chunks it arrives in:
-- status, body and length are those sent, the fields are those that the header parser gives, and
-- exactly the bytes behind the body are left in the input for the next pipelined response. The
-- head must not announce chunks or gzip, and the status and method must allow a body.
pub read_response_buffered-Framed :
    (gunzip : Bytes → Gunzip) (fuel scratch max_body status : ℕ) (method head payload rest : Bytes)
    (r : Response) (i : Input)
    → HasHead i scratch head (payload ++ rest) status
    → is_bodiless method status ≡ false
    → HasLength head payload r.headers
    → Within max_body (length payload)
    → Within r.max_size (length payload)
    → Framed status
        (parse_headers head r.headers)
        payload
        rest
        i
        (read_response_buffered gunzip fuel scratch max_body method r i)
read_response_buffered-Framed gunzip fuel scratch max_body status method head payload rest r i h b l
      w w' =
    let (j, f, k, e) =
      read_response_buffered_head gunzip fuel scratch max_body status method head (payload ++ rest)
        r i h in
    let d =
      read_length-Framed gunzip payload rest (with_head r status head) j f l.int_sized w'
        l.not_gzip in
    rw (e, read_body-length gunzip fuel max_body status method head payload r j b l w)
      (record {
        input = d.input;
        ended = d.ended;
        status_is = d.status_is;
        headers_are = d.headers_are;
        body_is = d.body_is;
        length_is = d.length_is;
        unread = d.unread;
        end_kept = d.end_kept ∙ k;
      })

read_body_panics :
    (gunzip : Bytes → Gunzip) (fuel max_body status n : ℕ) (method head : Bytes) (r : Response)
    (i : Input)
    → is_bodiless method status ≡ false
    → parse_transfer_encoding head ≡ false
    → parse_content_length head ≡ (n, true)
    → 2 ^ 63 ≤ n
    → (read_body gunzip fuel max_body method status head r i).1 ≡ panics
unfolding read_body read_length ensure_buffer_size
read_body_panics gunzip fuel max_body status n method head r i b t l big =
    let negative : to_int n ≡ negsuc (2 ^ 64 - 1 - n) = ground arith in
    let allowed : (ltb 0 max_body && false) ≡ false = ground arith in
    rw (b, t, l, negative, read_body) (rw allowed)

-- Where the length read from the head is 2 ^ 63 or more as a bit pattern, and the body is
-- neither chunked nor excluded, the length is negative as an int, passes the limit and
-- ensureBufferSize, and the slice of the body panics.
pub read_response_buffered_panics :
    (gunzip : Bytes → Gunzip) (fuel scratch max_body status n : ℕ) (method head after : Bytes)
    (r : Response) (i : Input)
    → HasHead i scratch head after status
    → is_bodiless method status ≡ false
    → parse_transfer_encoding head ≡ false
    → parse_content_length head ≡ (n, true)
    → 2 ^ 63 ≤ n
    → (read_response_buffered gunzip fuel scratch max_body method r i).1 ≡ panics
read_response_buffered_panics gunzip fuel scratch max_body status n method head after r i h b t l
      big =
    let (j, f, k, e) =
      read_response_buffered_head gunzip fuel scratch max_body status method head after r i h in
    rw e (read_body_panics gunzip fuel max_body status n method head r j b t l big)
