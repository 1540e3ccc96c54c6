-- ===== src/Parser/Direct/Whole.antt =====
-- `readResponse` of parser.go on a response of known length: all of it, or cut off.
use bursthttp.Base.{
  ltb, length, length-append, take, drop, take-append_of_length, drop-append_of_length,
  append-split, Bytes, ℕ, suc, refl, sym, ap, true, false, some, [], arith, pos, to_int, ◌^◌, ◌≤◌,
  ◌<◌, ◌≡◌, ◌∙◌, ◌++◌,
}
use bursthttp.Input.{Input, Outcome, done, failed}
use bursthttp.Input.Flat.{flat, ending}
use bursthttp.Response.{Response}
use bursthttp.Parser.HeaderEnd.{find_header_end}
use bursthttp.Parser.StatusCode.{parse_status_code}
use bursthttp.Parser.ContentLength.{parse_content_length}
use bursthttp.Parser.TransferEncoding.{parse_transfer_encoding}
use bursthttp.Parser.Headers.{parse_headers}
use bursthttp.Parser.Buffered.{with_head, is_bodiless}
use bursthttp.Parser.Chunked.Place.{Within}
use bursthttp.Parser.Direct.{
  read_length_from, read_body_from, read_response, chunk_or_default, read_until_head,
}
use bursthttp.Response.Buffer.{safe_size}
use bursthttp.Parser.Direct.Body.{Read, read_length_from-Read, read_length_from-cut}
use bursthttp.Parser.Direct.Head.{find_header_end_nothing, NoEmpty, read_until_head-HeadRead}

-- A head that ends where it should and gives the length of the body.
pub record Announces (method head : Bytes) (n status : ℕ) : Type 0 where
  pub status_ok : parse_status_code head ≡ (status, true)
  pub has_body : is_bodiless method status ≡ false
  pub not_chunked : parse_transfer_encoding head ≡ false
  pub length_read : parse_content_length head ≡ (n, true)
  pub sized : n ≤ safe_size

chunk_positive : (size : ℕ) → 0 < chunk_or_default size
chunk_positive size = ground arith

body_read :
    (fuel max_body size status n : ℕ) (method head after : Bytes) (r : Response) (i : Input)
    → parse_content_length head ≡ (n, true)
    → is_bodiless method status ≡ false
    → parse_transfer_encoding head ≡ false
    → n ≤ max_body
    → max_body < 2 ^ 63
    → read_body_from fuel max_body size method status head after r i
      ≡ read_length_from (chunk_or_default size) (pos n) after (with_head r status head) i
unfolding read_body_from
body_read fuel max_body size status n method head after r i e b t l m =
    let exact : to_int n ≡ pos n = ground (arith, l, m) in
    let allowed : ltb max_body n ≡ false = ground (arith, l) in
    rw (b, t, e, exact, read_body_from) (rw allowed refl)

-- The loop over the head ends at its end, with part of what follows.
record Headed (head rest : Bytes) (i : Input) (out : Outcome (ℕ × Bytes × Input)) : Type 0 where
  seen : Bytes
  after : Bytes
  left : Input
  result : out ≡ done (length head, seen, left)
  cut : take (length head) seen ≡ head
  tail : drop (length head) seen ≡ after
  splits : after ++ flat left ≡ rest
  no_empty : NoEmpty left
  same_end : ending left ≡ ending i

headed :
    (buf_len read_size : ℕ) (head rest : Bytes) (i : Input)
    → flat i ≡ head ++ rest
    → NoEmpty i
    → 0 < read_size
    → find_header_end (head ++ rest) ≡ some (length head)
    → length head ≤ buf_len
    → Headed head rest i (read_until_head (suc buf_len) buf_len read_size [] i)
headed buf_len read_size head rest i f ne p e l =
    let q =
      read_until_head-HeadRead (suc buf_len) buf_len read_size (length head) [] (head ++ rest) i p
        ne f e find_header_end_nothing l (omega arith) in
    let (after, s, t) = append-split head rest q.seen (flat q.left) q.enough (sym q.splits) in
    record {
      seen = q.seen;
      after = after;
      left = q.left;
      result = q.result;
      cut = rw s (take-append_of_length head after (length head) refl);
      tail = rw s (drop-append_of_length head after (length head) refl);
      splits = sym t;
      no_empty = q.no_empty;
      same_end = q.same_end;
    }

-- Where a connection delivers, in any segments that are not empty, a head that fits the buffer,
-- ends first where it should and announces the length of what follows, within the limits and at
-- most 2 ^ 62 - 2 ^ 16, with a body allowed and not chunked, readResponse gives that status,
-- those fields and that body, and reads to the end of the body.
pub read_response-Read :
    (fuel buf_len max_body header_read_size body_read_size status : ℕ) (method head payload : Bytes)
    (r : Response) (i : Input)
    → flat i ≡ head ++ payload
    → NoEmpty i
    → 0 < header_read_size
    → find_header_end (head ++ payload) ≡ some (length head)
    → length head ≤ buf_len
    → Announces method head (length payload) status
    → length payload ≤ max_body
    → max_body < 2 ^ 63
    → Within r.max_size (length payload)
    → Read status
        (parse_headers head r.headers)
        payload
        i
        (read_response fuel buf_len max_body method header_read_size body_read_size r i)
unfolding read_response
read_response-Read fuel buf_len max_body header_read_size body_read_size status method head payload
      r i f ne p e l a lm mm w =
    let q = headed buf_len header_read_size head payload i f ne p e l in
    let b =
      read_length_from-Read (chunk_or_default body_read_size) payload q.after
        (with_head r status head) q.left (chunk_positive body_read_size) q.no_empty q.splits a.sized
        w in
    rw
      (
        q.result,
        q.cut,
        q.tail,
        a.status_ok,
        body_read fuel max_body body_read_size status (length payload) method head q.after r q.left
            a.length_read a.has_body a.not_chunked lm mm,
      )
      (record {
        input = b.input;
        ended = b.ended;
        status_is = b.status_is;
        headers_are = b.headers_are;
        body_is = b.body_is;
        length_is = b.length_is;
        unread = b.unread;
        end_kept = b.end_kept ∙ q.same_end;
      })

-- Cut off.
pub read_response-cut :
    (fuel buf_len max_body header_read_size body_read_size status n : ℕ) (method head part : Bytes)
    (r : Response) (i : Input)
    → flat i ≡ head ++ part
    → NoEmpty i
    → 0 < header_read_size
    → find_header_end (head ++ part) ≡ some (length head)
    → length head ≤ buf_len
    → Announces method head n status
    → length part < n
    → n ≤ max_body
    → max_body < 2 ^ 63
    → Within r.max_size n
    → ((read_response fuel buf_len max_body method header_read_size body_read_size r i).1
        ≡ failed (ending i))
      × ((read_response fuel buf_len max_body method header_read_size body_read_size r
            i).0.status_code
          ≡ status)
unfolding read_response
read_response-cut fuel buf_len max_body header_read_size body_read_size status n method head part r
      i f ne p e l a lp lm mm w =
    let q = headed buf_len header_read_size head part i f ne p e l in
    let (b, s) =
      read_length_from-cut (chunk_or_default body_read_size) n q.after (with_head r status head)
        q.left (chunk_positive body_read_size) q.no_empty
        (omega (arith, lp, ap length q.splits, length-append q.after (flat q.left))) a.sized w in
    rw
      (
        q.result,
        q.cut,
        q.tail,
        a.status_ok,
        body_read fuel max_body body_read_size status n method head q.after r q.left a.length_read
            a.has_body a.not_chunked lm mm,
      )
      (b ∙ ap failed q.same_end, s)
