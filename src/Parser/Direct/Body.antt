-- ===== src/Parser/Direct/Body.antt =====
-- A response of known length that `readResponse` of parser.go reads.
use bursthttp.Base.{
  length, length-append, take, drop, take-append_of_length, take_all, append-split, Bytes, ℕ, zero,
  suc, min, refl, sym, ap, List, [], append_assoc, append-nil, arith, pos, ◌+◌, ◌-◌, ◌≤◌, ◌<◌, ◌≡◌,
  ◌∙◌, ◌∷◌, ◌++◌,
}
use bursthttp.Input.{Input, Outcome, chunk, stop, done, failed, read}
use bursthttp.Input.Flat.{flat, ending}
use bursthttp.Response.{Response, body}
use bursthttp.Response.Lookup.{Header}
use bursthttp.Response.Buffer.{safe_size, ensure_buffer_size_fits}
use bursthttp.Parser.Chunked.{place}
use bursthttp.Parser.Chunked.Place.{take-place, length-place, Within}
use bursthttp.Parser.Direct.{read_rest, read_length_from}
use bursthttp.Parser.Direct.Head.{NoEmpty, read-Piece}

-- The buffer holds the bytes at their place, and the rest of the response is as it was.
record RestRead (offset : ℕ) (bs rest : Bytes) (r : Response) (i : Input)
    (out : Response × Outcome Input) : Type 0 where
  buf : Bytes
  left : Input
  result : out ≡ (record r { body_buf = buf }, done left)
  holds : take (offset + length bs) buf ≡ take offset r.body_buf ++ bs
  unread : flat left ≡ rest
  same_end : ending left ≡ ending i

nothing_left : (buf : Bytes) (offset : ℕ) → take (offset + 0) buf ≡ take offset buf ++ []
nothing_left buf offset = ap (λ n. take n buf) (omega arith) ∙ sym (append-nil (take offset buf))

-- What a read stored, and what the reads behind it stored.
joined :
    (r : Response) (offset : ℕ) (got mid bs buf : Bytes)
    → offset + length got ≤ length r.body_buf
    → bs ≡ got ++ mid
    → take (offset + length got + length mid) buf
      ≡ take (offset + length got) (place r offset got).body_buf ++ mid
    → take (offset + length bs) buf ≡ take offset r.body_buf ++ bs
joined r offset got mid bs buf fits e h =
    ap (λ n. take n buf) (omega (arith, ap length e, length-append got mid))
    ∙ h
    ∙ ap (λ t. t ++ mid) (take-place r offset got fits)
    ∙ append_assoc (take offset r.body_buf) got mid
    ∙ ap (◌++◌ (take offset r.body_buf)) (sym e)

read_rest-RestRead :
    (fuel size offset : ℕ) (bs rest : Bytes) (r : Response) (i : Input)
    → 0 < size
    → NoEmpty i
    → flat i ≡ bs ++ rest
    → offset + length bs ≤ length r.body_buf
    → length bs ≤ fuel
    → RestRead offset bs rest r i (read_rest fuel size (length bs) offset r i)
unfolding read_rest
read_rest-RestRead fuel size offset [] rest r i p ne h room l = record {
  buf = r.body_buf;
  left = i;
  result = refl;
  holds = nothing_left r.body_buf offset;
  unread = h;
  same_end = refl;
}
read_rest-RestRead zero size offset (b ∷ bs) rest r i p ne h room l = absurd (omega arith)
read_rest-RestRead (suc fuel) size offset (b ∷ bs) rest r i p ne h room l =
    let some_left : 0 < length (flat i) = omega (arith, ap length h) in
    let q = read-Piece (min (suc (length bs)) size) i (omega (arith, p)) ne some_left in
    let got : Bytes = q.first ∷ q.others in
    let (mid, e, f) =
      append-split got (flat q.left) (b ∷ bs) rest (omega (arith, q.short)) (sym q.splits ∙ h) in
    let size_is : suc (length bs) ≡ length got + length mid = ap length e ∙ length-append got mid in
    let rem : suc (length bs) - length got ≡ length mid = omega (arith, size_is) in
    let fits : offset + length got ≤ length r.body_buf = omega (arith, room, size_is) in
    let ih =
      read_rest-RestRead fuel size (offset + length got) mid rest (place r offset got) q.left p
        q.no_empty f (omega (arith, room, size_is, length-place r offset got fits))
        (omega (arith, l, size_is)) in
    rw (q.result, read_rest)
      (rw (rem, read_rest)
        (record {
          buf = ih.buf;
          left = ih.left;
          result = ih.result;
          holds = joined r offset got mid (b ∷ bs) ih.buf fits e ih.holds;
          unread = ih.unread;
          same_end = ih.same_end ∙ q.same_end;
        }))

-- The response is read: its status, fields and body, and nothing is left.
pub record Read (status : ℕ) (hs : List Header) (payload : Bytes) (i : Input)
    (out : Response × Outcome Input) : Type 0 where
  pub input : Input
  pub ended : out.1 ≡ done input
  pub status_is : out.0.status_code ≡ status
  pub headers_are : out.0.headers ≡ hs
  pub body_is : body out.0 ≡ payload
  pub length_is : out.0.content_length ≡ pos (length payload)
  pub unread : flat input ≡ []
  pub end_kept : ending input ≡ ending i

append-nothing : (xs ys : Bytes) → xs ++ ys ≡ [] → ys ≡ []
append-nothing [] ys h = h
append-nothing (x ∷ xs) ys h = cc

pub read_length_from-Read :
    (size : ℕ) (payload after : Bytes) (r : Response) (i : Input)
    → 0 < size
    → NoEmpty i
    → after ++ flat i ≡ payload
    → length payload ≤ safe_size
    → Within r.max_size (length payload)
    → Read r.status_code r.headers payload i
        (read_length_from size (pos (length payload)) after r i)
unfolding read_length_from
read_length_from-Read size [] after r i p ne h z w = record {
  input = i;
  ended = refl;
  status_is = refl;
  headers_are = refl;
  body_is = refl;
  length_is = refl;
  unread = append-nothing after (flat i) h;
  end_kept = refl;
}
read_length_from-Read size (b ∷ payload) after r i p ne h z w =
    let n : ℕ = suc (length payload) in
    let sized : Response = record r { content_length = pos n } in
    let (buf, e, enough) = ensure_buffer_size_fits sized n z w in
    let start : Response =
      place (record r { content_length = pos n; body_len = n; body_buf = buf }) 0 after in
    let k : length after + length (flat i) ≡ n =
      omega (arith, ap length h, length-append after (flat i)) in
    let all_here : take n after ≡ after = take_all after n (omega (arith, k)) in
    let rest_is : n - length after ≡ length (flat i) = omega (arith, k) in
    let q =
      read_rest-RestRead n size (length after) (flat i) [] start i p ne (sym (append-nil (flat i)))
        (omega (
          arith,
          k,
          enough,
          length-place (record r { content_length = pos n; body_len = n; body_buf = buf }) 0 after
              (omega (arith, k, enough)),
        ))
        (omega (arith, k)) in
    rw (e, read_length_from)
      (rw (all_here, rest_is)
        (record {
          input = q.left;
          ended = ap (λ (o : Response × Outcome Input). o.1) q.result;
          status_is = ap (λ (o : Response × Outcome Input). o.0.status_code) q.result;
          headers_are = ap (λ (o : Response × Outcome Input). o.0.headers) q.result;
          body_is =
              ap (λ (o : Response × Outcome Input). body o.0) q.result
              ∙ (ap (λ m. take m q.buf) (sym k)
                  ∙ q.holds
                  ∙ ap (λ t. t ++ flat i)
                      (take-append_of_length after (drop (0 + length after) buf) (length after)
                        refl)
                  ∙ h);
          length_is = ap (λ (o : Response × Outcome Input). o.0.content_length) q.result;
          unread = q.unread;
          end_kept = q.same_end;
        }))

-- The connection ends before the body does.
read_rest-cut :
    (fuel size n offset : ℕ) (r : Response) (i : Input)
    → 0 < size
    → NoEmpty i
    → length (flat i) < n
    → n ≤ fuel
    → ((read_rest fuel size n offset r i).1 ≡ failed (ending i))
      × ((read_rest fuel size n offset r i).0.status_code ≡ r.status_code)
unfolding read_rest read
read_rest-cut fuel size zero offset r i p ne h l = absurd (omega arith)
read_rest-cut zero size (suc n) offset r i p ne h l = absurd (omega arith)
read_rest-cut (suc fuel) size (suc n) offset r (stop e) p ne h l = (refl, refl)
read_rest-cut (suc fuel) size (suc n) offset r (chunk bs more) p ne h l =
    let here : 0 < length (flat (chunk bs more)) =
      omega (arith, ne.0, length-append bs (flat more)) in
    let q = read-Piece (min (suc n) size) (chunk bs more) (omega (arith, p)) ne here in
    let got : Bytes = q.first ∷ q.others in
    let size_is = ap length q.splits ∙ length-append got (flat q.left) in
    let (e, s) =
      read_rest-cut fuel size (suc n - length got) (offset + length got) (place r offset got) q.left
        p q.no_empty (omega (arith, h, size_is)) (omega (arith, l)) in
    rw (q.result, read_rest) (e ∙ ap failed q.same_end, s)

pub read_length_from-cut :
    (size n : ℕ) (after : Bytes) (r : Response) (i : Input)
    → 0 < size
    → NoEmpty i
    → length after + length (flat i) < n
    → n ≤ safe_size
    → Within r.max_size n
    → ((read_length_from size (pos n) after r i).1 ≡ failed (ending i))
      × ((read_length_from size (pos n) after r i).0.status_code ≡ r.status_code)
unfolding read_length_from
read_length_from-cut size zero after r i p ne h z w = absurd (omega arith)
read_length_from-cut size (suc n) after r i p ne h z w =
    let sized : Response = record r { content_length = pos (suc n) } in
    let (buf, e, enough) = ensure_buffer_size_fits sized (suc n) z w in
    let start : Response =
      place (record r { content_length = pos (suc n); body_len = suc n; body_buf = buf }) 0 after in
    let all_here : take (suc n) after ≡ after = take_all after (suc n) (omega (arith, h)) in
    rw (e, read_length_from)
      (rw all_here (
        read_rest-cut (suc n) size (suc n - length after) (length after) start i p ne
          (omega (arith, h)) (omega arith)))
