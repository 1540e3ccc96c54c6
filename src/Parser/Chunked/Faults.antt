-- ===== src/Parser/Chunked/Faults.antt =====
-- What `readChunkedBody` does with a chunk that does not fit the buffer, or that no `int` counts.
use bursthttp.Base.{
  length, take, replicate, length-replicate, Bytes, ℕ, zero, suc, refl, ap, [], arith, pos, to_int,
  ◌+◌, ◌%◌, ◌^◌, ◌≤◌, ◌<◌, ◌≡◌, ◌∙◌, ◌∷◌, ◌++◌,
}
use bursthttp.Response.Buffer.{safe_size, ensure_buffer_size_grows}
use bursthttp.Parser.Chunked.Place.{Within}
use bursthttp.Input.Flat.{flat, read_exact-append}
use bursthttp.Input.{Input, panics, done, read_exact}
use bursthttp.Parser.Chunked.{read_chunk, place}
use bursthttp.Response.{has_room, Response, ensure_buffer_size}

-- A chunk size that takes the sum with the bytes stored past the largest int is refused neither
-- by the limit nor by the buffer, since both are compared with a negative number, and the slice
-- panics.
pub read_chunk_overflow :
    (max_body at n : ℕ) (r : Response) (i : Input)
    → at < 2 ^ 63
    → n < 2 ^ 63
    → 2 ^ 63 ≤ at + n
    → read_chunk max_body at n r i ≡ (r, panics)
unfolding read_chunk ensure_buffer_size
read_chunk_overflow max_body at n r i a b h = ground arith

take-replicate : (k n : ℕ) → k ≤ n → take k (replicate n 0) ≡ replicate {A = ℕ} k 0
take-replicate zero n h = refl
take-replicate (suc k) zero h = absurd (omega arith)
take-replicate (suc k) (suc n) h = ap (◌∷◌ 0) (take-replicate k n (omega arith))

take-take-append :
    (k n : ℕ) (xs ys : Bytes) → k ≤ n → k ≤ length xs → take k (take n xs ++ ys) ≡ take k xs
take-take-append zero n xs ys h l = refl
take-take-append (suc k) zero xs ys h l = absurd (omega arith)
take-take-append (suc k) (suc n) [] ys h l = absurd (omega arith)
take-take-append (suc k) (suc n) (x ∷ xs) ys h l =
    ap (◌∷◌ x) (take-take-append k n xs ys (omega arith) (omega arith))

read_chunk_grown :
    (max_body at n : ℕ) (bs : Bytes) (r r' : Response) (i j : Input)
    → at + n < 2 ^ 63
    → Within max_body (at + n)
    → ensure_buffer_size r (pos (at + n)) ≡ (r', has_room)
    → read_exact n i ≡ done (bs, j)
    → read_chunk max_body at n r i ≡ (place r' at bs, done j)
unfolding read_chunk
read_chunk_grown max_body at n bs r r' i j small within e d =
    let exact : to_int ((at + n) % 2 ^ 64) ≡ pos (at + n) = ground arith in
    rw (exact, read_chunk) (ground (arith, e, d))

-- A chunk within the limits, for which the body buffer must grow to at most 2 ^ 62 - 2 ^ 16
-- bytes, is read, but the bytes of the chunks before it are all replaced by zeros.
pub read_chunk_forgets :
    (max_body at : ℕ) (bs rest : Bytes) (r : Response) (i : Input)
    → flat i ≡ bs ++ rest
    → at ≤ length r.body_buf
    → length r.body_buf < at + length bs
    → at + length bs ≤ safe_size
    → Within max_body (at + length bs)
    → Within r.max_size (at + length bs)
    → (r' : Response) × (j : Input) × (read_chunk max_body at (length bs) r i ≡ (r', done j))
      × (take at r'.body_buf ≡ replicate at 0)
read_chunk_forgets max_body at bs rest r i h old grows small within within' =
    let (n, enough, grown) = ensure_buffer_size_grows r (at + length bs) grows small within' in
    let zeroed = record r { body_buf = replicate n 0 } in
    let (j, e, _, _) = read_exact-append (length bs) i bs rest refl h in
    (
      place zeroed at bs,
      j,
      read_chunk_grown max_body at (length bs) bs r zeroed i j (omega (arith, small)) within grown
          e,
      take-take-append at at (replicate n 0) _ (omega arith)
            (omega (arith, length-replicate {A = ℕ} n 0))
          ∙ take-replicate at n (omega arith),
    )
