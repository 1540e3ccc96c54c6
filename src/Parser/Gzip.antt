-- ===== src/Parser/Gzip.antt =====
-- `decompressBody` of parser.go. The decompressor is `compress/gzip`, and a parameter.
use mathlib.Core.List.{reverse}
use bursthttp.Base.{
  ltb, leb, length, take, drop, Bytes, codes, ℕ, Bool, false, List, [], pos, ◌==◌, if◌then◌else◌,
  ◌&&◌, ◌||◌, ◌∷◌, ◌++◌,
}
use bursthttp.Errors.{Error, wrap_error, protocol_error}
use bursthttp.Input.{Outcome, done, failed, panics}
use bursthttp.Response.{Growth, has_room, refused, overflows, Response, body, ensure_buffer_size}
use bursthttp.Response.Lookup.{Header, equal_fold}

-- What `gzip.NewReader` and `io.ReadAll` make of some bytes.
pub data Gunzip : Type 0 where
  bad_header : Error → Gunzip
  bad_data : Error → Gunzip
  inflated : Bytes → Gunzip

-- The spaces of ASCII that `strings.TrimSpace` removes.
abbrev pub is_space : ℕ → Bool
is_space c = leb 9 c && leb c 13 || c == b' '

unfoldable pub skip_spaces : Bytes → Bytes
skip_spaces [] = []
skip_spaces (c ∷ cs) = if is_space c then skip_spaces cs else c ∷ cs

abbrev pub trim_space : Bytes → Bytes
trim_space s = reverse (skip_spaces (reverse (skip_spaces s)))

-- The loop for `isGzip`. No letter of the two constants has a case fold outside ASCII.
unfoldable pub is_gzip : List Header → Bool
is_gzip [] = false
is_gzip (h ∷ hs) =
    equal_fold h.key (codes "Content-Encoding") && equal_fold (trim_space h.value) (codes "gzip")
    || is_gzip hs

abbrev pub store : Response → Bytes → Response
store r bs = record r {
  body_buf = bs ++ drop (length bs) r.body_buf;
  body_len = length bs;
  content_length = pos (length bs);
}

-- The copy into the buffer. Where `ensureBufferSize` gives false, the data is cut to the buffer.
abbrev pub store_sized : Bytes → Response × Growth → Response × Outcome {0} Unit
store_sized bs (r, has_room) = (store r bs, done tt)
store_sized bs (r, refused) = (store r (take (length r.body_buf) bs), done tt)
store_sized bs (r, overflows) = (r, panics)

unfoldable pub decompress_body : (Bytes → Gunzip) → Response → Response × Outcome {0} Unit
decompress_body gunzip r =
    if ltb 0 r.body_len && is_gzip r.headers
    then elim (gunzip (body r)) [
      | bad_header e ↦ (r, failed (wrap_error protocol_error "gzip reader init failed" e))
      | bad_data e ↦ (r, failed (wrap_error protocol_error "gzip decompression failed" e))
      | inflated bs ↦ store_sized bs (ensure_buffer_size r (pos (length bs)))
    ]
    else (r, done tt)
