-- ===== src/Parser/TransferEncoding.antt =====
-- `containsChunked` and `parseTransferEncoding` of parser.go.
pub mod Sound
use bursthttp.Base.{
  length, drop, Bytes, codes, cr, lf, ℕ, zero, suc, Bool, true, false, [], match_fold, skip_blanks,
  ◌==◌, if◌then◌else◌, ◌+◌, ◌-◌, ◌&&◌, ◌||◌, ◌∷◌,
}

abbrev pub transfer_encoding_name : Bytes
transfer_encoding_name = codes "transfer-encoding:"

unfoldable pub contains_chunked : Bytes → Bool
contains_chunked [] = false
contains_chunked (b ∷ rest) = match_fold (codes "chunked") (b ∷ rest) || contains_chunked rest

-- `buf[start:end]`: the bytes before the next '\r' or '\n'.
unfoldable pub to_line_end : Bytes → Bytes
to_line_end [] = []
to_line_end (c ∷ cs) = if c == cr || c == lf then [] else c ∷ to_line_end cs

-- The loop over `i`; the first argument counts the bytes that `i = end` jumps over.
unfoldable pub transfer_from : ℕ → Bytes → Bool
transfer_from k [] = false
transfer_from (suc k) (b ∷ rest) = transfer_from k rest
transfer_from zero (b ∷ rest) =
    let value = skip_blanks (drop 18 (b ∷ rest)) in
    let line = to_line_end value in
    let jump = transfer_from (length (b ∷ rest) - length value + length line) rest in
    let step = transfer_from zero rest in
    if (b == b't' || b == b'T') && match_fold transfer_encoding_name (b ∷ rest)
    then (if contains_chunked line then true else jump)
    else step

unfoldable pub parse_transfer_encoding : Bytes → Bool
parse_transfer_encoding buf = transfer_from 0 buf
