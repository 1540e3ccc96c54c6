-- ===== src/Parser/HeaderEnd.antt =====
-- `findHeaderEnd` of parser.go. The loop's index stands beside the bytes from it on, and its -1 is
-- `none`.
pub mod First
pub mod Found
use bursthttp.Base.{Bytes, cr, lf, ℕ, Option, none, some, ◌==◌, if◌then◌else◌, ◌+◌, ◌&&◌, ◌∷◌}

-- The loop `for i := 0; i+3 < len(buf); i++` from index `i`, with its jump over "\r\n".
unfoldable pub header_end_from : ℕ → Bytes → Option ℕ
header_end_from i (a ∷ b ∷ c ∷ d ∷ rest) =
    let jump = header_end_from (i + 2) (c ∷ d ∷ rest) in
    let step = header_end_from (i + 1) (b ∷ c ∷ d ∷ rest) in
    if a == cr
    then (if b == lf && c == cr && d == lf then some (i + 4) else if b == lf then jump else step)
    else step
header_end_from i _ = none

-- The early return for `len(buf) < 4` is the catch-all above.
unfoldable pub find_header_end : Bytes → Option ℕ
unfolding header_end_from
find_header_end buf = header_end_from 0 buf
