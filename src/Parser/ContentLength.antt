-- ===== src/Parser/ContentLength.antt =====
-- `parseContentLength` of parser.go. Go's `int` has 64 bits: the sum wraps around, and is kept here
-- as its bit pattern, below 2 ^ 64.
pub mod Value
use bursthttp.Base.{
  ltb, drop, Bytes, codes, cr, lf, is_blank, is_digit, ℕ, Bool, false, [], match_fold, skip_blanks,
  ◌==◌, if◌then◌else◌, ◌+◌, ◌-◌, ◌*◌, ◌%◌, ◌^◌, ◌&&◌, ◌||◌, ◌∷◌,
}

abbrev pub content_length_name : Bytes
content_length_name = codes "content-length:"

-- The loop `for start < len(buf)` over the value, with `length` and `digits`.
unfoldable pub length_value : Bytes → ℕ → ℕ → ℕ × Bool
length_value [] n digits = (n, ltb 0 digits)
length_value (c ∷ cs) n digits =
    let digit = length_value cs ((n * 10 + (c - b'0')) % 2 ^ 64) (digits + 1) in
    let blank = length_value cs n digits in
    if is_digit c
    then digit
    else if c == cr || c == lf
    then (n, ltb 0 digits)
    else if is_blank c
    then blank
    else (0, false)

-- The loop over `i`. A match needs `i + headerLen <= len(buf)`, or `match_fold` fails.
unfoldable pub parse_content_length : Bytes → ℕ × Bool
unfolding length_value match_fold skip_blanks
parse_content_length [] = (0, false)
parse_content_length (b ∷ rest) =
    if (b == b'c' || b == b'C') && match_fold content_length_name (b ∷ rest)
    then length_value (skip_blanks (drop 15 (b ∷ rest))) 0 0
    else parse_content_length rest
