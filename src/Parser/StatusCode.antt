-- ===== src/Parser/StatusCode.antt =====
-- `parseStatusCode` of parser.go. The code is returned also where the test fails.
pub mod Line
use bursthttp.Base.{
  ltb, leb, length, Bytes, ℕ, Bool, false, Option, none, some, skip_blanks, skip_token, ◌==◌,
  if◌then◌else◌, ◌+◌, ◌-◌, ◌*◌, ◌&&◌, ◌||◌, ◌∷◌,
}

-- The three digits at `buf[i:]`.
unfoldable pub status_digits : Bytes → ℕ × Bool
status_digits (a ∷ b ∷ c ∷ rest) =
    if ltb a b'1' || ltb b'9' a || ltb b b'0' || ltb b'9' b || ltb c b'0' || ltb b'9' c
    then (0, false)
    else let code = (a - b'0') * 100 + (b - b'0') * 10 + (c - b'0') in
      (code, leb 100 code && ltb code 600)
status_digits _ = (0, false)

-- The test of `buf[0]` to `buf[4]`.
unfoldable pub after_http : Bytes → Option Bytes
after_http (h ∷ t ∷ t' ∷ p ∷ s ∷ rest) =
    if h == b'H' && t == b'T' && t' == b'T' && p == b'P' && s == b'/' then some rest else none
after_http _ = none

unfoldable pub parse_status_code : Bytes → ℕ × Bool
parse_status_code buf = if ltb (length buf) 12 then (0, false) else elim (after_http buf) [
  | none ↦ (0, false)
  | some rest ↦ status_digits (skip_blanks (skip_token rest))
]
