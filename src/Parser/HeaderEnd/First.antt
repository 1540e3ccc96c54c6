-- ===== src/Parser/HeaderEnd/First.antt =====
-- `findHeaderEnd` stops behind the first "\r\n\r\n", although it jumps over line ends.
use bursthttp.Base.{
  Bytes, cr, lf, ℕ, refl, Bool, false, Option, none, some, [], arith, ◌==◌, if◌then◌else◌, ◌+◌, ◌≡◌,
  ◌&&◌, ◌∷◌, ◌++◌,
}
use bursthttp.Parser.HeaderEnd.{header_end_from, find_header_end}

-- The bytes begin with "\r\n\r\n".
abbrev pub ends_head : Bytes → Bool
ends_head (a ∷ b ∷ c ∷ d ∷ _) = a == cr && b == lf && c == cr && d == lf
ends_head _ = false

-- The plain search: every index in turn.
unfoldable pub first_end : ℕ → Bytes → Option ℕ
first_end i [] = none
first_end i (a ∷ rest) = if ends_head (a ∷ rest) then some (i + 4) else first_end (i + 1) rest

header_end_from-first_end : (buf : Bytes) (i : ℕ) → header_end_from i buf ≡ first_end i buf
unfolding header_end_from first_end
header_end_from-first_end (a ∷ b ∷ c ∷ d ∷ rest) i = ground (
  arith,
  header_end_from-first_end (c ∷ d ∷ rest) (i + 2),
  header_end_from-first_end (b ∷ c ∷ d ∷ rest) (i + 1),
)
header_end_from-first_end _ i = refl

-- findHeaderEnd, which jumps over line ends, gives the same as the search that tries every index
-- in turn.
pub find_header_end-first_end : (buf : Bytes) → find_header_end buf ≡ first_end 0 buf
unfolding find_header_end
find_header_end-first_end buf = header_end_from-first_end buf 0

-- What follows a head does not change where it ends.
header_end_from-append :
    (buf more : Bytes) (i n : ℕ)
    → header_end_from i buf ≡ some n
    → header_end_from i (buf ++ more) ≡ some n
unfolding header_end_from
header_end_from-append (a ∷ b ∷ c ∷ d ∷ rest) more i n h = ground (
  arith,
  header_end_from-append (c ∷ d ∷ rest) more (i + 2) n,
  header_end_from-append (b ∷ c ∷ d ∷ rest) more (i + 1) n,
)
header_end_from-append [] more i n h = cc
header_end_from-append (a ∷ []) more i n h = cc
header_end_from-append (a ∷ b ∷ []) more i n h = cc
header_end_from-append (a ∷ b ∷ c ∷ []) more i n h = cc

pub find_header_end-append :
    (buf more : Bytes) (n : ℕ)
    → find_header_end buf ≡ some n
    → find_header_end (buf ++ more) ≡ some n
unfolding find_header_end
find_header_end-append buf more n h = header_end_from-append buf more 0 n h
