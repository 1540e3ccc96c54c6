-- ===== src/Base/Ascii.antt =====
-- Bytes as numbers, Go strings as lists of them, and the ASCII case folding that parser.go and
-- response.go write out in each of their comparison loops.
use Prim.Native.Nat.{ℕ, ◌+◌, ◌<◌}
use Prim.Native.Char.{code}
use Prim.Native.String.{String}
use mathlib.Core.Bool.{Bool, true, false, ◌&&◌, ◌||◌}
use mathlib.Core.List.{List, [], ◌∷◌}
use mathlib.Core.Logic.{◌↔◌}
use mathlib.Core.Path.{◌≡◌}
use native.Mathlib.Omega.{arith}
use bursthttp.Base.Tests.{leb, ◌==◌, if◌then◌else◌}

abbrev pub Bytes : Type 0
Bytes = List ℕ

-- The code points of a literal, which are its bytes where the text is ASCII.
abbrev pub codes : String → Bytes
codes String.[] = []
codes (String.◌∷◌ c s) = code c ∷ codes s

abbrev pub cr : ℕ
cr = b'\r'

abbrev pub lf : ℕ
lf = b'\n'

abbrev pub crlf : Bytes
crlf = b'\r' ∷ b'\n' ∷ []

-- `ch == ' ' || ch == '\t'`
abbrev pub is_blank : ℕ → Bool
is_blank c = c == b' ' || c == b'\t'

abbrev pub is_digit : ℕ → Bool
is_digit c = leb b'0' c && leb c b'9'

-- `if ch >= 'A' && ch <= 'Z' { ch += 32 }`
abbrev pub fold_byte : ℕ → ℕ
fold_byte c = if leb b'A' c && leb c b'Z' then c + 32 else c

-- A predicate on every byte.
abbrev pub All {ℓ κ} : {A : Type ℓ} → (A → Type κ) → List A → Type κ
All P [] = Unit
All P (x ∷ xs) = P x × All P xs

abbrev pub IsByte : ℕ → Type 0
IsByte c = c < 256

-- `==` on Go strings.
unfoldable pub eq_bytes : Bytes → Bytes → Bool
eq_bytes [] [] = true
eq_bytes (c ∷ s) (d ∷ t) = if c == d then eq_bytes s t else false
eq_bytes _ _ = false

pub eq_bytes_iff : (s t : Bytes) → (eq_bytes s t ≡ true) ↔ (s ≡ t)
unfolding eq_bytes
eq_bytes_iff (c ∷ s) (d ∷ t) = ground (arith, eq_bytes_iff s t)
eq_bytes_iff [] _ = ground arith
eq_bytes_iff _ [] = ground arith
