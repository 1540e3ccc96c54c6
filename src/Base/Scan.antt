-- ===== src/Base/Scan.antt =====
-- The small scanning loops that parser.go repeats: blanks, tokens, and a case-folded comparison.
use mathlib.Core.Bool.{Bool, true, false, ◌&&◌}
use mathlib.Core.List.{List, [], ◌∷◌, reverse}
use bursthttp.Base.Tests.{◌==◌, if◌then◌else◌}
use bursthttp.Base.Ascii.{Bytes, is_blank, fold_byte}

-- `for start < len(buf) && (buf[start] == ' ' || buf[start] == '\t') { start++ }`, as the bytes left.
unfoldable pub skip_blanks : Bytes → Bytes
skip_blanks [] = []
skip_blanks (c ∷ cs) = if is_blank c then skip_blanks cs else c ∷ cs

-- The same loop with the test turned round.
unfoldable pub skip_token : Bytes → Bytes
skip_token [] = []
skip_token (c ∷ cs) = if is_blank c then c ∷ cs else skip_token cs

-- Both ends of a slice, as the pairs of loops over `keyStart` and `keyEnd` trim them.
unfoldable pub trim : Bytes → Bytes
unfolding skip_blanks
trim s = reverse (skip_blanks (reverse (skip_blanks s)))

-- The loop over `j` that compares the bytes at `buf[i]` with a lower-case constant.
unfoldable pub match_fold : Bytes → Bytes → Bool
match_fold [] cs = true
match_fold (p ∷ ps) [] = false
match_fold (p ∷ ps) (c ∷ cs) = fold_byte c == p && match_fold ps cs

abbrev pub nonempty {ℓ} : {A : Type ℓ} → List A → Bool
nonempty [] = false
nonempty (x ∷ xs) = true
