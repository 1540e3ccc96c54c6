-- ===== src/Parser/ContentLength/Value.antt =====
-- What `parseContentLength` reads from a well-formed field, and what it makes of a large one.
use bursthttp.Base.{
  ltb, length, drop-append_of_length, Bytes, cr, is_blank, is_digit, fold_byte, All, ℕ, refl, true,
  false, [], arith, skip_blanks, ◌==◌, ◌+◌, ◌-◌, ◌*◌, ◌%◌, ◌^◌, ◌≡◌, ◌∙◌, ◌||◌, ◌∷◌, ◌++◌,
}
use bursthttp.Parser.Fields.{
  Spells, Misses, IsBlank, match_fold-Spells, skip_blanks-append, Spells-length,
}
use bursthttp.Parser.ContentLength.{content_length_name, length_value, parse_content_length}

abbrev pub IsDigit : ℕ → Type 0
IsDigit c = is_digit c ≡ true

-- The number that digits spell behind `n`, with no bound.
abbrev pub decimal : ℕ → Bytes → ℕ
decimal n [] = n
decimal n (c ∷ cs) = decimal (n * 10 + (c - b'0')) cs

length_value-decimal :
    (ds rest : Bytes) (n k : ℕ)
    → All IsDigit ds
    → length_value (ds ++ cr ∷ rest) (n % 2 ^ 64) k ≡ (decimal n ds % 2 ^ 64, ltb 0 (k + length ds))
unfolding length_value
length_value-decimal [] rest n k h = ground arith
length_value-decimal (c ∷ ds) rest n k (h, hs) =
    let step : (n % 2 ^ 64 * 10 + (c - b'0')) % 2 ^ 64 ≡ (n * 10 + (c - b'0')) % 2 ^ 64 =
      omega arith in
    rw h (rw (step, length_value-decimal ds rest (n * 10 + (c - b'0')) (k + 1) hs) (ground arith))

-- Past the bytes before the field, the search is at the field.
parse_content_length-Misses :
    (pre rest : Bytes)
    → Misses content_length_name pre rest
    → parse_content_length (pre ++ rest) ≡ parse_content_length rest
unfolding parse_content_length
parse_content_length-Misses [] rest h = refl
parse_content_length-Misses (c ∷ pre) rest (h, hs) =
    ground (arith, h, parse_content_length-Misses pre rest hs)

starts_c : (c : ℕ) → fold_byte c ≡ b'c' → (c == b'c' || c == b'C') ≡ true
starts_c c h = ground arith

parse_content_length_at :
    (name rest : Bytes)
    → Spells content_length_name name
    → parse_content_length (name ++ rest) ≡ length_value (skip_blanks rest) 0 0
unfolding parse_content_length
parse_content_length_at [] rest h = elim h [ ]
parse_content_length_at (c ∷ name) rest h = rw (
  match_fold-Spells content_length_name (c ∷ name) rest h,
  starts_c c h.0,
  drop-append_of_length (c ∷ name) rest 15 (Spells-length content_length_name (c ∷ name) h),
)

not_blank : (d : ℕ) → IsDigit d → is_blank d ≡ false
not_blank d h = ground arith

-- From a field that is the first of its name in the buffer, spelled in any case, with blanks
-- before the digits and CR behind them, parseContentLength reads the number that the digits
-- spell, modulo 2 ^ 64.
pub parse_content_length_field :
    (pre name blanks : Bytes) (d : ℕ) (ds rest : Bytes)
    → Misses content_length_name pre (name ++ (blanks ++ d ∷ (ds ++ cr ∷ rest)))
    → Spells content_length_name name
    → All IsBlank blanks
    → All IsDigit (d ∷ ds)
    → parse_content_length (pre ++ (name ++ (blanks ++ d ∷ (ds ++ cr ∷ rest))))
      ≡ (decimal 0 (d ∷ ds) % 2 ^ 64, true)
parse_content_length_field pre name blanks d ds rest m sp bl dg =
    parse_content_length-Misses pre _ m
    ∙ parse_content_length_at name _ sp
    ∙ rw (skip_blanks-append blanks d (ds ++ cr ∷ rest) bl (not_blank d dg.0))
        (ground (arith, length_value-decimal (d ∷ ds) rest 0 0 dg))
