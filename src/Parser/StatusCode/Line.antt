-- ===== src/Parser/StatusCode/Line.antt =====
-- `parseStatusCode` on a status line, and the codes that it accepts.
use bursthttp.Base.{
  ltb, Bool-cases, Option-cases, length, length-append, Bytes, codes, is_blank, All, ℕ, refl, inl,
  inr, true, false, [], arith, skip_blanks, skip_token, ◌+◌, ◌/◌, ◌%◌, ◌≤◌, ◌<◌, ◌≡◌, ◌∷◌, ◌++◌,
}
use bursthttp.Parser.Fields.{skip_blanks-append}
use bursthttp.Parser.StatusCode.{parse_status_code, status_digits, after_http}

abbrev pub IsToken : ℕ → Type 0
IsToken c = is_blank c ≡ false

-- A status line: "HTTP/", a version with no blank, a space, three digits, and the rest of the head.
abbrev pub status_line : Bytes → ℕ → Bytes → Bytes
status_line version code rest =
    codes "HTTP/"
    ++ (version ++ b' ' ∷ (b'0' + code / 100) ∷ (b'0' + code / 10 % 10) ∷ (b'0' + code % 10) ∷ rest)

skip_token-append :
    (version rest : Bytes) (c : ℕ)
    → All IsToken version
    → is_blank c ≡ true
    → skip_token (version ++ c ∷ rest) ≡ c ∷ rest
unfolding skip_token
skip_token-append [] rest c h b = rw b
skip_token-append (v ∷ version) rest c (h, hs) b = rw h (skip_token-append version rest c hs b)

status_digits_line :
    (code : ℕ) (rest : Bytes)
    → 100 ≤ code
    → code < 1000
    → status_digits ((b'0' + code / 100) ∷ (b'0' + code / 10 % 10) ∷ (b'0' + code % 10) ∷ rest)
      ≡ (code, ltb code 600)
unfolding status_digits
status_digits_line code rest lo hi = ground arith

-- The code between 100 and 999 of a status line of at least twelve bytes, with any version that
-- has no blank, is read, and accepted exactly if it is below 600.
pub parse_status_code-status_line :
    (version rest : Bytes) (code : ℕ)
    → All IsToken version
    → 100 ≤ code
    → code < 1000
    → 3 ≤ length version + length rest
    → parse_status_code (status_line version code rest) ≡ (code, ltb code 600)
unfolding parse_status_code after_http
parse_status_code-status_line version rest code v lo hi l =
    let digits = (b'0' + code / 100) ∷ (b'0' + code / 10 % 10) ∷ (b'0' + code % 10) ∷ rest in
    let enough : ltb (length (status_line version code rest)) 12 ≡ false =
      ground (arith, length-append version (b' ' ∷ digits)) in
    let first : is_blank (b'0' + code / 100) ≡ false = ground arith in
    rw
      (
        enough,
        skip_token-append version digits b' ' v refl,
        skip_blanks-append (b' ' ∷ []) (b'0' + code / 100)
            ((b'0' + code / 10 % 10) ∷ (b'0' + code % 10) ∷ rest) (refl, tt) first,
      )
      (status_digits_line code rest lo hi)

status_digits_bounds :
    (s : Bytes) (code : ℕ) → status_digits s ≡ (code, true) → (100 ≤ code) × (code < 600)
unfolding status_digits
status_digits_bounds (a ∷ b ∷ c ∷ s) code h = ground arith
status_digits_bounds [] code h = cc
status_digits_bounds (a ∷ []) code h = cc
status_digits_bounds (a ∷ b ∷ []) code h = cc

-- A status code that parseStatusCode accepts is at least 100 and below 600, and the buffer has
-- at least twelve bytes.
pub parse_status_code_bounds :
    (buf : Bytes) (code : ℕ)
    → parse_status_code buf ≡ (code, true)
    → (100 ≤ code) × (code < 600) × (12 ≤ length buf)
unfolding parse_status_code
parse_status_code_bounds buf code h = elim (Bool-cases (ltb (length buf) 12)) [
  | inl short ↦ cc (rw short at h)
  | inr long ↦ elim (Option-cases (after_http buf)) [
    | inl e ↦ cc (rw (long, e) at h)
    | inr (rest, e) ↦
        let (lo, hi) =
          status_digits_bounds (skip_blanks (skip_token rest)) code (rw (long, e) at h) in
        (lo, hi, ground arith)
  ]
]
