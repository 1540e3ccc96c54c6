-- ===== src/Parser/Headers/Render.antt =====
-- A head whose fields are written as `SetHeader` of request.go writes them is parsed back.
use bursthttp.Base.{
  length, length-append, Bytes, cr, lf, All, ℕ, zero, suc, refl, true, some, List, [], arith,
  skip_blanks, trim, nonempty, ◌+◌, ◌≤◌, ◌<◌, ◌≡◌, ◌≢◌, ◌∷◌, ◌++◌,
}
use bursthttp.Response.Lookup.{Header}
use bursthttp.Parser.Headers.{
  split_line, header_lines, header_of, split_colon, field_of, parse_headers,
}

abbrev pub NoCr : Bytes → Type 0
NoCr = All (λ c. c ≢ cr)

abbrev pub NoColon : Bytes → Type 0
NoColon = All (λ c. c ≢ b':')

-- "Key: Value\r\n"
abbrev pub field_line : Header → Bytes
field_line h = h.key ++ b':' ∷ b' ' ∷ h.value

abbrev pub render : List Header → Bytes → Bytes
render [] rest = rest
render (h ∷ hs) rest = field_line h ++ cr ∷ lf ∷ render hs rest

-- A field that survives the trip: neither part is empty or has blanks at an end or a CR, and the
-- key has no colon.
pub record IsField (h : Header) : Type 0 where
  pub key_nonempty : nonempty h.key ≡ true
  pub key_trimmed : trim h.key ≡ h.key
  pub key_no_cr : NoCr h.key
  pub key_no_colon : NoColon h.key
  pub value_nonempty : nonempty h.value ≡ true
  pub value_trimmed : trim h.value ≡ h.value
  pub value_no_cr : NoCr h.value

pub split_line-append :
    (line rest : Bytes) → NoCr line → split_line (line ++ cr ∷ lf ∷ rest) ≡ some (line, rest)
unfolding split_line
split_line-append [] rest h = refl
split_line-append (a ∷ []) rest h = ground arith
split_line-append (a ∷ b ∷ line) rest h = ground (arith, h.0, split_line-append (b ∷ line) rest h.1)

split_colon-append :
    (key value : Bytes) → NoColon key → split_colon (key ++ b':' ∷ value) ≡ some (key, value)
unfolding split_colon
split_colon-append [] value h = refl
split_colon-append (c ∷ key) value h = ground (arith, h.0, split_colon-append key value h.1)

NoCr-append : (xs ys : Bytes) → NoCr xs → NoCr ys → NoCr (xs ++ ys)
NoCr-append [] ys h k = k
NoCr-append (x ∷ xs) ys h k = (h.0, NoCr-append xs ys h.1 k)

trim_space : (s : Bytes) → trim (b' ' ∷ s) ≡ trim s
unfolding trim skip_blanks
trim_space s = refl

field_of-field_line : (h : Header) → IsField h → field_of (field_line h) ≡ some h
unfolding field_of
field_of-field_line h f =
    rw (split_colon-append h.key (b' ' ∷ h.value) f.key_no_colon, field_of)
      (rw (f.key_nonempty, f.key_trimmed, trim_space h.value, f.value_trimmed))

header_of-field_line : (h : Header) → IsField h → header_of (field_line h) ≡ h ∷ []
unfolding header_of
header_of-field_line h f =
    rw (field_of-field_line h f, header_of) (rw (f.key_nonempty, f.value_nonempty))

NoCr-field_line : (h : Header) → IsField h → NoCr (field_line h)
NoCr-field_line h f =
    NoCr-append h.key (b':' ∷ b' ' ∷ h.value) f.key_no_cr
      ((λ e. absurd (omega arith)), ((λ e. absurd (omega arith)), f.value_no_cr))

nonempty-append : (xs ys : Bytes) → nonempty xs ≡ true → nonempty (xs ++ ys) ≡ true
nonempty-append [] ys h = cc
nonempty-append (x ∷ xs) ys h = refl

nonempty-field_line : (h : Header) → IsField h → nonempty (field_line h) ≡ true
nonempty-field_line h f = nonempty-append h.key (b':' ∷ b' ' ∷ h.value) f.key_nonempty

split_line-field_line :
    (h : Header) (rest : Bytes)
    → IsField h
    → split_line (field_line h ++ cr ∷ lf ∷ rest) ≡ some (field_line h, rest)
split_line-field_line h rest f = split_line-append (field_line h) rest (NoCr-field_line h f)

header_lines-render :
    (hs : List Header) (fuel : ℕ) (rest : Bytes)
    → All IsField hs
    → length hs < fuel
    → header_lines fuel (render hs (cr ∷ lf ∷ rest)) ≡ hs
unfolding header_lines
header_lines-render [] zero rest f l = absurd (omega arith)
header_lines-render [] (suc fuel) rest f l = rw (split_line-append [] rest tt, header_lines)
header_lines-render (h ∷ hs) zero rest f l = absurd (omega arith)
header_lines-render (h ∷ hs) (suc fuel) rest (f, fs) l =
    rw (split_line-field_line h (render hs (cr ∷ lf ∷ rest)) f, header_lines)
      (rw (
        nonempty-field_line h f,
        header_of-field_line h f,
        header_lines-render hs fuel rest fs (omega arith),
      ))

length-render :
    (hs : List Header) (rest : Bytes) → length hs + length rest ≤ length (render hs rest)
length-render [] rest = omega arith
length-render (h ∷ hs) rest =
    omega (arith, length-append (field_line h) (cr ∷ lf ∷ render hs rest), length-render hs rest)

pub nonempty_of_length : (s : Bytes) → 0 < length s → nonempty s ≡ true
nonempty_of_length [] h = absurd (omega arith)
nonempty_of_length (c ∷ s) h = refl

-- A status line without CR, well-formed fields written one per line, and the blank line are
-- parsed into exactly those fields, whatever fields the response had before and whatever follows
-- the head.
pub parse_headers-render :
    (line : Bytes) (hs old : List Header) (rest : Bytes)
    → NoCr line
    → All IsField hs
    → parse_headers (line ++ cr ∷ lf ∷ render hs (cr ∷ lf ∷ rest)) old ≡ hs
unfolding parse_headers
parse_headers-render line hs old rest n f =
    let after = render hs (cr ∷ lf ∷ rest) in
    let long = length-render hs (cr ∷ lf ∷ rest) in
    rw (split_line-append line after n, parse_headers)
      (rw (nonempty_of_length after (omega (arith, long)))
        (header_lines-render hs (length after) rest f (omega (arith, long))))
