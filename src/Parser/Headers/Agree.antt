-- ===== src/Parser/Headers/Agree.antt =====
-- `HeaderBytes`, which scans the raw head, against `Header`, which looks through the parsed fields.
use bursthttp.Base.{
  Bool-cases, Option-cases, length, Bytes, ℕ, zero, suc, refl, inl, inr, true, false, Option, none,
  some, List, [], arith, nonempty, if◌then◌else◌, ◌+◌, ◌≤◌, ◌≡◌, ◌&&◌, ◌∷◌, ◌++◌,
}
use bursthttp.Parser.Headers.Render.{nonempty_of_length}
use bursthttp.Parser.Headers.{
  split_line, raw_lines, header_lines, header_of, header_bytes_from_raw, field_of, parse_headers,
}
use bursthttp.Response.Lookup.{header, Header, has_header, equal_fold}

-- What the two say of one key. An empty value is no field to `parseHeaders`, so a line with one may
-- hide from `Header`, which then gives what a later line holds.
abbrev pub Agrees : Option Bytes → List Header → Bytes → Type 0
Agrees none hs key = (header hs key ≡ []) × (has_header hs key ≡ false)
Agrees (some []) hs key = Unit
Agrees (some (c ∷ v)) hs key = (header hs key ≡ c ∷ v) × (has_header hs key ≡ true)

Agrees-skip :
    (o : Option Bytes) (h : Header) (hs : List Header) (key : Bytes)
    → equal_fold h.key key ≡ false
    → Agrees o hs key
    → Agrees o (h ∷ hs) key
unfolding header has_header
Agrees-skip none h hs key e a = rw e a
Agrees-skip (some []) h hs key e a = tt
Agrees-skip (some (c ∷ v)) h hs key e a = rw e a

Agrees-hit :
    (v : Bytes) (h : Header) (hs : List Header) (key : Bytes)
    → h.value ≡ v
    → equal_fold h.key key ≡ true
    → Agrees (some v) (h ∷ hs) key
unfolding header has_header
Agrees-hit [] h hs key w e = tt
Agrees-hit (c ∷ v) h hs key w e = rw e (w, refl)

length-split_line :
    (buf line after : Bytes) → split_line buf ≡ some (line, after) → length after + 2 ≤ length buf
unfolding split_line
length-split_line [] line after h = cc
length-split_line (a ∷ []) line after h = cc
length-split_line (a ∷ b ∷ rest) line after h = elim (Option-cases (split_line (b ∷ rest))) [
  | inl e ↦ ground (arith, e)
  | inr ((l, r), e) ↦ ground (arith, e, length-split_line (b ∷ rest) l r e)
]

nonempty_fold : (k key : Bytes) → equal_fold k key ≡ true → nonempty key ≡ true → nonempty k ≡ true
unfolding equal_fold
nonempty_fold [] [] h n = n
nonempty_fold [] (c ∷ key) h n = cc
nonempty_fold (c ∷ k) key h n = refl

Agrees-stored :
    (v : Bytes) (h : Header) (hs : List Header) (key : Bytes)
    → h.value ≡ v
    → equal_fold h.key key ≡ true
    → Agrees (some h.value) ((if nonempty h.value then h ∷ [] else []) ++ hs) key
Agrees-stored [] h hs key w e = simp w tt
Agrees-stored (c ∷ v) h hs key w e = simp w (Agrees-hit (c ∷ v) h hs key w e)

-- A line with a colon, once both have read it.
Agrees-field :
    (o : Option Bytes) (h : Header) (hs : List Header) (key : Bytes)
    → nonempty key ≡ true
    → Agrees o hs key
    → Agrees
        (if equal_fold h.key key then some h.value else o)
        ((if nonempty h.key && nonempty h.value then h ∷ [] else []) ++ hs)
        key
Agrees-field o h hs key n a = elim (Bool-cases (equal_fold h.key key)) [
  | inl e ↦ rw (e, nonempty_fold h.key key e n) (Agrees-stored h.value h hs key refl e)
  | inr e ↦ rw e (elim (Bool-cases (nonempty h.key && nonempty h.value)) [
    | inl kept ↦ rw kept (Agrees-skip o h hs key e a)
    | inr dropped ↦ rw dropped a
  ])
]

nothing_found : (key : Bytes) → Agrees none [] key
unfolding header has_header
nothing_found key = (refl, refl)

header_lines_nil : (k : ℕ) → header_lines k [] ≡ []
unfolding header_lines split_line
header_lines_nil zero = refl
header_lines_nil (suc k) = refl

raw_lines_nil : (k : ℕ) (key : Bytes) → raw_lines k key [] ≡ none
unfolding raw_lines split_line
raw_lines_nil zero key = refl
raw_lines_nil (suc k) key = refl

-- One round of both loops.
raw_line-Agrees :
    (line key : Bytes) (o : Option Bytes) (hs : List Header)
    → nonempty key ≡ true
    → Agrees o hs key
    → Agrees
        (elim (field_of line) [
          | none ↦ o
          | some h ↦ if equal_fold h.key key then some h.value else o
        ])
        (header_of line ++ hs)
        key
unfolding header_of
raw_line-Agrees line key o hs n a = elim (Option-cases (field_of line)) [
  | inl e ↦ rw (e, header_of) a
  | inr (h, e) ↦ rw (e, header_of) (Agrees-field o h hs key n a)
]

raw_lines-Agrees :
    (k k' : ℕ) (buf key : Bytes)
    → nonempty key ≡ true
    → length buf ≤ k
    → length buf ≤ k'
    → Agrees (raw_lines k key buf) (header_lines k' buf) key
unfolding raw_lines header_lines
raw_lines-Agrees k k' [] key n l l' =
    rw (header_lines_nil k', raw_lines_nil k key) (nothing_found key)
raw_lines-Agrees zero k' (c ∷ buf) key n l l' = absurd (omega arith)
raw_lines-Agrees (suc k) zero (c ∷ buf) key n l l' = absurd (omega arith)
raw_lines-Agrees (suc k) (suc k') (c ∷ buf) key n l l' =
    elim (Option-cases (split_line (c ∷ buf))) [
      | inl e ↦ rw (e, raw_lines, header_lines) (nothing_found key)
      | inr ((line, after), e) ↦
          let shorter = length-split_line (c ∷ buf) line after e in
          let rest = raw_lines-Agrees k k' after key n (omega arith) (omega arith) in
          rw (e, raw_lines, header_lines)
            (elim (Bool-cases (nonempty line)) [
              | inl more ↦ rw more (raw_line-Agrees line key _ _ n rest)
              | inr blank ↦ rw blank (nothing_found key)
            ])
    ]

-- On a head with something behind its first line, for a key that is not empty: where HeaderBytes
-- gives nil, Header gives nothing and HasHeader is false; where HeaderBytes gives a value that
-- is not empty, Header gives the same value and HasHeader is true.
pub header_bytes_from_raw-Agrees :
    (raw key line after : Bytes) (old : List Header)
    → split_line raw ≡ some (line, after)
    → nonempty after ≡ true
    → nonempty key ≡ true
    → Agrees (header_bytes_from_raw raw key) (parse_headers raw old) key
unfolding header_bytes_from_raw parse_headers
header_bytes_from_raw-Agrees raw key line after old e a n =
    let shorter = length-split_line raw line after e in
    let filled = nonempty_of_length raw (omega arith) in
    rw (filled, n, e, parse_headers, header_bytes_from_raw)
      (rw a (raw_lines-Agrees (length raw) (length after) after key n (omega arith) (omega arith)))
