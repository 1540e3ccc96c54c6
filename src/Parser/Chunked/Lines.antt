-- ===== src/Parser/Chunked/Lines.antt =====
-- `readLine` reads one line, whatever the chunks.
use bursthttp.Base.{
  lt→ltb, length, length-append, Bytes, cr, lf, All, ℕ, refl, ap, [], append_assoc, append-nil,
  arith, ◌==◌, if◌then◌else◌, ◌+◌, ◌<◌, ◌≡◌, ◌∙◌, ◌≢◌, ◌∷◌, ◌++◌,
}
use bursthttp.Input.{Input, chunk, stop, done, read_byte}
use bursthttp.Input.Flat.{flat, ending, read_byte-cons}
use bursthttp.Parser.Chunked.{strip_cr, push_line, read_line, skip_line}

-- No byte of the line ends it.
abbrev pub NoLf : Bytes → Type 0
NoLf = All (λ c. c ≢ lf)

strip_cr-concat : (s : Bytes) → strip_cr (s ++ cr ∷ []) ≡ s
unfolding strip_cr
strip_cr-concat [] = refl
strip_cr-concat (c ∷ []) = refl
strip_cr-concat (c ∷ d ∷ s) = ap (◌∷◌ c) (strip_cr-concat (d ∷ s))

read_line_step :
    (i j : Input) (acc : Bytes) (b : ℕ)
    → read_byte i ≡ done (b, j)
    → read_line acc i ≡ (if b == lf then done (strip_cr acc, j) else read_line (push_line acc b) j)
unfolding read_line read_byte
read_line_step (stop e) j acc b h = cc
read_line_step (chunk [] more) j acc b h = read_line_step more j acc b h
read_line_step (chunk (c ∷ cs) more) j acc b h = ground arith

push_line_room : (acc : Bytes) (b : ℕ) → length acc < 64 → push_line acc b ≡ acc ++ b ∷ []
push_line_room acc b h = rw (lt→ltb _ _ h)

-- A line of at most 63 bytes and its "\r\n" are read off whole.
pub read_line_onto :
    (line acc rest : Bytes) (i : Input)
    → flat i ≡ line ++ cr ∷ lf ∷ rest
    → NoLf line
    → length acc + length line < 64
    → (j : Input) × (read_line acc i ≡ done (acc ++ line, j))
      × (flat j ≡ rest)
      × (ending j ≡ ending i)
read_line_onto [] acc rest i h nl l =
    let (j, e, f, g) = read_byte-cons i cr (lf ∷ rest) h in
    let (k, e', f', g') = read_byte-cons j lf rest f in
    (
      k,
      rw (
        read_line_step i j acc cr e,
        push_line_room acc cr (omega arith),
        read_line_step j k (acc ++ cr ∷ []) lf e',
        strip_cr-concat acc,
        append-nil acc,
      ),
      f',
      g' ∙ g,
    )
read_line_onto (c ∷ line) acc rest i h nl l =
    let (j, e, f, g) = read_byte-cons i c (line ++ cr ∷ lf ∷ rest) h in
    let (k, e', f', g') =
      read_line_onto line (acc ++ c ∷ []) rest j f nl.1
        (omega (arith, length-append acc (c ∷ []))) in
    (
      k,
      rw (read_line_step i j acc c e, push_line_room acc c (omega arith))
          (ground (arith, e', append_assoc acc (c ∷ []) line)),
      f',
      g' ∙ g,
    )

-- The rest of a line is skipped.
pub skip_line_crlf :
    (i : Input) (rest : Bytes)
    → flat i ≡ cr ∷ lf ∷ rest
    → (flat (skip_line i) ≡ rest) × (ending (skip_line i) ≡ ending i)
unfolding skip_line
skip_line_crlf i rest h =
    let (j, e, f, g) = read_line_onto [] [] rest i h tt (omega arith) in rw (e, skip_line) (f, g)
