-- ===== src/Parser/Buffered/Head.antt =====
-- The byte-wise reading of the head stops where `findHeaderEnd` would.
use bursthttp.Base.{
  leb, Bool-cases, length, length-append, take, drop, take-append-drop, take-append_of_length,
  drop-append_of_length, Bytes, eq_bytes, eq_bytes_iff, ℕ, zero, suc, refl, sym, ap, inl, inr, true,
  false, some, [], append_assoc, arith, nonempty, ◌+◌, ◌-◌, ◌≤◌, ◌<◌, ◌≡◌, ◌∙◌, ◌∷◌, ◌++◌,
}
use bursthttp.Input.Flat.{flat, ending, read_byte-cons}
use bursthttp.Parser.HeaderEnd.{find_header_end}
use bursthttp.Input.{Input, done}
use bursthttp.Parser.Buffered.{ends_blank, read_head}
use bursthttp.Parser.HeaderEnd.Found.{NoneBefore, blank_line, find_header_end_iff}
use bursthttp.Parser.HeaderEnd.First.{ends_head}

ends_blank-append : (s : Bytes) → ends_blank (s ++ blank_line) ≡ true
unfolding ends_blank eq_bytes
ends_blank-append s =
    let len : length (s ++ blank_line) - 4 ≡ length s = omega (arith, length-append s blank_line) in
    let long : leb 4 (length (s ++ blank_line)) ≡ true =
      ground (arith, length-append s blank_line) in
    rw (long, len, drop-append_of_length s blank_line (length s) refl)

-- A text that ends in a blank line, split in front of it.
ends_blank-split : (s : Bytes) → ends_blank s ≡ true → (q : Bytes) × (s ≡ q ++ blank_line)
unfolding ends_blank
ends_blank-split s h = (
  take (length s - 4) s,
  sym (take-append-drop (length s - 4) s)
      ∙ ap (◌++◌ (take (length s - 4) s)) ((eq_bytes_iff _ _).0 last),
)
  where
    last : eq_bytes (drop (length s - 4) s) blank_line ≡ true
    last = ground arith

-- In front of the first blank line there is none.
NoneBefore-at :
    (before rest q s : Bytes)
    → NoneBefore before rest
    → q ++ s ≡ before ++ rest
    → length q < length before
    → ends_head s ≡ false
NoneBefore-at [] rest q s n e l = absurd (omega arith)
NoneBefore-at (c ∷ before) rest [] s n e l = rw e n.0
NoneBefore-at (c ∷ before) rest (d ∷ q) s n e l =
    NoneBefore-at before rest q s n.1 (cc) (omega arith)

-- The bytes read so far do not end the head while the blank line is not complete.
not-ends_blank :
    (before rest seen s : Bytes)
    → NoneBefore before (blank_line ++ rest)
    → seen ++ s ≡ before ++ (blank_line ++ rest)
    → length seen < length before + 4
    → ends_blank seen ≡ false
not-ends_blank before rest seen s n e l = elim (Bool-cases (ends_blank seen)) [
  | inr h ↦ h
  | inl h ↦
      let (q, p) = ends_blank-split seen h in
      let whole : q ++ (blank_line ++ s) ≡ before ++ (blank_line ++ rest) =
        sym (append_assoc q blank_line s) ∙ ap (λ t. t ++ s) (sym p) ∙ e in
      let size : length seen ≡ length q + 4 = ap length p ∙ length-append q blank_line in
      cc (NoneBefore-at before (blank_line ++ rest) q (blank_line ++ s) n whole (omega arith))
]

-- The loop, with `seen` read and `s` of the head still to come.
read_head_onto :
    (s before rest seen : Bytes) (room : ℕ) (i : Input)
    → NoneBefore before (blank_line ++ rest)
    → seen ++ s ≡ before ++ blank_line
    → nonempty s ≡ true
    → flat i ≡ s ++ rest
    → length s ≤ room
    → (j : Input) × (read_head room seen i ≡ done (before ++ blank_line, j))
      × (flat j ≡ rest)
      × (ending j ≡ ending i)
unfolding read_head
read_head_onto [] before rest seen room i n e h f l = cc
read_head_onto (c ∷ s) before rest seen zero i n e h f l = absurd (omega arith)
read_head_onto (c ∷ []) before rest seen (suc room) i n e h f l =
    let (j, r, g, k) = read_byte-cons i c rest f in (j, rw (r, e, ends_blank-append before), g, k)
read_head_onto (c ∷ d ∷ s) before rest seen (suc room) i n e h f l =
    let (j, r, g, k) = read_byte-cons i c (d ∷ (s ++ rest)) f in
    let e' = append_assoc seen (c ∷ []) (d ∷ s) ∙ e in
    let size : length (seen ++ c ∷ []) < length before + 4 = omega (
      arith,
      ap length e',
      length-append (seen ++ c ∷ []) (d ∷ s),
      length-append before blank_line,
    ) in
    let whole : (seen ++ c ∷ []) ++ (d ∷ (s ++ rest)) ≡ before ++ (blank_line ++ rest) =
      sym (append_assoc (seen ++ c ∷ []) (d ∷ s) rest)
      ∙ ap (λ t. t ++ rest) e'
      ∙ append_assoc before blank_line rest in
    let open_head = not-ends_blank before rest (seen ++ c ∷ []) (d ∷ (s ++ rest)) n whole size in
    let (j', r', g', k') =
      read_head_onto (d ∷ s) before rest (seen ++ c ∷ []) room j n e' refl g (omega arith) in
    (j', rw (r, open_head) r', g', k' ∙ k)

nonempty-append_right : (s : Bytes) → nonempty (s ++ blank_line) ≡ true
nonempty-append_right [] = refl
nonempty-append_right (c ∷ s) = refl

-- The byte-wise reading of the head takes exactly what findHeaderEnd would cut off the whole
-- input, if the scratch buffer holds it, and leaves the input behind the blank line.
pub read_head-find_header_end :
    (i : Input) (n scratch : ℕ)
    → find_header_end (flat i) ≡ some n
    → n ≤ scratch
    → (j : Input) × (read_head scratch [] i ≡ done (take n (flat i), j))
      × (flat j ≡ drop n (flat i))
      × (ending j ≡ ending i)
read_head-find_header_end i n scratch h l =
    let at = (find_header_end_iff (flat i) n).0 h in
    let size = length-append at.before blank_line in
    let split = at.splits ∙ sym (append_assoc at.before blank_line at.rest) in
    let (j, r, g, k) =
      read_head_onto (at.before ++ blank_line) at.before at.rest [] scratch i at.first refl
        (nonempty-append_right at.before) split (omega (arith, at.ends_at)) in
    let same : length (at.before ++ blank_line) ≡ n = omega (arith, at.ends_at) in
    (
      j,
      r
          ∙ ap (λ t. done (t, j))
              (sym (rw split (take-append_of_length (at.before ++ blank_line) at.rest n same))),
      g ∙ sym (rw split (drop-append_of_length (at.before ++ blank_line) at.rest n same)),
      k,
    )
