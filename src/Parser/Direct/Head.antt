-- ===== src/Parser/Direct/Head.antt =====
-- The head that `readResponse` of parser.go reads, whatever pieces it arrives in.
use native.Mathlib.Decide.{dec_lt}
use bursthttp.Base.{
  leb, leb→le, Bool-cases, Option-cases, length, length-append, take, drop, take-append-drop,
  length-take, length-drop, Bytes, ℕ, zero, suc, min, refl, sym, ap, inl, inr, false, none, some,
  [], append_assoc, arith, ◌+◌, ◌-◌, ◌≤◌, ◌<◌, ◌≡◌, ◌∙◌, ◌∷◌, ◌++◌,
}
use bursthttp.Input.{Input, chunk, stop, Outcome, done, read}
use bursthttp.Input.Flat.{flat, ending}
use bursthttp.Parser.HeaderEnd.{header_end_from, find_header_end}
use bursthttp.Parser.HeaderEnd.Found.{find_header_end_iff, blank_line}
use bursthttp.Parser.HeaderEnd.First.{find_header_end-append}
use bursthttp.Parser.Direct.{searched, head_round, read_until_head}

-- No `Read` gives nothing: the source takes that for the end of the input.
abbrev pub NoEmpty : Input → Type 0
NoEmpty (stop e) = Unit
NoEmpty (chunk bs rest) = 0 < length bs × NoEmpty rest

-- What a `Read` gives while bytes are left.
pub record Piece (k : ℕ) (i : Input) : Type 0 where
  pub first : ℕ
  pub others : Bytes
  pub left : Input
  pub result : read k i ≡ done (first ∷ others, left)
  pub splits : flat i ≡ (first ∷ others) ++ flat left
  pub short : length (first ∷ others) ≤ k
  pub no_empty : NoEmpty left
  pub same_end : ending left ≡ ending i

Piece-intro :
    (k : ℕ) (i left : Input) (bs : Bytes)
    → read k i ≡ done (bs, left)
    → flat i ≡ bs ++ flat left
    → 0 < length bs
    → length bs ≤ k
    → NoEmpty left
    → ending left ≡ ending i
    → Piece k i
Piece-intro k i left [] r s p l n e = absurd (omega arith)
Piece-intro k i left (b ∷ bs) r s p l n e = record {
  first = b;
  others = bs;
  left = left;
  result = r;
  splits = s;
  short = l;
  no_empty = n;
  same_end = e;
}

longer : (a k : ℕ) → leb a k ≡ false → k < a
longer a k h = ground arith

pub read-Piece : (k : ℕ) (i : Input) → 0 < k → NoEmpty i → 0 < length (flat i) → Piece k i
unfolding read
read-Piece k (stop e) p n h = absurd (omega arith)
read-Piece k (chunk bs rest) p (n, ns) h = elim (Bool-cases (leb (length bs) k)) [
  | inl t ↦
      Piece-intro k (chunk bs rest) rest bs (rw t refl) refl n (leb→le (length bs) k t) ns refl
  | inr t ↦
      let l = longer (length bs) k t in
      Piece-intro k (chunk bs rest) (chunk (drop k bs) rest) (take k bs) (rw t refl)
        (rw (← append_assoc (take k bs) (drop k bs) (flat rest), take-append-drop k bs) refl)
        (omega (arith, length-take k bs, l, p)) (omega (arith, length-take k bs))
        (omega (arith, length-drop k bs, l), ns) refl
]

-- Four bytes at least stand in front of the end.
header_end_from-long : (s : Bytes) (i n : ℕ) → header_end_from i s ≡ some n → i + 4 ≤ n
unfolding header_end_from
header_end_from-long (a ∷ b ∷ c ∷ d ∷ rest) i n h = ground (
  arith,
  header_end_from-long (c ∷ d ∷ rest) (i + 2) n,
  header_end_from-long (b ∷ c ∷ d ∷ rest) (i + 1) n,
)
header_end_from-long [] i n h = cc
header_end_from-long (a ∷ []) i n h = cc
header_end_from-long (a ∷ b ∷ []) i n h = cc
header_end_from-long (a ∷ b ∷ c ∷ []) i n h = cc

-- The end is found as soon as its bytes are there.
header_end_from-cut :
    (xs ys : Bytes) (i n : ℕ)
    → header_end_from i (xs ++ ys) ≡ some n
    → n ≤ i + length xs
    → header_end_from i xs ≡ some n
unfolding header_end_from
header_end_from-cut (a ∷ b ∷ c ∷ d ∷ rest) ys i n h l = ground (
  arith,
  header_end_from-cut (c ∷ d ∷ rest) ys (i + 2) n,
  header_end_from-cut (b ∷ c ∷ d ∷ rest) ys (i + 1) n,
)
header_end_from-cut [] ys i n h l = absurd (omega (arith, header_end_from-long ys i n h))
header_end_from-cut (a ∷ []) ys i n h l =
    absurd (omega (arith, header_end_from-long (a ∷ ys) i n h))
header_end_from-cut (a ∷ b ∷ []) ys i n h l =
    absurd (omega (arith, header_end_from-long (a ∷ b ∷ ys) i n h))
header_end_from-cut (a ∷ b ∷ c ∷ []) ys i n h l =
    absurd (omega (arith, header_end_from-long (a ∷ b ∷ c ∷ ys) i n h))

-- What the loop over the head comes to: the end of the head, all that was read, and the rest.
pub record HeadRead (n : ℕ) (whole : Bytes) (i : Input) (out : Outcome (ℕ × Bytes × Input))
    : Type 0 where
  pub seen : Bytes
  pub left : Input
  pub result : out ≡ done (n, seen, left)
  pub splits : seen ++ flat left ≡ whole
  pub enough : n ≤ length seen
  pub no_empty : NoEmpty left
  pub same_end : ending left ≡ ending i

-- While no end is found, the end is still to come.
not_yet :
    (seen ys whole : Bytes) (n : ℕ)
    → seen ++ ys ≡ whole
    → find_header_end whole ≡ some n
    → find_header_end seen ≡ none
    → length seen < n
unfolding find_header_end
not_yet seen ys whole n w f g = elim (dec_lt (length seen) n) [
  | yes h ↦ h
  | no h ↦ cc (header_end_from-cut seen ys 0 n (ap (header_end_from 0) w ∙ f) (omega (arith, h)), g)
]

within_whole : (whole : Bytes) (n : ℕ) → find_header_end whole ≡ some n → n ≤ length whole
within_whole whole n f =
    let at = (find_header_end_iff whole n).0 f in
    omega (
      arith,
      at.ends_at,
      ap length at.splits,
      length-append at.before (blank_line ++ at.rest),
      length-append blank_line at.rest,
    )

room_left : (a b : ℕ) → b < a → leb a b ≡ false
room_left a b h = ground arith

pub read_until_head-HeadRead :
    (fuel buf_len read_size n : ℕ) (seen whole : Bytes) (i : Input)
    → 0 < read_size
    → NoEmpty i
    → seen ++ flat i ≡ whole
    → find_header_end whole ≡ some n
    → find_header_end seen ≡ none
    → n ≤ buf_len
    → buf_len < fuel + length seen
    → HeadRead n whole i (read_until_head fuel buf_len read_size seen i)
unfolding read_until_head
read_until_head-HeadRead zero buf_len read_size n seen whole i p ne w f g l h =
    absurd (omega (arith, not_yet seen (flat i) whole n w f g))
read_until_head-HeadRead (suc fuel) buf_len read_size n seen whole i p ne w f g l h =
    let open_head = not_yet seen (flat i) whole n w f g in
    let left : 0 < length (flat i) =
      omega (arith, open_head, within_whole whole n f, ap length w, length-append seen (flat i)) in
    let q =
      read-Piece (min (buf_len - length seen) read_size) i (omega (arith, open_head, l, p)) ne
        left in
    let seen' : Bytes = seen ++ (q.first ∷ q.others) in
    let w' : seen' ++ flat q.left ≡ whole =
      append_assoc seen (q.first ∷ q.others) (flat q.left) ∙ ap (◌++◌ seen) (sym q.splits) ∙ w in
    let round : head_round buf_len read_size seen i
        ≡ searched seen' q.left (find_header_end seen') =
      unfold head_round in
      rw (room_left buf_len (length seen) (omega (arith, open_head, l)), q.result) refl in
    elim (Option-cases (find_header_end seen')) [
      | inl g' ↦
          let ih =
            read_until_head-HeadRead fuel buf_len read_size n seen' whole q.left p q.no_empty w' f
              g' l (omega (arith, length-append seen (q.first ∷ q.others))) in
          rw (round ∙ ap (searched seen' q.left) g', read_until_head)
            (record {
              seen = ih.seen;
              left = ih.left;
              result = ih.result;
              splits = ih.splits;
              enough = ih.enough;
              no_empty = ih.no_empty;
              same_end = ih.same_end ∙ q.same_end;
            })
      | inr (m, g') ↦
          let same : some m ≡ some n =
            sym (find_header_end-append seen' (flat q.left) m g') ∙ ap find_header_end w' ∙ f in
          rw (round ∙ ap (searched seen' q.left) (g' ∙ same), read_until_head)
            (record {
              seen = seen';
              left = q.left;
              result = refl;
              splits = w';
              enough = within_whole seen' n (g' ∙ same);
              no_empty = q.no_empty;
              same_end = q.same_end;
            })
    ]

-- Nothing is found in an empty buffer.
pub find_header_end_nothing : find_header_end [] ≡ none
unfolding find_header_end header_end_from
find_header_end_nothing = refl
