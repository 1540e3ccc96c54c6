-- ===== src/Parser/HeaderEnd/Found.antt =====
-- The result of `findHeaderEnd` described: the first place where the blank line ends.
use bursthttp.Base.{
  Bool-cases, length, Bytes, cr, lf, ℕ, suc, refl, ap, inl, inr, true, false, Option, some, [],
  arith, ◌+◌, ◌≡◌, ◌∙◌, ◌↔◌, ◌∷◌, ◌++◌,
}
use bursthttp.Parser.HeaderEnd.First.{ends_head, first_end, find_header_end-first_end}
use bursthttp.Parser.HeaderEnd.{find_header_end}

-- "\r\n\r\n"
abbrev pub blank_line : Bytes
blank_line = cr ∷ lf ∷ cr ∷ lf ∷ []

-- `head` ends with the first blank line of `head ++ rest`: no other is found further left.
abbrev pub NoneBefore : Bytes → Bytes → Type 0
NoneBefore [] rest = Unit
NoneBefore (c ∷ pre) rest = (ends_head (c ∷ (pre ++ rest)) ≡ false) × NoneBefore pre rest

-- A head: the bytes before the first blank line, and what follows it.
pub record HeadAt (buf : Bytes) (n : ℕ) : Type 0 where
  pub before : Bytes
  pub rest : Bytes
  pub splits : buf ≡ before ++ (blank_line ++ rest)
  pub ends_at : n ≡ length before + 4
  pub first : NoneBefore before (blank_line ++ rest)

ends_head-blank_line :
    (buf : Bytes) → ends_head buf ≡ true → (rest : Bytes) × (buf ≡ blank_line ++ rest)
ends_head-blank_line (a ∷ b ∷ c ∷ d ∷ rest) h = (rest, ground arith)
ends_head-blank_line [] h = cc
ends_head-blank_line (a ∷ []) h = cc
ends_head-blank_line (a ∷ b ∷ []) h = cc
ends_head-blank_line (a ∷ b ∷ c ∷ []) h = cc

some_sum : (i m n : ℕ) → ◌≡◌ {A = Option ℕ} (some (i + m)) (some n) → n ≡ i + m
some_sum i m n h = ground arith

first_end-HeadAt :
    (buf : Bytes) (i n : ℕ) → first_end i buf ≡ some n → (m : ℕ) × (n ≡ i + m) × HeadAt buf m
unfolding first_end
first_end-HeadAt [] i n h = cc
first_end-HeadAt (a ∷ buf) i n h = elim (Bool-cases (ends_head (a ∷ buf))) [
  | inl e ↦
      let (rest, splits) = ends_head-blank_line (a ∷ buf) e in
      (
        4,
        some_sum i 4 n (rw e at h),
        record { before = []; rest = rest; splits = splits; ends_at = refl; first = tt },
      )
  | inr e ↦
      let (m, p, found) = first_end-HeadAt buf (i + 1) n (rw e at h) in
      (
        suc m,
        omega arith,
        record {
          before = a ∷ found.before;
          rest = found.rest;
          splits = ap (◌∷◌ a) found.splits;
          ends_at = omega (arith, found.ends_at);
          first = (rw (← found.splits) e, found.first);
        },
      )
]

first_end_before :
    (before rest : Bytes) (i : ℕ)
    → NoneBefore before (blank_line ++ rest)
    → first_end i (before ++ (blank_line ++ rest)) ≡ some (i + length before + 4)
unfolding first_end
first_end_before [] rest i h = ground arith
first_end_before (c ∷ before) rest i (h, hs) =
    rw h (first_end_before before rest (i + 1) hs ∙ ap some (omega arith))

-- findHeaderEnd answers n exactly when the first blank line ("\r\n\r\n") of the buffer ends at
-- n: the buffer splits there, and no blank line starts further left.
pub find_header_end_iff : (buf : Bytes) (n : ℕ) → (find_header_end buf ≡ some n) ↔ HeadAt buf n
find_header_end_iff buf n = rw find_header_end-first_end (found, answer)
  where
    found : first_end 0 buf ≡ some n → HeadAt buf n
    found h =
        let (m, p, at) = first_end-HeadAt buf 0 n h in let same : n ≡ m = omega arith in rw same at

    answer : HeadAt buf n → first_end 0 buf ≡ some n
    answer at =
        rw (at.splits)
          (first_end_before at.before at.rest 0 at.first ∙ ap some (omega (arith, at.ends_at)))
