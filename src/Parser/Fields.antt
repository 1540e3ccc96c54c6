-- ===== src/Parser/Fields.antt =====
-- The search for a field name in the head, which `parseContentLength` and `parseTransferEncoding`
-- make in the same way.
use bursthttp.Base.{
  length, Bytes, is_blank, fold_byte, All, ℕ, suc, refl, ap, true, false, [], arith, match_fold,
  skip_blanks, ◌≡◌, ◌∷◌, ◌++◌,
}

-- `name` is a field name in any case.
abbrev pub Spells : Bytes → Bytes → Type 0
Spells [] [] = Unit
Spells (p ∷ lower) (c ∷ name) = (fold_byte c ≡ p) × Spells lower name
Spells _ _ = ⊥

-- The name is found at no byte of `pre`, with `rest` behind it.
abbrev pub Misses : Bytes → Bytes → Bytes → Type 0
Misses lower [] rest = Unit
Misses lower (c ∷ pre) rest = (match_fold lower (c ∷ (pre ++ rest)) ≡ false) × Misses lower pre rest

pub match_fold-Spells :
    (lower name rest : Bytes) → Spells lower name → match_fold lower (name ++ rest) ≡ true
unfolding match_fold
match_fold-Spells [] name rest h = refl
match_fold-Spells (p ∷ lower) [] rest h = elim h [ ]
match_fold-Spells (p ∷ lower) (c ∷ name) rest (h, hs) =
    rw (h, match_fold-Spells lower name rest hs) (ground arith)

pub Spells-length : (lower name : Bytes) → Spells lower name → length name ≡ length lower
Spells-length [] [] h = refl
Spells-length [] (c ∷ name) h = elim h [ ]
Spells-length (p ∷ lower) [] h = elim h [ ]
Spells-length (p ∷ lower) (c ∷ name) (h, hs) = ap suc (Spells-length lower name hs)

abbrev pub IsBlank : ℕ → Type 0
IsBlank c = is_blank c ≡ true

-- Blanks are skipped up to a byte that is none.
pub skip_blanks-append :
    (bs : Bytes) (c : ℕ) (rest : Bytes)
    → All IsBlank bs
    → is_blank c ≡ false
    → skip_blanks (bs ++ c ∷ rest) ≡ c ∷ rest
unfolding skip_blanks
skip_blanks-append [] c rest h n = rw n
skip_blanks-append (b ∷ bs) c rest (h, hs) n = rw h (skip_blanks-append bs c rest hs n)

-- A buffer that begins with a name, split behind it.
pub record NameAt (lower buf : Bytes) : Type 0 where
  pub name : Bytes
  pub after : Bytes
  pub splits : buf ≡ name ++ after
  pub spelled : Spells lower name

pub match_fold-NameAt : (lower buf : Bytes) → match_fold lower buf ≡ true → NameAt lower buf
unfolding match_fold
match_fold-NameAt [] buf h = record { name = []; after = buf; splits = refl; spelled = tt }
match_fold-NameAt (p ∷ lower) [] h = cc
match_fold-NameAt (p ∷ lower) (c ∷ buf) h =
    let rest = match_fold-NameAt lower buf (ground arith) in
    record {
      name = c ∷ rest.name;
      after = rest.after;
      splits = ap (◌∷◌ c) rest.splits;
      spelled = (ground arith, rest.spelled);
    }
