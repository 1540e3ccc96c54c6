-- ===== src/Input/Flat.antt =====
-- The bytes of an input, whatever the chunks they come in.
use bursthttp.Base.{
  length, Bytes, ℕ, zero, suc, refl, ap, [], append_assoc, append-nil, arith, ◌≡◌, ◌∙◌, ◌∷◌, ◌++◌,
}
use bursthttp.Errors.{Error}
use bursthttp.Input.{Input, chunk, stop, done, failed, read_byte, read_exact, read_full}

abbrev pub flat : Input → Bytes
flat (stop e) = []
flat (chunk bs rest) = bs ++ flat rest

abbrev pub ending : Input → Error
ending (stop e) = e
ending (chunk bs rest) = ending rest

-- The same bytes and the same end, in other chunks.
abbrev pub SameStream : Input → Input → Type 0
SameStream i j = (flat i ≡ flat j) × (ending i ≡ ending j)

-- What `read_byte` does, said of the bytes alone.
pub read_byte-cons :
    (i : Input) (b : ℕ) (bs : Bytes)
    → flat i ≡ b ∷ bs
    → (j : Input) × (read_byte i ≡ done (b, j)) × (flat j ≡ bs) × (ending j ≡ ending i)
unfolding read_byte
read_byte-cons (stop e) b bs h = cc
read_byte-cons (chunk [] rest) b bs h = read_byte-cons rest b bs h
read_byte-cons (chunk (c ∷ cs) rest) b bs h = (chunk cs rest, ground arith, ground arith, refl)

pub read_byte-nil : (i : Input) → flat i ≡ [] → read_byte i ≡ failed (ending i)
unfolding read_byte
read_byte-nil (stop e) h = refl
read_byte-nil (chunk [] rest) h = read_byte-nil rest h
read_byte-nil (chunk (c ∷ cs) rest) h = cc

pub read_exact-append :
    (n : ℕ) (i : Input) (bs rest : Bytes)
    → length bs ≡ n
    → flat i ≡ bs ++ rest
    → (j : Input) × (read_exact n i ≡ done (bs, j)) × (flat j ≡ rest) × (ending j ≡ ending i)
unfolding read_exact
read_exact-append zero i [] rest l h = (i, refl, h, refl)
read_exact-append zero i (b ∷ bs) rest l h = absurd (omega arith)
read_exact-append (suc n) i [] rest l h = absurd (omega arith)
read_exact-append (suc n) i (b ∷ bs) rest l h =
    let (j, e, f, g) = read_byte-cons i b (bs ++ rest) h in
    let (j', e', f', g') = read_exact-append n j bs rest (omega arith) f in
    (j', rw (e, e'), f', g' ∙ g)

pub read_full-append :
    (bs rest got : Bytes) (i : Input)
    → flat i ≡ bs ++ rest
    → (j : Input) × (read_full (length bs) got i ≡ (got ++ bs, done j))
      × (flat j ≡ rest)
      × (ending j ≡ ending i)
unfolding read_full
read_full-append [] rest got i h = (i, rw append-nil, h, refl)
read_full-append (b ∷ bs) rest got i h =
    let (j, e, f, g) = read_byte-cons i b (bs ++ rest) h in
    let (j', e', f', g') = read_full-append bs rest (got ++ b ∷ []) j f in
    (j', rw (e, read_full) (e' ∙ ap (λ t. (t, done j')) (append_assoc got (b ∷ []) bs)), f', g' ∙ g)
