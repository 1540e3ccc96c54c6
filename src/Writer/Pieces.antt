-- ===== src/Writer/Pieces.antt =====
-- Pieces of a request in a buffer: each is written whole or not at all, and so is their sequence.
use native.Mathlib.Decide.{dec_le}
use bursthttp.Base.{
  length, length-append, Bytes, ℕ, refl, sym, ap, Bool, true, false, Option, none, some, List, [],
  append_assoc, append-nil, arith, nonempty, if◌then◌else◌, ◌≤◌, ◌<◌, ◌≡◌, ◌∙◌, ◌&&◌, ◌∷◌, ◌++◌,
}
use bursthttp.Writer.{write_bytes, write_if, ◌>>=◌}

-- On a buffer of that size, `f` appends `p` or has no room for it.
pub record Writes (size : ℕ) (f : Bytes → Option Bytes) (p : Bytes) : Type 0 where
  pub on : (w : Bytes) → length w ≤ size → f w ≡ write_bytes size w p

abbrev pub joined : List Bytes → Bytes
joined [] = []
joined (p ∷ ps) = p ++ joined ps

pub room : (size : ℕ) (w p : Bytes) → length (w ++ p) ≤ size → write_bytes size w p ≡ some (w ++ p)
unfolding write_bytes
room size w p h = ground (arith, length-append w p)

pub no_room : (size : ℕ) (w p : Bytes) → size < length (w ++ p) → write_bytes size w p ≡ none
unfolding write_bytes
no_room size w p h = ground (arith, length-append w p)

write_bytes-append :
    (size : ℕ) (w p q : Bytes) → write_bytes size (w ++ p) q ≡ write_bytes size w (p ++ q)
unfolding write_bytes
write_bytes-append size w p q =
    ground (arith, append_assoc w p q, length-append w p, length-append p q)

pub piece : (size : ℕ) (p : Bytes) → Writes size (λ w. write_bytes size w p) p
piece size p = record { on = λ w h. refl }

pub nothing : (size : ℕ) → Writes size some []
nothing size = record {
  on = λ w h. ap some (sym (append-nil w)) ∙ sym (room size w [] (rw (append-nil w) h));
}

pub last :
    {f : Bytes → Option Bytes} {p : Bytes} (size : ℕ) → Writes size f p → Writes size f (p ++ [])
last {f} {p} size hf = rw (append-nil p) hf

pub bind :
    {f g : Bytes → Option Bytes} {p q : Bytes} (size : ℕ)
    → Writes size f p
    → Writes size g q
    → Writes size (λ w. f w >>= g) (p ++ q)
bind {f} {g} {p} {q} size hf hg = record {
  on = λ w h. elim (dec_le (length (w ++ p)) size) [
    | yes l ↦
        ap (λ o. o >>= g) (hf.on w h ∙ room size w p l)
        ∙ hg.on (w ++ p) l
        ∙ write_bytes-append size w p q
    | no l ↦
        ap (λ o. o >>= g) (hf.on w h ∙ no_room size w p (omega arith))
        ∙ sym (
            no_room size w (p ++ q)
              (omega (arith, length-append w p, length-append p q, length-append w (p ++ q))))
  ];
}

pub when :
    {f : Bytes → Option Bytes} {p : Bytes} (size : ℕ) (b : Bool)
    → Writes size f p
    → Writes size (write_if b f) (if b then p else [])
when size true hf = hf
when size false hf = nothing size

pub either :
    (size : ℕ) (b : Bool) (p q : Bytes)
    → Writes size
        (λ w. if b then write_bytes size w p else write_bytes size w q)
        (if b then p else q)
either size true p q = piece size p
either size false p q = piece size q

pub optional :
    (size : ℕ) (s : Bytes) → Writes size (write_if (nonempty s) (λ w. write_bytes size w s)) s
optional size [] = nothing size
optional size (c ∷ s) = piece size (c ∷ s)

pub optional_if :
    (size : ℕ) (b : Bool) (s : Bytes)
    → Writes size (write_if (b && nonempty s) (λ w. write_bytes size w s)) (if b then s else [])
optional_if size true s = optional size s
optional_if size false s = nothing size

pub wrote : (size : ℕ) (p b : Bytes) → write_bytes size [] p ≡ some b → b ≡ p
unfolding write_bytes
wrote size p b h = ground arith
