-- ===== src/Input.antt =====
-- What a connection delivers: the data of successive `Read` calls, then the error that ends them.
-- A chunk longer than the caller's buffer is handed out in parts; an empty one is a `Read` that
-- returns no byte and no error. parser.go's readers over it: `readByte`, `readExact`, `io.ReadFull`.
pub mod Flat
use bursthttp.Base.{leb, length, take, drop, Bytes, ℕ, zero, suc, [], if◌then◌else◌, ◌∷◌, ◌++◌}
use bursthttp.Errors.{Error, eof, unexpected_eof}

pub data Input : Type 0 where
  chunk : Bytes → Input → Input
  stop : Error → Input

-- The outcome of a call that may fail, panic, or go round for longer than the fuel given.
pub data Outcome {ℓ} (A : Type ℓ) : Type ℓ where
  done : A → Outcome A
  failed : Error → Outcome A
  panics : Outcome A
  out_of_fuel : Outcome A

infixl 5 ◌>>=◌
abbrev pub ◌>>=◌ {ℓ κ} : {A : Type ℓ} {B : Type κ} → Outcome A → (A → Outcome B) → Outcome B
done a >>= f = f a
failed e >>= f = failed e
panics >>= f = panics
out_of_fuel >>= f = out_of_fuel

-- `r.Read(p)` for a slice of `k` bytes.
unfoldable pub read : ℕ → Input → Outcome (Bytes × Input)
read k (stop e) = failed e
read k (chunk bs rest) =
    if leb (length bs) k then done (bs, rest) else done (take k bs, chunk (drop k bs) rest)

-- `readByte`: over the bytes left from the head, which are a chunk in front, and then one byte at a
-- time, again after a `Read` of nothing. `bufio.Reader.ReadByte` does the same.
unfoldable pub read_byte : Input → Outcome (ℕ × Input)
read_byte (stop e) = failed e
read_byte (chunk [] rest) = read_byte rest
read_byte (chunk (b ∷ bs) rest) = done (b, chunk bs rest)

-- `readExact` into `n` bytes.
unfoldable pub read_exact : ℕ → Input → Outcome (Bytes × Input)
unfolding read_byte
read_exact zero input = done ([], input)
read_exact (suc n) input = do
  (b, more) ← read_byte input
  (bs, rest) ← read_exact n more
  done (b ∷ bs, rest)

-- The error of `io.ReadFull` once some bytes are read.
abbrev cut_short : Bytes → Error → Error
cut_short (b ∷ bs) eof = unexpected_eof
cut_short _ e = e

-- `io.ReadFull` of a buffered reader into `n` bytes: the bytes that it stored, and how it ended. An
-- end of the input behind the first byte is unexpected.
unfoldable pub read_full : ℕ → Bytes → Input → Bytes × Outcome Input
read_full zero got input = (got, done input)
read_full (suc n) got input = elim (read_byte input) [
  | done (b, rest) ↦ read_full n (got ++ b ∷ []) rest
  | failed e ↦ (got, failed (cut_short got e))
  | panics ↦ (got, panics)
  | out_of_fuel ↦ (got, out_of_fuel)
]
