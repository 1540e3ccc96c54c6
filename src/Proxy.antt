-- ===== src/Proxy.antt =====
-- What socks5.go and proxy.go read and write on the connection to a proxy: the writes that reached it,
-- the errors of the writes to come, and what it delivers. readFull is socks5.go's.
pub mod Socks5
pub mod Connect
pub mod Reads
pub mod Steps
use bursthttp.Base.{
  leb, length, take, drop, replicate, Bytes, ℕ, zero, suc, Option, none, some, List, [],
  if◌then◌else◌, ◌-◌, ◌∷◌, ◌++◌,
}
use bursthttp.Errors.{Error, ErrorType}
use bursthttp.Input.{Input, chunk, stop, Outcome, done, failed, panics, out_of_fuel, ◌>>=◌}
use Prim.Native.String.{String}

pub record Conn : Type 0 where
  pub sent : Bytes
  pub write_errors : List (Option Error)
  pub incoming : Input

-- The connection once the write that the next answer is for has succeeded.
abbrev pub sends : Bytes → List (Option Error) → Conn → Conn
sends bs es c = record { sent = c.sent ++ bs; write_errors = es; incoming = c.incoming }

abbrev pub write_answered : Bytes → Conn → List (Option Error) → Outcome Conn
write_answered bs c [] = done (sends bs [] c)
write_answered bs c (none ∷ es) = done (sends bs es c)
write_answered bs c (some e ∷ es) = failed e

-- `conn.Write(bs)`: a write past the list of answers succeeds.
unfoldable pub write : Bytes → Conn → Outcome Conn
write bs c = write_answered bs c c.write_errors

-- `readFull` into `n` bytes: each `conn.Read` is given the part of the buffer that is still empty.
unfoldable pub conn_read_full : ℕ → Input → Outcome (Bytes × Input)
conn_read_full zero input = done ([], input)
conn_read_full (suc n) (stop e) = failed e
conn_read_full (suc n) (chunk bs rest) =
    let more = conn_read_full (suc n - length bs) rest in
    if leb (length bs) (suc n)
    then (more >>= λ (got, left). done (bs ++ got, left))
    else done (take (suc n) bs, chunk (drop (suc n) bs) rest)

-- `readFull(conn, buf)`, on the state of the connection.
unfoldable pub receive : ℕ → Conn → Outcome (Bytes × Conn)
receive n c = do
  (bs, rest) ← conn_read_full n c.incoming
  done (bs, record { sent = c.sent; write_errors = c.write_errors; incoming = rest })

-- `copy(buf[a:b], bs)` into `n` zero bytes.
abbrev pub copied : ℕ → Bytes → Bytes
copied n bs = take n (bs ++ replicate n 0)

-- `LogErrorWithFlag` around the error of a step.
unfoldable pub wrapped {ℓ} : {A : Type ℓ} → ErrorType → String → Outcome A → Outcome A
wrapped t m (done a) = done a
wrapped t m (failed e) = failed (Error.detailed t m e)
wrapped t m panics = panics
wrapped t m out_of_fuel = out_of_fuel
