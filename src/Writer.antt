-- ===== src/Writer.antt =====
-- writer.go. The buffer is its length and the bytes written so far, so `*pos` is the length of the
-- latter; a writer that returns false is `none`. The source repeats the start line, the host line
-- and the connection line in three functions, and so do the definitions here. A port that is not
-- positive is 0. `ErrHeaderBufferSmall` is the only error of these functions, and is `none`.
pub mod Pieces
pub mod Exact
pub mod Length
use bursthttp.Base.{
  ltb, length, Bytes, codes, crlf, ℕ, zero, suc, Bool, true, false, not, Option, none, some, [],
  nonempty, ◌==◌, if◌then◌else◌, ◌+◌, ◌/◌, ◌%◌, ◌&&◌, ◌∷◌, ◌++◌,
}
use bursthttp.Request.{Request, effective_path}

-- The fields of `Config` that are read.
pub record KeepAlive : Type 0 where
  pub keep_alive : Bool
  pub disable_keep_alive : Bool

infixl 5 ◌>>=◌
abbrev pub ◌>>=◌ : Option Bytes → (Bytes → Option Bytes) → Option Bytes
none >>= f = none
some written >>= f = f written

-- `writeString`, `writeBytes` and, on one byte, `writeByte`.
unfoldable pub write_bytes : ℕ → Bytes → Bytes → Option Bytes
write_bytes size written b =
    if ltb size (length written + length b) then none else some (written ++ b)

-- `byte('0' + n)`
abbrev pub digit : ℕ → ℕ
digit n = (b'0' + n) % 256

-- The loop over `tmp`, from its end: at most `fuel` digits.
unfoldable pub digits_onto : ℕ → ℕ → Bytes → Bytes
digits_onto zero n tmp = tmp
digits_onto (suc fuel) n tmp =
    let rest = digits_onto fuel (n / 10) (digit (n % 10) ∷ tmp) in if ltb 0 n then rest else tmp

-- What `writeInt` writes for a number that is not negative, with its cases for short numbers.
unfoldable pub int_bytes : ℕ → Bytes
int_bytes n =
    if n == 0
    then b'0' ∷ []
    else if ltb n 10
    then digit n ∷ []
    else if ltb n 100
    then digit (n / 10) ∷ digit (n % 10) ∷ []
    else if ltb n 1000
    then digit (n / 100) ∷ digit ((n / 10) % 10) ∷ digit (n % 10) ∷ []
    else if ltb n 10000
    then digit (n / 1000) ∷ digit ((n / 100) % 10) ∷ digit ((n / 10) % 10) ∷ digit (n % 10) ∷ []
    else digits_onto 20 n []

-- `writeInt`
unfoldable pub write_int : ℕ → Bytes → ℕ → Option Bytes
write_int size written n = write_bytes size written (int_bytes n)

-- `if !w { return 0, ErrHeaderBufferSmall }` under a condition.
abbrev pub write_if : Bool → (Bytes → Option Bytes) → Bytes → Option Bytes
write_if true w written = w written
write_if false w written = some written

-- ":port"
unfoldable pub write_port : ℕ → ℕ → Bytes → Option Bytes
write_port size port written = do
  written ← write_bytes size written (b':' ∷ [])
  write_int size written port

-- Where a request goes, as the writers are told.
pub record Destination : Type 0 where
  pub host : Bytes
  pub port : ℕ
  pub use_tls : Bool

abbrev pub default_port : Bool → ℕ
default_port use_tls = if use_tls then 443 else 80

abbrev pub method_or_get : Request → Bytes
method_or_get r = if nonempty r.method then r.method else codes "GET"

-- `writeRequestPart1`: the request line, the host, and the headers of the connection.
unfoldable pub write_request_part1 :
    ℕ → Request → KeepAlive → Destination → Bool → Bool → Option Bytes
write_request_part1 size r cfg d compressed forward_proxy = do
  w ← write_bytes size [] (method_or_get r)
  w ← write_bytes size w (b' ' ∷ [])
  w ←
      write_if forward_proxy
        (λ w. do
          w ← write_bytes size w (codes "http://")
          w ← write_bytes size w d.host
          write_if (ltb 0 d.port && not (d.port == 80)) (write_port size d.port) w)
        w
  w ← write_bytes size w (effective_path r)
  w ← write_bytes size w (codes " HTTP/1.1\r\n")
  w ← write_bytes size w (codes "Host: ")
  w ← write_bytes size w d.host
  w ← write_if (ltb 0 d.port && not (d.port == default_port d.use_tls)) (write_port size d.port) w
  w ← write_bytes size w crlf
  w ←
      if cfg.keep_alive && not cfg.disable_keep_alive
      then write_bytes size w (codes "Connection: keep-alive\r\n")
      else write_bytes size w (codes "Connection: close\r\n")
  write_if compressed (λ w. write_bytes size w (codes "Content-Encoding: gzip\r\n")) w

abbrev pub expect_line : Bytes
expect_line = codes "Expect: 100-continue\r\n"

-- `writeRequestHeaderPrefix`
unfoldable pub write_request_header_prefix :
    ℕ → Request → KeepAlive → Destination → Bool → Bool → Bytes → Option Bytes
write_request_header_prefix size r cfg d compressed forward_proxy auth = do
  w ← write_bytes size [] (method_or_get r)
  w ← write_bytes size w (b' ' ∷ [])
  w ←
      write_if forward_proxy
        (λ w. do
          w ← write_bytes size w (codes "http://")
          w ← write_bytes size w d.host
          write_if (ltb 0 d.port && not (d.port == 80)) (write_port size d.port) w)
        w
  w ← write_bytes size w (effective_path r)
  w ← write_bytes size w (codes " HTTP/1.1\r\n")
  w ← write_bytes size w (codes "Host: ")
  w ← write_bytes size w d.host
  w ← write_if (ltb 0 d.port && not (d.port == default_port d.use_tls)) (write_port size d.port) w
  w ← write_bytes size w crlf
  w ←
      if cfg.keep_alive && not cfg.disable_keep_alive
      then write_bytes size w (codes "Connection: keep-alive\r\n")
      else write_bytes size w (codes "Connection: close\r\n")
  w ← write_if compressed (λ w. write_bytes size w (codes "Content-Encoding: gzip\r\n")) w
  w ← write_if (nonempty r.header_block) (λ w. write_bytes size w r.header_block) w
  w ← write_if (forward_proxy && nonempty auth) (λ w. write_bytes size w auth) w
  write_if r.expect_continue (λ w. write_bytes size w expect_line) w

-- "Content-Length: n" and the blank line.
unfoldable pub write_content_length : ℕ → ℕ → Bytes → Option Bytes
write_content_length size n w = do
  w ← write_bytes size w (codes "Content-Length: ")
  w ← write_int size w n
  write_bytes size w (codes "\r\n\r\n")

-- `writeRequest`
unfoldable pub write_request :
    ℕ → Request → KeepAlive → Destination → Bytes → Bool → Bool → Bytes → Option Bytes
write_request size r cfg d content compressed forward_proxy auth = do
  w ← write_bytes size [] (method_or_get r)
  w ← write_bytes size w (b' ' ∷ [])
  w ←
      write_if forward_proxy
        (λ w. do
          w ← write_bytes size w (codes "http://")
          w ← write_bytes size w d.host
          write_if (ltb 0 d.port && not (d.port == 80)) (write_port size d.port) w)
        w
  w ← write_bytes size w (effective_path r)
  w ← write_bytes size w (codes " HTTP/1.1\r\n")
  w ← write_bytes size w (codes "Host: ")
  w ← write_bytes size w d.host
  w ← write_if (ltb 0 d.port && not (d.port == default_port d.use_tls)) (write_port size d.port) w
  w ← write_bytes size w crlf
  w ←
      if cfg.keep_alive && not cfg.disable_keep_alive
      then write_bytes size w (codes "Connection: keep-alive\r\n")
      else write_bytes size w (codes "Connection: close\r\n")
  w ← write_if compressed (λ w. write_bytes size w (codes "Content-Encoding: gzip\r\n")) w
  w ← write_if (nonempty r.header_block) (λ w. write_bytes size w r.header_block) w
  w ← write_if (forward_proxy && nonempty auth) (λ w. write_bytes size w auth) w
  w ← write_if (r.expect_continue && ltb 0 (length content)) (λ w. write_bytes size w expect_line) w
  write_content_length size (length content) w

-- `writeRequestPart3`
unfoldable pub write_request_part3 : ℕ → Request → ℕ → Bytes → Option Bytes
write_request_part3 size r body_len auth = do
  w ← write_if (nonempty auth) (λ w. write_bytes size w auth) []
  w ← write_if (r.expect_continue && ltb 0 body_len) (λ w. write_bytes size w expect_line) w
  write_content_length size body_len w
