-- ===== src/Response.antt =====
-- response.go. The body buffer is kept with its bytes: `Body` is a slice of it, so it is the first
-- `body_len` bytes of whatever the buffer holds. Sizes and limits are tested for `> 0` only, so a
-- limit that is not positive is 0 here.
pub mod Buffer
pub mod Lookup
use bursthttp.Base.{
  ltb, length, take, replicate, Bytes, ℕ, Option, none, some, List, [], ℤ, pos, negsuc, leb_ℤ,
  ltb_ℤ, to_int, pos_part, ◌==◌, if◌then◌else◌, ◌+◌, ◌*◌, ◌/◌, ◌%◌, ◌^◌, ◌&&◌,
}
use Lookup.{Header}

pub record Response : Type 0 where
  pub status_code : ℕ
  pub content_length : ℤ
  pub body_len : ℕ
  pub headers : List Header
  pub body_buf : Bytes
  pub max_size : ℕ
  pub raw_header_buf : Bytes

-- `resp.Body`
abbrev pub body : Response → Bytes
body r = take r.body_len r.body_buf

-- `((n / k) + 1) * k` unless `n % k == 0`
unfoldable pub round_up : ℕ → ℕ → ℕ
round_up n k = if n % k == 0 then n else (n / k + 1) * k

-- The growth rule of the two `ensure…Size` methods, in 64-bit integers: twice the buffer or what is
-- required, rounded up to 4096 below 1 MiB and to 65536 from there. Near 2 ^ 63 the rounding wraps to
-- a negative number.
unfoldable pub grown : ℕ → ℕ → ℤ
grown len required =
    let doubled = to_int (len * 2 % 2 ^ 64) in
    let n = if ltb_ℤ doubled (pos required) then required else pos_part doubled in
    if ltb n (1024 * 1024)
    then to_int (round_up n 4096 % 2 ^ 64)
    else to_int (round_up n 65536 % 2 ^ 64)

-- The size of the new buffer, or `none` where the method returns false. The request's method is the
-- same code over its own buffer.
unfoldable pub new_size : ℕ → ℕ → ℕ → Option ℤ
new_size len max_size required =
    if ltb 0 max_size && ltb max_size required
    then none
    else let n = grown len required in
      if ltb 0 max_size && ltb_ℤ (pos max_size) n
      then (if ltb max_size required then none else some (pos max_size))
      else some n

-- How `ensureBufferSize` ends: with true, with false, or in `make`, which panics on a negative size.
pub data Growth : Type 0 where
  has_room refused overflows : Growth

-- `r.bodyBuf = make([]byte, newSize)`: zeros, and what the old buffer held is not copied.
abbrev pub make_buffer : Response → ℤ → Response × Growth
make_buffer r (pos n) = (record r { body_buf = replicate n 0 }, has_room)
make_buffer r (negsuc m) = (r, overflows)

-- `ensureBufferSize`
unfoldable pub ensure_buffer_size : Response → ℤ → Response × Growth
ensure_buffer_size r required =
    if leb_ℤ required (pos (length r.body_buf))
    then (r, has_room)
    else elim (new_size (length r.body_buf) r.max_size (pos_part required)) [
      | none ↦ (r, refused)
      | some n ↦ make_buffer r n
    ]

-- `Reset`
unfoldable pub reset : Response → Response
reset r = record r {
  status_code = 0;
  content_length = pos 0;
  body_len = 0;
  headers = [];
  max_size = 0;
  raw_header_buf = [];
}

abbrev pub initial_response_buffer_size : ℕ
initial_response_buffer_size = 64 * 1024

-- `ReleaseResponse`, of a response that is not nil: what goes back to the pool.
unfoldable pub release_response : Response → Response
release_response r =
    let small =
      if ltb (initial_response_buffer_size * 2) (length r.body_buf)
      then record r { body_buf = replicate initial_response_buffer_size 0 }
      else r in
    if ltb 4096 (length r.raw_header_buf) then record small { raw_header_buf = [] } else small
