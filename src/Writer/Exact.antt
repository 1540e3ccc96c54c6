-- ===== src/Writer/Exact.antt =====
-- What the writers of writer.go write: each writes all of its bytes, or has no room and writes none.
use bursthttp.Base.{
  ltb, length, Bytes, codes, crlf, ℕ, refl, sym, ap, Bool, not, Option, some, [], append_assoc,
  arith, nonempty, ◌==◌, if◌then◌else◌, ◌≤◌, ◌≡◌, ◌∙◌, ◌&&◌, ◌∷◌, ◌++◌,
}
use bursthttp.Request.{Request, effective_path}
use bursthttp.Writer.Pieces.{
  Writes, joined, room, piece, last, bind, when, either, optional, optional_if, wrote,
}
use bursthttp.Writer.{
  KeepAlive, write_bytes, int_bytes, write_int, write_port, Destination, default_port,
  method_or_get, write_request_part1, write_content_length, expect_line, write_request, write_if,
  ◌>>=◌, write_request_part3, write_request_header_prefix,
}

abbrev pub port_bytes : ℕ → Bytes
port_bytes port = b':' ∷ int_bytes port

write_port-Writes : (size port : ℕ) → Writes size (write_port size port) (port_bytes port)
unfolding write_port write_int
write_port-Writes size port = bind size (piece size (b':' ∷ [])) (piece size (int_bytes port))

-- The start of the absolute form that a forward proxy takes.
abbrev pub absolute : Destination → Bytes
absolute d =
    codes "http://"
    ++ (d.host ++ (if ltb 0 d.port && not (d.port == 80) then port_bytes d.port else []))

-- The lines of the start, with what stands behind them.
abbrev pub start_text : Request → KeepAlive → Destination → Bool → Bytes → Bytes
start_text r cfg d forward_proxy more =
    method_or_get r
    ++ ((b' ' ∷ [])
        ++ ((if forward_proxy then absolute d else [])
            ++ (effective_path r
                ++ (codes " HTTP/1.1\r\n"
                    ++ (codes "Host: "
                        ++ (d.host
                            ++ ((if ltb 0 d.port && not (d.port == default_port d.use_tls)
                                  then port_bytes d.port
                                  else [])
                                ++ (crlf
                                    ++ ((if cfg.keep_alive && not cfg.disable_keep_alive
                                          then codes "Connection: keep-alive\r\n"
                                          else codes "Connection: close\r\n")
                                        ++ more)))))))))

-- The bytes of part 1: the request line, the host and the headers of the connection.
abbrev pub start_lines : Request → KeepAlive → Destination → Bool → Bool → Bytes
start_lines r cfg d compressed forward_proxy =
    start_text r cfg d forward_proxy (if compressed then codes "Content-Encoding: gzip\r\n" else [])

ten_pieces :
    (a b c d e f g h i j k l : Bytes)
    → a ++ (b ++ (c ++ (d ++ (e ++ (f ++ (g ++ (h ++ (i ++ (j ++ (k ++ l))))))))))
      ≡ (a ++ (b ++ (c ++ (d ++ (e ++ (f ++ (g ++ (h ++ (i ++ (j ++ k)))))))))) ++ l
ten_pieces a b c d e f g h i j k l = simp (append_assoc {A = ℕ}) refl

start_text-append :
    (r : Request) (cfg : KeepAlive) (d : Destination) (forward_proxy : Bool) (more rest : Bytes)
    → start_text r cfg d forward_proxy (more ++ rest)
      ≡ start_text r cfg d forward_proxy more ++ rest
start_text-append r cfg d forward_proxy more rest =
    ten_pieces (method_or_get r) (b' ' ∷ []) (if forward_proxy then absolute d else [])
      (effective_path r) (codes " HTTP/1.1\r\n") (codes "Host: ") d.host
      (if ltb 0 d.port && not (d.port == default_port d.use_tls) then port_bytes d.port else [])
      crlf
      (if cfg.keep_alive && not cfg.disable_keep_alive
        then codes "Connection: keep-alive\r\n"
        else codes "Connection: close\r\n")
      more rest

-- The start of a writer that goes on with `tail`.
abbrev starting :
    ℕ → Request → KeepAlive → Destination → Bool → (Bytes → Option Bytes) → Option Bytes
starting size r cfg d forward_proxy tail = do
  w ← write_bytes size [] (method_or_get r)
  w ← write_bytes size w (b' ' ∷ [])
  w ←
      write_if forward_proxy
        (λ w. do
          w ← write_bytes size w (codes "http://")
          w ← write_bytes size w d.host
          write_if (ltb 0 d.port && not (d.port == 80)) (write_port size d.port) w)
        w
  w ← write_bytes size w (effective_path r)
  w ← write_bytes size w (codes " HTTP/1.1\r\n")
  w ← write_bytes size w (codes "Host: ")
  w ← write_bytes size w d.host
  w ← write_if (ltb 0 d.port && not (d.port == default_port d.use_tls)) (write_port size d.port) w
  w ← write_bytes size w crlf
  w ←
      if cfg.keep_alive && not cfg.disable_keep_alive
      then write_bytes size w (codes "Connection: keep-alive\r\n")
      else write_bytes size w (codes "Connection: close\r\n")
  tail w

starting-Writes :
    {tail : Bytes → Option Bytes} {more : Bytes} (size : ℕ) (r : Request) (cfg : KeepAlive)
    (d : Destination) (forward_proxy : Bool)
    → Writes size tail more
    → starting size r cfg d forward_proxy tail
      ≡ write_bytes size [] (start_text r cfg d forward_proxy more)
starting-Writes size r cfg d forward_proxy t =
    let port = write_port-Writes size d.port in
    let first = when size forward_proxy (
      bind size (piece size (codes "http://"))
        (bind size (piece size d.host) (when size (ltb 0 d.port && not (d.port == 80)) port))) in
    let conn =
      either size (cfg.keep_alive && not cfg.disable_keep_alive)
        (codes "Connection: keep-alive\r\n") (codes "Connection: close\r\n") in
    (bind size (piece size (method_or_get r)) (
        bind size (piece size (b' ' ∷ [])) (
          bind size first (
            bind size (piece size (effective_path r)) (
              bind size (piece size (codes " HTTP/1.1\r\n")) (
                bind size (piece size (codes "Host: ")) (
                  bind size (piece size d.host) (
                    bind size
                      (when size (ltb 0 d.port && not (d.port == default_port d.use_tls)) port)
                      (bind size (piece size crlf) (bind size conn t)))))))))).on
      [] (omega arith)

write_request_part1-Writes :
    (size : ℕ) (r : Request) (cfg : KeepAlive) (d : Destination) (compressed forward_proxy : Bool)
    → write_request_part1 size r cfg d compressed forward_proxy
      ≡ write_bytes size [] (start_lines r cfg d compressed forward_proxy)
unfolding write_request_part1
write_request_part1-Writes size r cfg d compressed forward_proxy =
    starting-Writes size r cfg d forward_proxy
      (when size compressed (piece size (codes "Content-Encoding: gzip\r\n")))

-- The length and the blank line.
abbrev pub length_bytes : ℕ → Bytes
length_bytes n = joined (codes "Content-Length: " ∷ int_bytes n ∷ codes "\r\n\r\n" ∷ [])

length_bytes-Writes : (size n : ℕ) → Writes size (write_content_length size n) (length_bytes n)
unfolding write_content_length write_int
length_bytes-Writes size n =
    bind size (piece size (codes "Content-Length: "))
      (bind size (piece size (int_bytes n)) (last size (piece size (codes "\r\n\r\n"))))

-- The caller's fields, and the proxy's.
abbrev pub stored_bytes : Request → Bool → Bytes → Bytes
stored_bytes r forward_proxy auth = r.header_block ++ (if forward_proxy then auth else [])

-- The two blocks in front of what `tail` writes.
stored_then :
    {tail : Bytes → Option Bytes} {more : Bytes} (size : ℕ) (r : Request) (forward_proxy : Bool)
    (auth : Bytes)
    → Writes size tail more
    → Writes size
        (λ w.
          write_if (nonempty r.header_block) (λ w. write_bytes size w r.header_block) w >>= (λ w.
            write_if (forward_proxy && nonempty auth) (λ w. write_bytes size w auth) w >>= tail))
        (stored_bytes r forward_proxy auth ++ more)
stored_then {more = more} size r forward_proxy auth t =
    let a = if forward_proxy then auth else [] in
    rw (append_assoc r.header_block a more)
      (bind size (optional size r.header_block) (bind size (optional_if size forward_proxy auth) t))

abbrev pub expect_bytes : Bool → Bytes
expect_bytes b = if b then expect_line else []

-- The whole head of a request whose body has `n` bytes.
abbrev pub request_bytes : Request → KeepAlive → Destination → ℕ → Bool → Bool → Bytes → Bytes
request_bytes r cfg d n compressed forward_proxy auth =
    start_lines r cfg d compressed forward_proxy
    ++ (stored_bytes r forward_proxy auth
        ++ (expect_bytes (r.expect_continue && ltb 0 n) ++ length_bytes n))

-- writeRequest writes all bytes of the request head (request line, Host, Connection, the content
-- encoding, the stored fields, the proxy header, the expectation and the length) or, exactly
-- where the buffer is too small for all of them, fails.
pub write_request-request_bytes :
    (size : ℕ) (r : Request) (cfg : KeepAlive) (d : Destination) (content : Bytes)
    (compressed forward_proxy : Bool) (auth : Bytes)
    → write_request size r cfg d content compressed forward_proxy auth
      ≡ write_bytes size [] (request_bytes r cfg d (length content) compressed forward_proxy auth)
unfolding write_request
write_request-request_bytes size r cfg d content compressed forward_proxy auth =
    starting-Writes size r cfg d forward_proxy (
      bind size (when size compressed (piece size (codes "Content-Encoding: gzip\r\n"))) (
        stored_then size r forward_proxy auth (
          bind size
            (when size (r.expect_continue && ltb 0 (length content)) (piece size expect_line))
            (length_bytes-Writes size (length content)))))
    ∙ ap (write_bytes size []) (start_text-append r cfg d forward_proxy _ _)

pub write_request_header_prefix-Writes :
    (size : ℕ) (r : Request) (cfg : KeepAlive) (d : Destination) (compressed forward_proxy : Bool)
    (auth : Bytes)
    → write_request_header_prefix size r cfg d compressed forward_proxy auth
      ≡ write_bytes size [] (
          start_lines r cfg d compressed forward_proxy
          ++ (stored_bytes r forward_proxy auth ++ expect_bytes r.expect_continue))
unfolding write_request_header_prefix
write_request_header_prefix-Writes size r cfg d compressed forward_proxy auth =
    starting-Writes size r cfg d forward_proxy (
      bind size (when size compressed (piece size (codes "Content-Encoding: gzip\r\n"))) (
        stored_then size r forward_proxy auth
          (when size r.expect_continue (piece size expect_line))))
    ∙ ap (write_bytes size []) (start_text-append r cfg d forward_proxy _ _)

write_request_part3-Writes :
    (size : ℕ) (r : Request) (n : ℕ) (auth : Bytes)
    → write_request_part3 size r n auth
      ≡ write_bytes size []
          (auth ++ (expect_bytes (r.expect_continue && ltb 0 n) ++ length_bytes n))
unfolding write_request_part3
write_request_part3-Writes size r n auth =
    (bind size (optional size auth) (
        bind size (when size (r.expect_continue && ltb 0 n) (piece size expect_line))
          (length_bytes-Writes size n))).on
      [] (omega arith)

-- Where parts 1 and 3 are each written to some buffer, part 3 with the proxy header exactly if a
-- forward proxy is used, and the request buffer has room, writeRequest writes part 1, the stored
-- header block and part 3, one behind the other.
pub write_request-parts :
    (size size1 size3 : ℕ) (r : Request) (cfg : KeepAlive) (d : Destination) (content : Bytes)
    (compressed forward_proxy : Bool) (auth part1 part3 : Bytes)
    → write_request_part1 size1 r cfg d compressed forward_proxy ≡ some part1
    → write_request_part3 size3 r (length content) (if forward_proxy then auth else []) ≡ some part3
    → length (part1 ++ (r.header_block ++ part3)) ≤ size
    → write_request size r cfg d content compressed forward_proxy auth
      ≡ some (part1 ++ (r.header_block ++ part3))
write_request-parts size size1 size3 r cfg d content compressed forward_proxy auth part1 part3 h1 h3
      l =
    let a = if forward_proxy then auth else [] in
    let n = length content in
    let expects = expect_bytes (r.expect_continue && ltb 0 n) in
    let start = start_lines r cfg d compressed forward_proxy in
    let e1 : part1 ≡ start =
      wrote size1 start part1
        (sym (write_request_part1-Writes size1 r cfg d compressed forward_proxy) ∙ h1) in
    let e3 : part3 ≡ a ++ (expects ++ length_bytes n) =
      wrote size3 (a ++ (expects ++ length_bytes n)) part3
        (sym (write_request_part3-Writes size3 r n a) ∙ h3) in
    let e : request_bytes r cfg d n compressed forward_proxy auth
        ≡ part1 ++ (r.header_block ++ part3) =
      ap (λ t. start ++ t)
        (append_assoc r.header_block a (expects ++ length_bytes n)
          ∙ ap (λ t. r.header_block ++ t) (sym e3))
      ∙ ap (λ t. t ++ (r.header_block ++ part3)) (sym e1) in
    write_request-request_bytes size r cfg d content compressed forward_proxy auth
    ∙ ap (write_bytes size []) e
    ∙ room size [] (part1 ++ (r.header_block ++ part3)) l
