-- ===== src/Request.antt =====
-- request.go. `headerBuf[:headerLen]` is `header_block`, and only the sizes of the two buffers are
-- kept. Sizes and ports that are not positive are 0: the source only asks whether they are. The
-- context, the response and the release function of a request are the client's, and not here.
pub mod Header
use bursthttp.Base.{
  ltb, leb, length, take, Bytes, codes, cr, lf, eq_bytes, ℕ, Bool, true, false, Option, none, some,
  [], ℤ, pos, nonempty, ◌==◌, if◌then◌else◌, ◌+◌, ◌*◌, ◌||◌, ◌∷◌, ◌++◌,
}
use bursthttp.Response.{round_up, new_size}

pub record Request : Type 0 where
  pub method : Bytes
  pub url : Bytes
  pub path : Bytes
  pub req_body : Bytes
  pub is_compressed : Bool
  pub expect_continue : Bool
  pub read_timeout : ℤ
  pub write_timeout : ℤ
  pub parsed_host : Bytes
  pub parsed_port : ℕ
  pub parsed_tls : Bool
  pub parsed_path : Bytes
  pub url_parsed : Bool
  pub header_block : Bytes
  pub header_size : ℕ
  pub max_body_size : ℕ
  pub body_size : ℕ
  pub pre_encoded : Bytes

-- `Reset`, which keeps the buffers and the body limit.
unfoldable pub reset_request : Request → Request
reset_request r = record r {
  method = [];
  url = [];
  path = [];
  req_body = [];
  is_compressed = false;
  expect_continue = false;
  read_timeout = pos 0;
  write_timeout = pos 0;
  parsed_host = [];
  parsed_port = 0;
  parsed_tls = false;
  parsed_path = [];
  url_parsed = false;
  header_block = [];
  pre_encoded = [];
}

-- `containsCRLF`
unfoldable pub contains_crlf : Bytes → Bool
contains_crlf [] = false
contains_crlf (c ∷ s) = c == cr || c == lf || contains_crlf s

abbrev pub max_header_size : ℕ
max_header_size = 1024 * 1024

-- `ensureHeaderBufferSize`: the size of the buffer after it, `none` where it returns false.
unfoldable pub ensure_header_size : ℕ → ℕ → Option ℕ
ensure_header_size size required =
    if leb required size
    then some size
    else let doubled = size * 2 in
      let n = round_up (if ltb doubled required then required else doubled) 4096 in
      if ltb max_header_size n
      then (if ltb max_header_size required then none else some max_header_size)
      else some n

-- `ensureBodyBufferSize`: the size of the body buffer after it, `none` where it returns false.
-- A negative size panics in `make`.
unfoldable pub ensure_body_size : Request → ℕ → Option ℤ
ensure_body_size r required =
    if leb required r.body_size
    then some (pos r.body_size)
    else new_size r.body_size r.max_body_size required

-- "Key: Value\r\n"
abbrev pub header_line : Bytes → Bytes → Bytes
header_line key value = key ++ b':' ∷ b' ' ∷ (value ++ cr ∷ lf ∷ [])

-- The growth `SetHeader` asks for: the size of the buffer once it has room for `required` bytes.
unfoldable pub header_room : Request → ℕ → Option ℕ
header_room r required =
    if ltb r.header_size required
    then ensure_header_size r.header_size required
    else some r.header_size

-- `SetHeader`: the request after it, and its answer.
unfoldable pub set_header : Request → Bytes → Bytes → Request × Bool
set_header r key value =
    if contains_crlf key || contains_crlf value
    then (r, false)
    else elim (header_room r (length r.header_block + (length key + 2 + length value + 2))) [
      | none ↦ (r, false)
      | some n ↦ (
        record r { header_block = r.header_block ++ header_line key value; header_size = n },
        true,
      )
    ]

-- `effectivePath`
unfoldable pub effective_path : Request → Bytes
effective_path r =
    if nonempty r.parsed_path then r.parsed_path else if nonempty r.path then r.path else b'/' ∷ []

-- What `url.Parse` of the standard library gives `resolveURL`: the scheme in lower case, `Hostname`,
-- `Port` as `strconv.Atoi` reads it if that is a positive number, and `RequestURI`.
pub record Url : Type 0 where
  pub scheme : Bytes
  pub hostname : Bytes
  pub port : Option ℕ
  pub request_uri : Bytes

-- `strings.Contains(raw, "://")`
unfoldable pub contains_scheme : Bytes → Bool
contains_scheme [] = false
contains_scheme (c ∷ s) = eq_bytes (take 3 (c ∷ s)) (codes "://") || contains_scheme s

pub record Target : Type 0 where
  pub host : Bytes
  pub dial_port : ℕ
  pub use_tls : Bool
  pub target_path : Bytes

-- The switch on the scheme: TLS and the default port.
unfoldable pub scheme_port : Bytes → Option (Bool × ℕ)
scheme_port s =
    if eq_bytes s (codes "https")
    then some (true, 443)
    else if eq_bytes s (codes "http")
    then some (false, 80)
    else none

abbrev pub port_or : Option ℕ → ℕ → ℕ
port_or none p = p
port_or (some q) p = q

-- From the parsed URL to the target; `none` where `resolveURL` returns false.
unfoldable pub target_of : Url → Option Target
target_of u = elim (scheme_port u.scheme) [
  | none ↦ none
  | some (tls, p) ↦
      if nonempty u.hostname
      then some (record {
        host = u.hostname;
        dial_port = port_or u.port p;
        use_tls = tls;
        target_path = if nonempty u.request_uri then u.request_uri else b'/' ∷ [];
      })
      else none
]

-- What `resolveURL` parses: the URL, with "http://" in front if it has no scheme.
unfoldable pub raw_url : Bytes → Bytes
raw_url raw = if contains_scheme raw then raw else codes "http://" ++ raw

abbrev pub cached_target : Request → Option Target
cached_target r =
    if nonempty r.parsed_host
    then some (record {
      host = r.parsed_host;
      dial_port = r.parsed_port;
      use_tls = r.parsed_tls;
      target_path = r.parsed_path;
    })
    else none

-- `resolveURL`, over the parser: the request after it, and the target.
unfoldable pub resolve_url : (Bytes → Option Url) → Request → Request × Option Target
resolve_url parse_url r =
    if r.url_parsed
    then (r, cached_target r)
    else let marked = record r { url_parsed = true } in
      if nonempty r.url
      then elim (parse_url (raw_url r.url)) [
        | none ↦ (marked, none)
        | some u ↦ elim (target_of u) [
          | none ↦ (marked, none)
          | some t ↦ (
            record marked {
              parsed_host = t.host;
              parsed_port = t.dial_port;
              parsed_tls = t.use_tls;
              parsed_path = t.target_path;
            },
            some t,
          )
        ]
      ]
      else (marked, none)
