-- ===== src/Pool/Key.antt =====
-- The key of a host's pool: built in `DoWithContext` of client.go, and taken apart in `getHostPool`
-- and `parseHostPort` of pool.go. `strconv.Atoi` is a parameter. A configured port that is not
-- positive is 0.
pub mod Target
use bursthttp.Base.{
  ltb, take, drop, Bytes, codes, eq_bytes, ℕ, Bool, Option, none, some, [], ℤ, pos, ◌==◌,
  if◌then◌else◌, ◌∷◌, ◌++◌,
}

-- `strings.LastIndex` of one byte: what stands before it, and what behind.
unfoldable pub last_split : ℕ → Bytes → Option (Bytes × Bytes)
last_split b [] = none
last_split b (c ∷ s) = elim (last_split b s) [
  | some (before, behind) ↦ some (c ∷ before, behind)
  | none ↦ if c == b then some ([], s) else none
]

-- `strconv.Atoi`, accepted if it is positive.
unfoldable pub port_of : (Bytes → Option ℤ) → Bytes → ℕ → ℕ
port_of atoi s default = elim (atoi s) [
  | some (pos n) ↦ if ltb 0 n then n else default
  | _ ↦ default
]

-- The case of an address in brackets: `inner` is `key[:end]`, which begins with the bracket.
unfoldable pub bracketed : (Bytes → Option ℤ) → ℕ → Bytes → Bytes → Bytes × ℕ
bracketed atoi default inner (c ∷ port) =
    (drop 1 inner, if c == b':' then port_of atoi port default else default)
bracketed atoi default inner [] = (drop 1 inner, default)

-- `parseHostPort`
unfoldable pub parse_host_port : (Bytes → Option ℤ) → Bytes → ℕ → Bytes → Bytes × ℕ
parse_host_port atoi default_host default_port [] = (default_host, default_port)
parse_host_port atoi default_host default_port (c ∷ s) =
    if c == b'['
    then elim (last_split b']' (c ∷ s)) [
      | none ↦ (c ∷ s, default_port)
      | some (inner, rest) ↦ bracketed atoi default_port inner rest
    ]
    else elim (last_split b':' (c ∷ s)) [
      | none ↦ (c ∷ s, default_port)
      | some (host, port) ↦ (host, port_of atoi port default_port)
    ]

-- What stands behind the first "://".
unfoldable pub after_scheme : Bytes → Option Bytes
after_scheme [] = none
after_scheme (c ∷ s) =
    let later = after_scheme s in
    if eq_bytes (take 3 (c ∷ s)) (codes "://") then some (drop 3 (c ∷ s)) else later

unfoldable pub strip_scheme : Bytes → Bytes
strip_scheme key = elim (after_scheme key) [ none ↦ key | some s ↦ s ]

-- The host and the port that the pool of a key dials.
unfoldable pub dial_target : (Bytes → Option ℤ) → Bytes → ℕ → Bytes → Bytes × ℕ
dial_target atoi default_host default_port key =
    parse_host_port atoi default_host default_port (strip_scheme key)

-- `fmt.Sprintf("%s://%s:%d", scheme, host, dialPort)`, with the digits of the port given.
unfoldable pub pool_key : Bool → Bytes → Bytes → Bytes
pool_key use_tls host digits =
    (if use_tls then codes "https" else codes "http") ++ (codes "://" ++ (host ++ b':' ∷ digits))
