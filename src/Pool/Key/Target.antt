-- ===== src/Pool/Key/Target.antt =====
-- The pool of a request dials the host and the port that the request names.
use bursthttp.Base.{
  Bytes, eq_bytes, ℕ, refl, ap, Bool, true, false, Option, none, some, [], arith, ℤ, pos, ◌==◌, ◌<◌,
  ◌≡◌, ◌≢◌, ◌∷◌, ◌++◌,
}
use bursthttp.Parser.Headers.Render.{NoColon}
use bursthttp.Pool.Key.{
  last_split, port_of, parse_host_port, after_scheme, strip_scheme, dial_target, pool_key,
}

last_split_absent : (s : Bytes) → NoColon s → last_split b':' s ≡ none
unfolding last_split
last_split_absent [] h = refl
last_split_absent (c ∷ s) h = ground (arith, h.0, last_split_absent s h.1)

last_split-append :
    (host digits : Bytes)
    → NoColon digits
    → last_split b':' (host ++ b':' ∷ digits) ≡ some (host, digits)
unfolding last_split
last_split-append [] digits h = rw (last_split_absent digits h, last_split) refl
last_split-append (c ∷ host) digits h = rw (last_split-append host digits h, last_split) refl

strip_scheme-pool_key :
    (use_tls : Bool) (host digits : Bytes)
    → strip_scheme (pool_key use_tls host digits) ≡ host ++ b':' ∷ digits
unfolding strip_scheme pool_key after_scheme eq_bytes
strip_scheme-pool_key true host digits = refl
strip_scheme-pool_key false host digits = refl

port_of_positive :
    (atoi : Bytes → Option ℤ) (digits : Bytes) (default port : ℕ)
    → atoi digits ≡ some (pos port)
    → 0 < port
    → port_of atoi digits default ≡ port
unfolding port_of
port_of_positive atoi digits default port a p = rw (a, port_of) (ground arith)

-- The pool key that DoWithContext builds from a scheme, a host that is not empty and does not
-- begin with a bracket, and the digits of a positive port, which have no colon, is taken apart
-- by the pool into exactly that host and port; colons in the host, as in an IPv6 address, do no
-- harm.
pub dial_target-pool_key :
    (atoi : Bytes → Option ℤ) (default_host : Bytes) (default_port port c : ℕ) (use_tls : Bool)
    (host digits : Bytes)
    → c ≢ b'['
    → NoColon digits
    → atoi digits ≡ some (pos port)
    → 0 < port
    → dial_target atoi default_host default_port (pool_key use_tls (c ∷ host) digits)
      ≡ (c ∷ host, port)
unfolding dial_target parse_host_port
dial_target-pool_key atoi default_host default_port port c use_tls host digits b n a p =
    let plain : (c == b'[') ≡ false = ground (arith, b) in
    rw
      (
        strip_scheme-pool_key use_tls (c ∷ host) digits,
        plain,
        last_split-append (c ∷ host) digits n,
      )
      (ap (λ q. (c ∷ host, q)) (port_of_positive atoi digits default_port port a p))
