-- ===== src/Proxy/Socks5/Request.antt =====
-- The connect request of socks5.go, read back as RFC 1928 writes it.
use bursthttp.Base.{
  ltb, Bool-cases, length, take, drop, replicate, length-take, take-append_of_length,
  drop-append_of_length, take_all, Bytes, ℕ, refl, ap, inl, inr, false, Option, none, some, [],
  arith, ◌==◌, if◌then◌else◌, ◌+◌, ◌*◌, ◌/◌, ◌%◌, ◌^◌, ◌≤◌, ◌≡◌, ◌&&◌, ◌∷◌,
}
use bursthttp.Proxy.{copied}
use bursthttp.Proxy.Socks5.{
  ParsedHost, ip4, ip6, not_ip, port_octets, domain_request, connect_bytes,
}

-- Where a request asks the proxy to connect to.
pub data Target : Type 0 where
  address4 : Bytes → Target
  address6 : Bytes → Target
  name : Bytes → Target

-- Two bytes in the order of the network, and no more behind them.
abbrev read_port : Target → Bytes → Option (Target × ℕ)
read_port t (hi ∷ lo ∷ []) = some (t, hi * 256 + lo)
read_port t _ = none

abbrev read_name : Bytes → Option (Target × ℕ)
read_name [] = none
read_name (n ∷ bs) = read_port (name (take n bs)) (drop n bs)

abbrev read_address : ℕ → Bytes → Option (Target × ℕ)
read_address atyp bs =
    if atyp == 1
    then read_port (address4 (take 4 bs)) (drop 4 bs)
    else if atyp == 4
    then read_port (address6 (take 16 bs)) (drop 16 bs)
    else if atyp == 3
    then read_name bs
    else none

-- A CONNECT request of RFC 1928: the version, the command, a reserved byte, the address and the port.
unfoldable pub read_request : Bytes → Option (Target × ℕ)
read_request (v ∷ cmd ∷ reserved ∷ atyp ∷ bs) =
    if v == 5 && (cmd == 1 && reserved == 0) then read_address atyp bs else none
read_request _ = none

-- What the dialer means by a host: an address, or the first 255 bytes of a name.
abbrev pub target : ParsedHost → Bytes → Target
target (ip4 a) host = address4 a
target (ip6 a) host = address6 a
target not_ip host = name (take 255 host)

-- The lengths that `To4` and `To16` have.
abbrev pub HasLength : ParsedHost → Type 0
HasLength (ip4 a) = length a ≡ 4
HasLength (ip6 a) = length a ≡ 16
HasLength not_ip = Unit

not_longer : (n : ℕ) → ltb 255 n ≡ false → n ≤ 255
not_longer n h = ground arith

byte_length : (n : ℕ) → n ≤ 255 → n % 256 ≡ n
byte_length n h = omega arith

port-digits : (port : ℕ) → port % 2 ^ 16 / 256 * 256 + port % 256 ≡ port % 2 ^ 16
port-digits port = omega arith

read_port-octets :
    (t : Target) (port : ℕ) → read_port t (port_octets port) ≡ some (t, port % 2 ^ 16)
read_port-octets t port = ap (λ n. some (t, n)) (port-digits port)

copied-full : (n : ℕ) (a : Bytes) → length a ≡ n → copied n a ≡ a
copied-full n a h = take-append_of_length a (replicate n 0) n h

read_name-request :
    (host : Bytes) (port : ℕ)
    → length host ≤ 255
    → read_request (domain_request host port) ≡ some (name host, port % 2 ^ 16)
unfolding read_request
read_name-request host port h =
    rw
      (
        byte_length (length host) h,
        take-append_of_length host (port_octets port) (length host) refl,
        drop-append_of_length host (port_octets port) (length host) refl,
      )
      (read_port-octets (name host) port)

-- With the lengths that To4 and To16 have, the connect request reads back, as RFC 1928 writes
-- it, as the address of the host or the first 255 bytes of its name, and as the port modulo 2 ^
-- 16.
pub connect_bytes-read_request :
    (p : ParsedHost) (host : Bytes) (port : ℕ)
    → HasLength p
    → read_request (connect_bytes p host port) ≡ some (target p host, port % 2 ^ 16)
unfolding connect_bytes read_request
connect_bytes-read_request (ip4 a) host port h =
    rw
      (
        copied-full 4 a h,
        take-append_of_length a (port_octets port) 4 h,
        drop-append_of_length a (port_octets port) 4 h,
      )
      (read_port-octets (address4 a) port)
connect_bytes-read_request (ip6 a) host port h =
    rw
      (
        copied-full 16 a h,
        take-append_of_length a (port_octets port) 16 h,
        drop-append_of_length a (port_octets port) 16 h,
      )
      (read_port-octets (address6 a) port)
connect_bytes-read_request not_ip host port h = elim (Bool-cases (ltb 255 (length host))) [
  | inl t ↦ rw t (read_name-request (take 255 host) port (omega (arith, length-take 255 host)))
  | inr t ↦
      rw (t, take_all host 255 (not_longer (length host) t))
        (read_name-request host port (not_longer (length host) t))
]
