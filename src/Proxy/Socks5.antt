-- ===== src/Proxy/Socks5.antt =====
-- socks5.go: the greeting, the login and the connect request of a SOCKS5 dialer. `net.ParseIP`, with
-- `To4` and `To16`, is a parameter, and so are `net.DialTimeout` and the first `SetDeadline`.
pub mod Agrees
pub mod Request
use bursthttp.Base.{
  ltb, length, get_or, take, Bytes, ℕ, not, Option, none, some, [], nonempty, ◌==◌, if◌then◌else◌,
  ◌+◌, ◌/◌, ◌%◌, ◌^◌, ◌||◌, ◌∷◌, ◌++◌,
}
use bursthttp.Errors.{Error, other, detailed, proxy_error}
use bursthttp.Input.{Outcome, done, failed, panics, out_of_fuel, ◌>>=◌}
use bursthttp.Proxy.{Conn, write, receive, copied, wrapped}

abbrev pub socks5_auth_failed : Error
socks5_auth_failed = other 1

abbrev pub socks5_conn_refused : Error
socks5_conn_refused = other 2

abbrev pub socks5_unsupported : Error
socks5_unsupported = other 3

-- A dialer, less its timeout and its logging.
pub record Socks5Dialer : Type 0 where
  pub proxy_addr : Bytes
  pub username : Bytes
  pub password : Bytes

-- What `net.ParseIP` makes of a host, with the bytes of `To4` or else of `To16`.
pub data ParsedHost : Type 0 where
  ip4 : Bytes → ParsedHost
  ip6 : Bytes → ParsedHost
  not_ip : ParsedHost

abbrev pub greeting : Socks5Dialer → Bytes
greeting d = if nonempty d.username then 5 ∷ 2 ∷ 0 ∷ 2 ∷ [] else 5 ∷ 1 ∷ 0 ∷ []

abbrev pub login : Socks5Dialer → Bytes
login d = 1 ∷ length d.username % 256 ∷ d.username ++ (length d.password % 256 ∷ d.password)

abbrev pub check_login : Bytes × Conn → Outcome Conn
check_login (bs, c) = if get_or bs 1 0 == 0 then done c else failed socks5_auth_failed

unfoldable pub authenticate : Socks5Dialer → Conn → Outcome Conn
authenticate d c =
    if ltb 255 (length d.username) || ltb 255 (length d.password)
    then failed socks5_auth_failed
    else (write (login d) c >>= λ c'. receive 2 c' >>= check_login)

-- The switch on the method that the proxy chose.
unfoldable pub chosen_method : Socks5Dialer → Bytes × Conn → Outcome Conn
chosen_method d (bs, c) =
    if not (get_or bs 0 0 == 5)
    then failed socks5_unsupported
    else if get_or bs 1 0 == 0
    then done c
    else if get_or bs 1 0 == 2
    then authenticate d c
    else if get_or bs 1 0 == 255
    then failed socks5_auth_failed
    else failed socks5_unsupported

unfoldable pub handshake : Socks5Dialer → Conn → Outcome Conn
handshake d c = do c' ← write (greeting d) c; reply ← receive 2 c'; chosen_method d reply

-- `uint16(port)` in the order of the network.
abbrev pub port_octets : ℕ → Bytes
port_octets port = port % 2 ^ 16 / 256 ∷ port % 256 ∷ []

abbrev pub domain_request : Bytes → ℕ → Bytes
domain_request host port = 5 ∷ 1 ∷ 0 ∷ 3 ∷ length host % 256 ∷ host ++ port_octets port

unfoldable pub connect_bytes : ParsedHost → Bytes → ℕ → Bytes
connect_bytes (ip4 a) host port = 5 ∷ 1 ∷ 0 ∷ 1 ∷ copied 4 a ++ port_octets port
connect_bytes (ip6 a) host port = 5 ∷ 1 ∷ 0 ∷ 4 ∷ copied 16 a ++ port_octets port
connect_bytes not_ip host port =
    if ltb 255 (length host) then domain_request (take 255 host) port else domain_request host port

abbrev pub skip : ℕ → Conn → Outcome Conn
skip n c = receive n c >>= λ (bs, c'). done c'

abbrev pub skip_domain : Bytes × Conn → Outcome Conn
skip_domain (bs, c) = skip (get_or bs 0 0 + 2) c

-- The switch on the type of the bound address, which is read past.
unfoldable pub skip_address : ℕ → Conn → Outcome Conn
skip_address atyp c =
    if atyp == 1
    then skip 6 c
    else if atyp == 4
    then skip 18 c
    else if atyp == 3
    then (receive 1 c >>= skip_domain)
    else failed socks5_unsupported

-- What follows the four bytes of the reply. The message ends with the code.
unfoldable pub check_reply : Bytes × Conn → Outcome Conn
check_reply (bs, c) =
    if not (get_or bs 0 0 == 5)
    then failed socks5_unsupported
    else if not (get_or bs 1 0 == 0)
    then failed (detailed proxy_error "SOCKS5 connection failed with code " socks5_conn_refused)
    else skip_address (get_or bs 3 0) c

-- What a dial comes to. A connection that `Dial` closes is not handed out.
pub data Dialed : Type 0 where
  not_dialed : Error → Dialed
  closed : Error → Dialed
  established : Conn → Dialed
  crashed : Dialed

abbrev pub dialed : Outcome Conn → Dialed
dialed (done c) = established c
dialed (failed e) = closed e
dialed panics = crashed
dialed out_of_fuel = crashed

module _ (parse_ip : Bytes → ParsedHost) where
  unfoldable pub connect_request : Bytes → ℕ → Conn → Outcome Conn
  connect_request host port c = do
    c' ← write (connect_bytes (parse_ip host) host port) c
    reply ← receive 4 c'
    check_reply reply

  -- The two steps of `Dial` on a connection whose deadline is set.
  unfoldable pub negotiate : Socks5Dialer → Bytes → ℕ → Conn → Outcome Conn
  negotiate d host port c = do
    c' ← wrapped proxy_error "SOCKS5 handshake failed" (handshake d c)
    wrapped proxy_error "SOCKS5 connect request failed" (connect_request host port c')

  abbrev pub after_dial : Socks5Dialer → Bytes → ℕ → Option Error → Outcome Conn → Dialed
  after_dial d host port deadline (failed e) =
      not_dialed (detailed proxy_error "SOCKS5 connect failed" e)
  after_dial d host port (some e) (done c) = closed e
  after_dial d host port none (done c) = dialed (negotiate d host port c)
  after_dial d host port deadline _ = crashed

  -- `Dial`, from what `net.DialTimeout` and `SetDeadline` gave.
  unfoldable pub dial : Socks5Dialer → Bytes → ℕ → Option Error → Outcome Conn → Dialed
  unfolding negotiate
  dial d host port deadline connected = after_dial d host port deadline connected
