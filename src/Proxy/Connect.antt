-- ===== src/Proxy/Connect.antt =====
-- proxy.go: the CONNECT request to an HTTP proxy, and the reading of its answer. `url.Parse`, base64 and
-- `net.DialTimeout` are parameters; the deadlines of the socket are not modelled.
pub mod Text
pub mod Target
pub mod Tunnel
use bursthttp.Base.{
  ltb, leb, length, get_or, take, drop, replicate, Bytes, codes, crlf, eq_bytes, ℕ, zero, suc,
  Option, none, some, [], nonempty, ◌==◌, if◌then◌else◌, ◌+◌, ◌-◌, ◌/◌, ◌%◌, ◌&&◌, ◌||◌, ◌∷◌, ◌++◌,
}
use bursthttp.Errors.{
  Error, wrap_error, proxy_error, protocol_error, sentinel, proxy_failed, invalid_response,
  header_too_large,
}
use bursthttp.Input.{Input, Outcome, done, failed, panics, out_of_fuel, read, ◌>>=◌}
use bursthttp.Parser.HeaderEnd.{find_header_end}
use bursthttp.Writer.{digit}
use bursthttp.Proxy.{Conn, write, wrapped}
use bursthttp.Proxy.Socks5.{Dialed, not_dialed, established, closed, crashed, dialed}

-- A dialer, less its timeouts and its logging.
pub record ProxyDialer : Type 0 where
  pub proxy_addr : Bytes
  pub auth_header : Bytes

-- `u.Host`, `u.Port()` and `u.Scheme`
pub record ProxyUrl : Type 0 where
  pub host : Bytes
  pub port : Bytes
  pub scheme : Bytes

abbrev pub with_port : ProxyUrl → Bytes
with_port u =
    if nonempty u.port
    then u.host
    else if eq_bytes u.scheme (codes "https")
    then u.host ++ codes ":443"
    else u.host ++ codes ":80"

-- `NewProxyDialer`, for a URL that parses.
unfoldable pub new_proxy_dialer : (Bytes → Bytes) → ProxyUrl → Bytes → Bytes → Outcome ProxyDialer
new_proxy_dialer encode u username password =
    if nonempty u.host
    then done (record {
      proxy_addr = with_port u;
      auth_header =
          if nonempty username || nonempty password
          then codes "Proxy-Authorization: Basic " ++ (encode (username ++ b':' ∷ password) ++ crlf)
          else [];
    })
    else failed (wrap_error proxy_error "empty proxy address" (sentinel proxy_failed))

-- The loop over `portBuf`, from its end, with `room` bytes in front.
unfoldable pub port_digits : ℕ → ℕ → Bytes → Outcome Bytes
port_digits room zero tail = done tail
port_digits zero (suc n) tail = panics
port_digits (suc room) (suc n) tail = port_digits room (suc n / 10) (digit (suc n % 10) ∷ tail)

-- `buildTarget`
unfoldable pub build_target : Bytes → ℕ → Outcome Bytes
build_target host port =
    if port == 443
    then done (host ++ codes ":443")
    else if port == 80
    then done (host ++ codes ":80")
    else if port == 0
    then done (host ++ codes ":0")
    else (port_digits 12 port [] >>= λ ds. done (host ++ b':' ∷ ds))

-- `copy(buf[pos:], src)`
unfoldable pub copy_at : ℕ → Bytes → Bytes → Bytes
copy_at at src buf = take at buf ++ (take (length buf - at) src ++ drop (at + length src) buf)

abbrev pub total_size : Bytes → Bytes → ℕ
total_size target auth = 8 + length target + 17 + length target + 2 + length auth + 2

-- The six copies of `writeConnect` into a buffer of zeros.
unfoldable pub connect_message : Bytes → Bytes → Bytes
unfolding copy_at
connect_message target auth =
    let t = length target in
    let buf = replicate (total_size target auth) 0 in
    let buf = copy_at 0 (codes "CONNECT ") buf in
    let buf = copy_at 8 target buf in
    let buf = copy_at (8 + t) (codes " HTTP/1.1\r\nHost: ") buf in
    let buf = copy_at (8 + t + 17) target buf in
    let buf = copy_at (8 + t + 17 + t) crlf buf in
    let buf = copy_at (8 + t + 17 + t + 2) auth buf in
    copy_at (8 + t + 17 + t + 2 + length auth) crlf buf

abbrev pub bad_response : Error → Error
bad_response e = wrap_error proxy_error "proxy CONNECT rejected" e

-- The tests on the bytes read, once they hold a head. The message ends with the status.
unfoldable pub check_status : Bytes → Input → Outcome Input
check_status seen rest =
    if ltb (length seen) 12
    then failed (wrap_error protocol_error "proxy response too short" (sentinel invalid_response))
    else if get_or seen 9 0 == b'2' && (get_or seen 10 0 == b'0' && get_or seen 11 0 == b'0')
    then done rest
    else failed (bad_response (sentinel proxy_failed))

abbrev pub proxy_closed : Error
proxy_closed = wrap_error protocol_error "proxy connection closed" (sentinel invalid_response)

abbrev pub incomplete : Error
incomplete = wrap_error protocol_error "proxy response incomplete" (sentinel invalid_response)

abbrev pub second_found : Bytes → Input → Option ℕ → Outcome Input
second_found seen rest none = failed incomplete
second_found seen rest (some n) = check_status seen rest

unfoldable pub second_read : Bytes → Outcome (Bytes × Input) → Outcome Input
second_read seen (done ([], rest)) = failed proxy_closed
second_read seen (done (b ∷ bs, rest)) =
    second_found (seen ++ (b ∷ bs)) rest (find_header_end (seen ++ (b ∷ bs)))
second_read seen (failed e) = failed e
second_read seen panics = panics
second_read seen out_of_fuel = out_of_fuel

abbrev pub first_found : Bytes → Input → Option ℕ → Outcome Input
first_found seen rest (some n) = check_status seen rest
first_found seen rest none =
    if leb 512 (length seen)
    then failed (wrap_error protocol_error "proxy response too large" (sentinel header_too_large))
    else second_read seen (read (512 - length seen) rest)

unfoldable pub first_read : Outcome (Bytes × Input) → Outcome Input
first_read (done ([], rest)) = failed proxy_closed
first_read (done (b ∷ bs, rest)) = first_found (b ∷ bs) rest (find_header_end (b ∷ bs))
first_read (failed e) = failed e
first_read panics = panics
first_read out_of_fuel = out_of_fuel

-- `readConnectResponse`: two reads at most. What they take behind the head is dropped.
unfoldable pub read_connect_response : Conn → Outcome Conn
read_connect_response c =
    first_read (read 512 c.incoming) >>= λ rest. done (record c { incoming = rest })

-- The two steps of `Dial` on a connection to the proxy.
unfoldable pub tunnel : ProxyDialer → Bytes → Conn → Outcome Conn
tunnel p target c = do
  c' ←
      wrapped proxy_error "proxy CONNECT write failed"
        (write (connect_message target p.auth_header) c)
  wrapped proxy_error "proxy CONNECT response failed" (read_connect_response c')

abbrev pub tunnel_dialed : ProxyDialer → Outcome Bytes → Outcome Conn → Dialed
tunnel_dialed p (done target) (done c) = dialed (tunnel p target c)
tunnel_dialed p (done target) (failed e) =
    not_dialed (wrap_error proxy_error "proxy connection failed" e)
tunnel_dialed p _ _ = crashed

-- `Dial`, from what `net.DialTimeout` gave.
unfoldable pub dial_tunnel : ProxyDialer → Bytes → ℕ → Outcome Conn → Dialed
dial_tunnel p host port connected = tunnel_dialed p (build_target host port) connected
