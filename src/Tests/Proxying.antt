-- ===== src/Tests/Proxying.antt =====
-- Dials through a SOCKS5 proxy that asks for a login, and through an HTTP proxy.
use bursthttp.Base.{
  replicate, Bytes, codes, crlf, refl, none, some, [], arith, ◌%◌, ◌^◌, ◌≡◌, ◌∷◌, ◌++◌,
}
use bursthttp.Errors.{eof}
use bursthttp.Input.{Input, chunk, stop, done}
use bursthttp.Input.Flat.{flat, ending}
use bursthttp.Proxy.Reads.{conn}
use bursthttp.Errors.{wrap_error, proxy_error}
use bursthttp.Proxy.Socks5.{closed}
use bursthttp.Parser.HeaderEnd.{find_header_end}
use bursthttp.Proxy.Connect.{ProxyDialer, incomplete, connect_message, dial_tunnel}
use bursthttp.Proxy.Connect.Text.{connect_text}
use bursthttp.Proxy.Connect.Target.{IsTarget}
use bursthttp.Proxy.Connect.Tunnel.{in_pieces, dial_tunnel-established, dial_tunnel-third_piece}
use bursthttp.Proxy.Socks5.{
  Socks5Dialer, ParsedHost, not_ip, ip4, dial, established, greeting, connect_bytes,
}
use bursthttp.Proxy.Socks5.Agrees.{with_login, bound_ip4, login_of, dial-established}
use bursthttp.Proxy.Socks5.Request.{read_request, target, connect_bytes-read_request}

abbrev dialer : Socks5Dialer
dialer = record { proxy_addr = codes "p:1080"; username = codes "u"; password = codes "pw" }

abbrev all_names : Bytes → ParsedHost
all_names host = not_ip

abbrev zeros : Bytes
zeros = replicate 6 0

-- The answers of the proxy in three segments, with two bytes of the tunnel behind them.
abbrev answers : Input
answers =
    chunk (5 ∷ []) (chunk (2 ∷ 1 ∷ 0 ∷ 5 ∷ 0 ∷ 0 ∷ 1 ∷ []) (chunk (zeros ++ codes "hi") (stop eof)))

dial-established_example :
    (left : Input) × (dial all_names dialer (codes "h") 443 none (done (conn [] answers))
      ≡ established (
          conn
            (greeting dialer
              ++ (login_of (with_login 1) dialer
                  ++ connect_bytes (all_names (codes "h")) (codes "h") 443))
            left))
    × (flat left ≡ codes "hi")
    × (ending left ≡ ending answers)
dial-established_example =
    dial-established all_names dialer (codes "h") 443 (with_login 1) (bound_ip4 zeros) 0
      (codes "hi") answers (omega arith) (omega arith) refl refl

connect_bytes-read_request_example :
    read_request (connect_bytes (ip4 (10 ∷ 0 ∷ 0 ∷ 1 ∷ [])) (codes "10.0.0.1") 65979)
    ≡ some (target (ip4 (10 ∷ 0 ∷ 0 ∷ 1 ∷ [])) (codes "10.0.0.1"), 65979 % 2 ^ 16)
connect_bytes-read_request_example =
    connect_bytes-read_request (ip4 (10 ∷ 0 ∷ 0 ∷ 1 ∷ [])) (codes "10.0.0.1") 65979 refl

request_run : connect_bytes not_ip (codes "ab") 258 ≡ 5 ∷ 1 ∷ 0 ∷ 3 ∷ 2 ∷ b'a' ∷ b'b' ∷ 1 ∷ 2 ∷ []
unfolding connect_bytes
request_run = refl

abbrev tunnel_dialer : ProxyDialer
tunnel_dialer = record { proxy_addr = codes "p:80"; auth_header = [] }

abbrev tunnel_answer : Bytes
tunnel_answer = codes "HTTP/1.1 200 OK\r\n"

dial_tunnel-established_example :
    (target : Bytes) × IsTarget (codes "h") 8443 target
    × (dial_tunnel tunnel_dialer
          (codes "h")
          8443
          (done (conn [] (in_pieces tunnel_answer crlf (stop eof))))
        ≡ established (conn ([] ++ connect_text target []) (stop eof)))
unfolding find_header_end
dial_tunnel-established_example =
    dial_tunnel-established tunnel_dialer (codes "h") tunnel_answer crlf [] 8443 19 (stop eof)
      (omega arith) (omega arith) (omega arith) refl (λ h. refl) (omega arith, refl, refl, refl)

dial_tunnel-third_piece_example :
    dial_tunnel tunnel_dialer
      (codes "h")
      8443
      (done (conn [] (chunk (codes "HTTP/1.1 ") (chunk tunnel_answer (chunk crlf (stop eof))))))
    ≡ closed (wrap_error proxy_error "proxy CONNECT response failed" incomplete)
unfolding find_header_end
dial_tunnel-third_piece_example =
    dial_tunnel-third_piece tunnel_dialer (codes "h") (codes "HTTP/1.1 ") tunnel_answer [] 8443
      (chunk crlf (stop eof)) (omega arith) (omega arith) (omega arith) (omega arith) refl

tunnel_run : connect_message (codes "h:80") [] ≡ codes "CONNECT h:80 HTTP/1.1\r\nHost: h:80\r\n\r\n"
unfolding connect_message
tunnel_run = refl
