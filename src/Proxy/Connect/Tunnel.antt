-- ===== src/Proxy/Connect/Tunnel.antt =====
-- The tunnels that `Dial` of proxy.go makes and refuses, by the pieces in which the answer comes.
use bursthttp.Base.{
  ltb, leb, length, length-append, get_or, Bytes, ℕ, refl, sym, ap, true, false, Option, none, some,
  [], append-nil, arith, ◌-◌, ◌≤◌, ◌<◌, ◌≡◌, ◌∷◌, ◌++◌,
}
use mathlib.Core.Path.{subst}
use bursthttp.Errors.{wrap_error, proxy_error}
use bursthttp.Input.{Input, chunk, read, done, failed}
use bursthttp.Parser.HeaderEnd.{find_header_end}
use bursthttp.Parser.HeaderEnd.First.{find_header_end-append}
use bursthttp.Proxy.{write, wrapped}
use bursthttp.Proxy.Reads.{conn, write-conn}
use bursthttp.Proxy.Socks5.{established, closed}
use bursthttp.Writer.Length.{ten_to}
use bursthttp.Proxy.Connect.{
  ProxyDialer, check_status, first_read, second_read, incomplete, connect_message,
  read_connect_response, tunnel, dial_tunnel,
}
use bursthttp.Proxy.Connect.Text.{connect_text, connect_message-text}
use bursthttp.Proxy.Connect.Target.{IsTarget, build_target-IsTarget}

-- An answer in one piece or two.
abbrev pub in_pieces : Bytes → Bytes → Input → Input
in_pieces a [] rest = chunk a rest
in_pieces a (x ∷ b) rest = chunk a (chunk (x ∷ b) rest)

-- The answer says 200 where its status stands.
abbrev pub Says200 : Bytes → Type 0
Says200 answer =
    (12 ≤ length answer)
    × (get_or answer 9 0 ≡ b'2')
    × (get_or answer 10 0 ≡ b'0')
    × (get_or answer 11 0 ≡ b'0')

check_status-Says200 :
    (answer : Bytes) (rest : Input) → Says200 answer → check_status answer rest ≡ done rest
unfolding check_status
check_status-Says200 answer rest (l, a, b, c) =
    let long : ltb (length answer) 12 ≡ false = ground (arith, l) in rw (long, a, b, c) refl

read_all :
    (k : ℕ) (bs : Bytes) (rest : Input) → length bs ≤ k → read k (chunk bs rest) ≡ done (bs, rest)
unfolding read
read_all k bs rest l = let t : leb (length bs) k ≡ true = ground (arith, l) in rw t refl

first_read-accepts :
    (a b : Bytes) (rest : Input) (k : ℕ)
    → 0 < length a
    → length (a ++ b) ≤ 512
    → find_header_end (a ++ b) ≡ some k
    → (0 < length b → find_header_end a ≡ none)
    → Says200 (a ++ b)
    → first_read (read 512 (in_pieces a b rest)) ≡ done rest
unfolding first_read second_read
first_read-accepts [] b rest k p l f g w = absurd (omega (arith, p))
first_read-accepts (x ∷ a) [] rest k p l f g w =
    let e = sym (append-nil (x ∷ a)) in
    rw (read_all 512 (x ∷ a) rest (omega (arith, l, ap length e)), ap find_header_end e, f)
      (check_status-Says200 (x ∷ a) rest (subst Says200 (append-nil (x ∷ a)) w))
first_read-accepts (x ∷ a) (y ∷ b) rest k p l f g w =
    let n = length-append (x ∷ a) (y ∷ b) in
    let short : leb 512 (length (x ∷ a)) ≡ false = ground (arith, l, n) in
    rw
      (
        read_all 512 (x ∷ a) (chunk (y ∷ b) rest) (omega (arith, l, n)),
        g (omega arith),
        short,
        read_all (512 - length (x ∷ a)) (y ∷ b) rest (omega (arith, l, n)),
        f,
      )
      (check_status-Says200 ((x ∷ a) ++ (y ∷ b)) rest w)

find_header_end-none : (a b : Bytes) → find_header_end (a ++ b) ≡ none → find_header_end a ≡ none
find_header_end-none a b f = go (find_header_end a) refl
  where
    go : (o : Option ℕ) → find_header_end a ≡ o → find_header_end a ≡ none
    go none e = e
    go (some n) e = let g = find_header_end-append a b n e in cc

first_read-refuses :
    (a b : Bytes) (rest : Input)
    → 0 < length a
    → 0 < length b
    → length (a ++ b) ≤ 512
    → find_header_end a ≡ none
    → find_header_end (a ++ b) ≡ none
    → first_read (read 512 (chunk a (chunk b rest))) ≡ failed incomplete
unfolding first_read second_read
first_read-refuses [] b rest p q l g f = absurd (omega (arith, p))
first_read-refuses (x ∷ a) [] rest p q l g f = absurd (omega (arith, q))
first_read-refuses (x ∷ a) (y ∷ b) rest p q l g f =
    let n = length-append (x ∷ a) (y ∷ b) in
    let short : leb 512 (length (x ∷ a)) ≡ false = ground (arith, l, n) in
    rw
      (
        read_all 512 (x ∷ a) (chunk (y ∷ b) rest) (omega (arith, l, n)),
        g,
        short,
        read_all (512 - length (x ∷ a)) (y ∷ b) rest (omega (arith, l, n)),
        f,
      )
      refl

written :
    (target auth s : Bytes) (i : Input)
    → write (connect_message target auth) (conn s i) ≡ done (conn (s ++ connect_text target auth) i)
written target auth s i =
    rw (connect_message-text target auth) (write-conn (connect_text target auth) s i)

-- For a port below 10 ^ 12 and a proxy whose answer comes in one or two pieces of at most 512
-- bytes together, with the blank line that ends the head in the last of them and 200 at the
-- place of the status, Dial hands the connection out and has sent exactly the text of the
-- CONNECT request, with the host, a colon and digits that spell the port in both places, and the
-- line for the login; what the pieces hold behind the head is lost.
pub dial_tunnel-established :
    (p : ProxyDialer) (host a b s : Bytes) (port k : ℕ) (rest : Input)
    → port < ten_to 12
    → 0 < length a
    → length (a ++ b) ≤ 512
    → find_header_end (a ++ b) ≡ some k
    → (0 < length b → find_header_end a ≡ none)
    → Says200 (a ++ b)
    → (target : Bytes) × IsTarget host port target
      × (dial_tunnel p host port (done (conn s (in_pieces a b rest)))
          ≡ established (conn (s ++ connect_text target p.auth_header) rest))
unfolding dial_tunnel tunnel read_connect_response wrapped
dial_tunnel-established p host a b s port k rest hp ha l f g w =
    let (target, e, t) = build_target-IsTarget host port hp in
    (
      target,
      t,
      rw
          (
            e,
            written target p.auth_header s (in_pieces a b rest),
            first_read-accepts a b rest k ha l f g w,
          )
          refl,
    )

-- For a port below 10 ^ 12, where the first two pieces of the answer, of at most 512 bytes
-- together and neither of them empty, do not complete the head, Dial refuses the proxy as
-- incomplete and closes the connection, whatever comes next.
pub dial_tunnel-third_piece :
    (p : ProxyDialer) (host a b s : Bytes) (port : ℕ) (rest : Input)
    → port < ten_to 12
    → 0 < length a
    → 0 < length b
    → length (a ++ b) ≤ 512
    → find_header_end (a ++ b) ≡ none
    → dial_tunnel p host port (done (conn s (chunk a (chunk b rest))))
      ≡ closed (wrap_error proxy_error "proxy CONNECT response failed" incomplete)
unfolding dial_tunnel tunnel read_connect_response wrapped
dial_tunnel-third_piece p host a b s port rest hp ha hb l f =
    let (target, e, t) = build_target-IsTarget host port hp in
    rw
      (
        e,
        written target p.auth_header s (chunk a (chunk b rest)),
        first_read-refuses a b rest ha hb l (find_header_end-none a b f) f,
      )
      refl
