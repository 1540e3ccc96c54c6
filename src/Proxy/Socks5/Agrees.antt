-- ===== src/Proxy/Socks5/Agrees.antt =====
-- The dialer of socks5.go against the messages of RFC 1928 and RFC 1929.
use bursthttp.Base.{
  ltb, length, length-append, Bytes, ℕ, refl, ap, false, none, [], append_assoc, append-nil, arith,
  ◌+◌, ◌≤◌, ◌<◌, ◌≡◌, ◌∙◌, ◌∷◌, ◌++◌,
}
use mathlib.Core.Path.{subst}
use bursthttp.Errors.{proxy_error}
use bursthttp.Input.{Input, done, ◌>>=◌}
use bursthttp.Input.Flat.{flat, ending}
use bursthttp.Proxy.{receive, write}
use bursthttp.Proxy.Steps.{
  Dialogue, as_Steps, done-Dialogue, write-Dialogue, receive-Dialogue, wrapped-Dialogue,
  bind-Dialogue,
}
use bursthttp.Proxy.Reads.{conn}
use bursthttp.Proxy.Socks5.{
  Socks5Dialer, ParsedHost, greeting, login, check_login, authenticate, chosen_method, handshake,
  connect_bytes, skip, skip_domain, skip_address, check_reply, connect_request, negotiate, dialed,
  dial, established,
}

-- The method that a proxy chooses, and the version in its answer to a login.
pub data Method : Type 0 where
  anonymous : Method
  with_login : ℕ → Method

abbrev pub method_wire : Method → Bytes
method_wire anonymous = 5 ∷ 0 ∷ []
method_wire (with_login v) = 5 ∷ 2 ∷ v ∷ 0 ∷ []

abbrev pub login_of : Method → Socks5Dialer → Bytes
login_of anonymous d = []
login_of (with_login v) d = login d

-- The address that a proxy says it bound, with its port, in the form of a reply.
pub data Bound : Type 0 where
  bound_ip4 : Bytes → Bound
  bound_ip6 : Bytes → Bound
  bound_name : Bytes → Bytes → Bound

abbrev pub bound_type : Bound → ℕ
bound_type (bound_ip4 a) = 1
bound_type (bound_ip6 a) = 4
bound_type (bound_name name port) = 3

abbrev pub bound_wire : Bound → Bytes
bound_wire (bound_ip4 a) = a
bound_wire (bound_ip6 a) = a
bound_wire (bound_name name port) = length name ∷ name ++ port

abbrev pub IsBound : Bound → Type 0
IsBound (bound_ip4 a) = length a ≡ 6
IsBound (bound_ip6 a) = length a ≡ 18
IsBound (bound_name name port) = (length name < 256) × (length port ≡ 2)

not_longer : (n : ℕ) → n ≤ 255 → ltb 255 n ≡ false
not_longer n h = ground arith

-- The answer to a login is read and its second byte is zero.
authenticate-Dialogue :
    (d : Socks5Dialer) (s rest : Bytes) (v : ℕ) (i : Input)
    → length d.username ≤ 255
    → length d.password ≤ 255
    → flat i ≡ v ∷ 0 ∷ rest
    → Dialogue (authenticate d) s (login d) rest i
unfolding authenticate
authenticate-Dialogue d s rest v i hu hp h =
    let st : Dialogue (λ c. write (login d) c >>= λ c'. receive 2 c' >>= check_login) s
        (login d ++ []) rest i =
      write-Dialogue (login d) (
        receive-Dialogue check_login (v ∷ 0 ∷ []) rest refl h
          (λ j f. as_Steps refl (done-Dialogue f))) in
    as_Steps (rw (not_longer (length d.username) hu, not_longer (length d.password) hp) refl) (
      subst
        (λ out.
          Dialogue (λ c. write (login d) c >>= λ c'. receive 2 c' >>= check_login) s out rest i)
        (append-nil (login d)) st)

skip-Dialogue :
    (n : ℕ) (s bs rest : Bytes) (i : Input)
    → length bs ≡ n
    → flat i ≡ bs ++ rest
    → Dialogue (skip n) s [] rest i
skip-Dialogue n s bs rest i l h =
    receive-Dialogue (λ (got, c). done c) bs rest l h (λ j f. done-Dialogue f)

-- The bound address is read past, whatever its form.
skip_address-Dialogue :
    (b : Bound) (s rest : Bytes) (i : Input)
    → IsBound b
    → flat i ≡ bound_wire b ++ rest
    → Dialogue (skip_address (bound_type b)) s [] rest i
unfolding skip_address
skip_address-Dialogue (bound_ip4 a) s rest i w h = as_Steps refl (skip-Dialogue 6 s a rest i w h)
skip_address-Dialogue (bound_ip6 a) s rest i w h = as_Steps refl (skip-Dialogue 18 s a rest i w h)
skip_address-Dialogue (bound_name name port) s rest i (w, l) h = as_Steps refl (
    receive-Dialogue skip_domain (length name ∷ []) ((name ++ port) ++ rest) refl h (λ j f.
      skip-Dialogue (length name + 2) s (name ++ port) rest j
        (omega (arith, length-append name port)) f))

handshake-Dialogue :
    (d : Socks5Dialer) (m : Method) (s rest : Bytes) (i : Input)
    → length d.username ≤ 255
    → length d.password ≤ 255
    → flat i ≡ method_wire m ++ rest
    → Dialogue (handshake d) s (greeting d ++ login_of m d) rest i
unfolding handshake chosen_method
handshake-Dialogue d anonymous s rest i hu hp h = write-Dialogue (greeting d) (
    receive-Dialogue (chosen_method d) (5 ∷ 0 ∷ []) rest refl h
      (λ j f. as_Steps refl (done-Dialogue f)))
handshake-Dialogue d (with_login v) s rest i hu hp h = write-Dialogue (greeting d) (
    receive-Dialogue (chosen_method d) (5 ∷ 2 ∷ []) (v ∷ 0 ∷ rest) refl h
      (λ j f. as_Steps refl (authenticate-Dialogue d (s ++ greeting d) rest v j hu hp f)))

module _ (parse_ip : Bytes → ParsedHost) where
  connect_request-Dialogue :
      (host : Bytes) (port : ℕ) (b : Bound) (r : ℕ) (s rest : Bytes) (i : Input)
      → IsBound b
      → flat i ≡ 5 ∷ 0 ∷ r ∷ bound_type b ∷ (bound_wire b ++ rest)
      → Dialogue
          (connect_request parse_ip host port)
          s
          (connect_bytes (parse_ip host) host port ++ [])
          rest
          i
  unfolding connect_request check_reply
  connect_request-Dialogue host port b r s rest i w h =
      write-Dialogue (connect_bytes (parse_ip host) host port) (
        receive-Dialogue check_reply (5 ∷ 0 ∷ r ∷ bound_type b ∷ []) (bound_wire b ++ rest) refl h
          (λ j f.
            as_Steps refl
              (skip_address-Dialogue b (s ++ connect_bytes (parse_ip host) host port) rest j w f)))

  negotiate-Dialogue :
      (d : Socks5Dialer) (host : Bytes) (port : ℕ) (m : Method) (b : Bound) (r : ℕ) (s rest : Bytes)
      (i : Input)
      → length d.username ≤ 255
      → length d.password ≤ 255
      → IsBound b
      → flat i ≡ method_wire m ++ (5 ∷ 0 ∷ r ∷ bound_type b ∷ (bound_wire b ++ rest))
      → Dialogue
          (negotiate parse_ip d host port)
          s
          ((greeting d ++ login_of m d) ++ (connect_bytes (parse_ip host) host port ++ []))
          rest
          i
  unfolding negotiate
  negotiate-Dialogue d host port m b r s rest i hu hp w h =
      bind-Dialogue (connect_bytes (parse_ip host) host port ++ []) rest
        (wrapped-Dialogue proxy_error "SOCKS5 handshake failed"
          (handshake-Dialogue d m s (5 ∷ 0 ∷ r ∷ bound_type b ∷ (bound_wire b ++ rest)) i hu hp h))
        (λ j f.
          wrapped-Dialogue proxy_error "SOCKS5 connect request failed"
            (connect_request-Dialogue host port b r (s ++ (greeting d ++ login_of m d)) rest j w f))

  -- With a user name and a password of at most 255 bytes, to a proxy whose answers, in any
  -- segments, are those of RFC 1928 and RFC 1929 for a granted request, with or without a login
  -- and with any form of the bound address, Dial hands the connection out, has sent the
  -- greeting, the login if it was asked for, and the request, and leaves exactly the bytes
  -- behind the answers to be read.
  pub dial-established :
      (d : Socks5Dialer) (host : Bytes) (port : ℕ) (m : Method) (b : Bound) (r : ℕ) (tunnel : Bytes)
      (i : Input)
      → length d.username ≤ 255
      → length d.password ≤ 255
      → IsBound b
      → flat i ≡ method_wire m ++ (5 ∷ 0 ∷ r ∷ bound_type b ∷ (bound_wire b ++ tunnel))
      → (left : Input) × (dial parse_ip d host port none (done (conn [] i))
          ≡ established
              (conn (greeting d ++ (login_of m d ++ connect_bytes (parse_ip host) host port)) left))
        × (flat left ≡ tunnel)
        × (ending left ≡ ending i)
  unfolding dial
  dial-established d host port m b r tunnel i hu hp w h =
      let st = negotiate-Dialogue d host port m b r [] tunnel i hu hp w h in
      (
        st.left,
        ap dialed st.result
            ∙ ap (λ out. established (conn out st.left))
                (ap (λ q. (greeting d ++ login_of m d) ++ q)
                    (append-nil (connect_bytes (parse_ip host) host port))
                  ∙ append_assoc (greeting d) (login_of m d)
                      (connect_bytes (parse_ip host) host port)),
        st.left_is,
        st.same_end,
      )
