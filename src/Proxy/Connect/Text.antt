-- ===== src/Proxy/Connect/Text.antt =====
-- The request that writeConnect of proxy.go sends, in one piece.
use bursthttp.Base.{
  length, length-append, take, drop, replicate, length-replicate, take-append_of_length, take_all,
  Bytes, codes, crlf, ℕ, zero, suc, refl, sym, ap, [], append_assoc, append-nil, arith, ◌+◌, ◌-◌,
  ◌≡◌, ◌∙◌, ◌∷◌, ◌++◌,
}
use bursthttp.Proxy.Connect.{copy_at, total_size, connect_message}

-- The request, in one piece.
abbrev pub connect_text : Bytes → Bytes → Bytes
connect_text target auth =
    codes "CONNECT "
    ++ (target ++ (codes " HTTP/1.1\r\nHost: " ++ (target ++ (crlf ++ (auth ++ crlf)))))

drop-append_more : (xs ys : Bytes) (k : ℕ) → drop (length xs + k) (xs ++ ys) ≡ drop k ys
drop-append_more [] ys k = let e : length {A = ℕ} [] + k ≡ k = omega arith in ap (λ n. drop n ys) e
drop-append_more (x ∷ xs) ys k =
    let e : length (x ∷ xs) + k ≡ suc (length xs + k) = omega arith in
    ap (λ n. drop n (x ∷ (xs ++ ys))) e ∙ drop-append_more xs ys k

drop-replicate : (b k : ℕ) → drop {A = ℕ} b (replicate k 0) ≡ replicate (k - b) 0
drop-replicate zero k = let e : k ≡ k - 0 = omega arith in ap (λ n. replicate n 0) e
drop-replicate (suc b) zero = let e : 0 ≡ 0 - suc b = omega arith in ap (λ n. replicate n 0) e
drop-replicate (suc b) (suc k) =
    let e : k - b ≡ suc k - suc b = omega arith in drop-replicate b k ∙ ap (λ n. replicate n 0) e

-- A copy behind what is filled already, into zeros that are left.
copy_at-fills :
    (at n k : ℕ) (filled src buf : Bytes)
    → n ≡ length src + k
    → at ≡ length filled
    → buf ≡ filled ++ replicate n 0
    → copy_at at src buf ≡ (filled ++ src) ++ replicate k 0
unfolding copy_at
copy_at-fills at n k filled src buf q p e =
    let e1 : take at (filled ++ replicate n 0) ≡ filled =
      take-append_of_length filled _ at (sym p) in
    let e2 : take (length (filled ++ replicate n 0) - at) src ≡ src =
      take_all src _
        (omega (arith, p, q, length-append filled (replicate n 0), length-replicate {A = ℕ} n 0)) in
    let left : n - length src ≡ k = omega (arith, q) in
    let e3 : drop (at + length src) (filled ++ replicate n 0) ≡ replicate k 0 =
      rw (p, drop-append_more filled (replicate n 0) (length src), drop-replicate (length src) n)
        (ap (λ m. replicate m 0) left) in
    rw (e, e1, e2, e3) (sym (append_assoc filled src _))

length-grows : (f src : Bytes) (n : ℕ) → n ≡ length f → n + length src ≡ length (f ++ src)
length-grows f src n l = omega (arith, length-append f src, l)

regroup :
    (m t h c a : Bytes)
    → (((((((m ++ t) ++ h) ++ t) ++ c) ++ a) ++ c) ++ [])
      ≡ m ++ (t ++ (h ++ (t ++ (c ++ (a ++ c)))))
regroup m t h c a = simp (append_assoc {A = ℕ}, append-nil {A = ℕ}) refl

-- The six copies make one piece of text, for any target and header.
pub connect_message-text :
    (target auth : Bytes) → connect_message target auth ≡ connect_text target auth
unfolding connect_message
connect_message-text target auth =
    let t = length target in
    let a = length auth in
    let m : Bytes = codes "CONNECT " in
    let h : Bytes = codes " HTTP/1.1\r\nHost: " in
    let l1 : 8 ≡ length m = refl in
    let l2 : 8 + t ≡ length (m ++ target) = length-grows m target 8 l1 in
    let l3 : 8 + t + 17 ≡ length ((m ++ target) ++ h) = length-grows (m ++ target) h (8 + t) l2 in
    let l4 : 8 + t + 17 + t ≡ length (((m ++ target) ++ h) ++ target) =
      length-grows ((m ++ target) ++ h) target (8 + t + 17) l3 in
    let l5 : 8 + t + 17 + t + 2 ≡ length ((((m ++ target) ++ h) ++ target) ++ crlf) =
      length-grows (((m ++ target) ++ h) ++ target) crlf (8 + t + 17 + t) l4 in
    let l6 : 8 + t + 17 + t + 2 + a ≡ length (((((m ++ target) ++ h) ++ target) ++ crlf) ++ auth) =
      length-grows ((((m ++ target) ++ h) ++ target) ++ crlf) auth (8 + t + 17 + t + 2) l5 in
    let b1 =
      copy_at-fills 0 (total_size target auth) (t + 17 + t + 2 + a + 2) [] m _ (omega arith) refl
        refl in
    let b2 =
      copy_at-fills 8 (t + 17 + t + 2 + a + 2) (17 + t + 2 + a + 2) m target _ (omega arith) l1
        b1 in
    let b3 =
      copy_at-fills (8 + t) (17 + t + 2 + a + 2) (t + 2 + a + 2) (m ++ target) h _ (omega arith) l2
        b2 in
    let b4 =
      copy_at-fills (8 + t + 17) (t + 2 + a + 2) (2 + a + 2) ((m ++ target) ++ h) target _
        (omega arith) l3 b3 in
    let b5 =
      copy_at-fills (8 + t + 17 + t) (2 + a + 2) (a + 2) (((m ++ target) ++ h) ++ target) crlf _
        (omega arith) l4 b4 in
    let b6 =
      copy_at-fills (8 + t + 17 + t + 2) (a + 2) 2 ((((m ++ target) ++ h) ++ target) ++ crlf) auth _
        (omega arith) l5 b5 in
    let b7 =
      copy_at-fills (8 + t + 17 + t + 2 + a) 2 0
        (((((m ++ target) ++ h) ++ target) ++ crlf) ++ auth) crlf _ (omega arith) l6 b6 in
    b7 ∙ regroup m target h crlf auth
