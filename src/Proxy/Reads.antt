-- ===== src/Proxy/Reads.antt =====
-- What readFull takes off a connection, said of the bytes alone.
use bursthttp.Base.{
  leb, tests, Bool-cases, length, length-append, take-append_of_length, drop-append_of_length,
  append-split, Bytes, ℕ, zero, suc, refl, sym, ap, inl, inr, false, [], arith, ◌-◌, ◌<◌, ◌≡◌, ◌∷◌,
  ◌++◌,
}
use bursthttp.Input.{Input, chunk, stop, done, ◌>>=◌}
use bursthttp.Input.Flat.{flat, ending}
use bursthttp.Proxy.{Conn, conn_read_full, receive, write}

leb-false : (a b : ℕ) → leb a b ≡ false → b < a
leb-false a b h = ground arith

pub conn_read_full-append :
    (n : ℕ) (i : Input) (bs rest : Bytes)
    → length bs ≡ n
    → flat i ≡ bs ++ rest
    → (j : Input) × (conn_read_full n i ≡ done (bs, j)) × (flat j ≡ rest) × (ending j ≡ ending i)
unfolding conn_read_full
conn_read_full-append zero i [] rest l h = (i, refl, h, refl)
conn_read_full-append zero i (b ∷ bs) rest l h = absurd (omega arith)
conn_read_full-append (suc n) (stop e) [] rest l h = absurd (omega arith)
conn_read_full-append (suc n) (stop e) (b ∷ bs) rest l h = cc
conn_read_full-append (suc n) (chunk cs i) bs rest l h =
    elim (Bool-cases (leb (length cs) (suc n))) [
      | inl t ↦
          let (mid, e, f) = append-split cs (flat i) bs rest (omega (tests, t, l)) h in
          let (j, g, fj, ej) =
            conn_read_full-append (suc n - length cs) i mid rest
              (omega (arith, ap length e, length-append cs mid)) f in
          (j, rw (t, g) (ap (λ b. done (b, j)) (sym e)), fj, ej)
      | inr t ↦
          let (mid, e, f) =
            append-split bs rest cs (flat i) (omega (arith, leb-false (length cs) (suc n) t, l))
              (sym h) in
          (
            chunk mid i,
            rw (
              t,
              e,
              take-append_of_length bs mid (suc n) l,
              drop-append_of_length bs mid (suc n) l,
            ),
            sym f,
            refl,
          )
    ]

-- A connection on which no write fails.
abbrev pub conn : Bytes → Input → Conn
conn s i = record { sent = s; write_errors = []; incoming = i }

pub write-conn : (bs s : Bytes) (i : Input) → write bs (conn s i) ≡ done (conn (s ++ bs) i)
unfolding write
write-conn bs s i = refl

pub receive-append :
    (n : ℕ) (s : Bytes) (i : Input) (bs rest : Bytes)
    → length bs ≡ n
    → flat i ≡ bs ++ rest
    → (j : Input) × (receive n (conn s i) ≡ done (bs, conn s j))
      × (flat j ≡ rest)
      × (ending j ≡ ending i)
unfolding receive
receive-append n s i bs rest l h =
    let (j, e, f, g) = conn_read_full-append n i bs rest l h in
    (j, ap (λ o. o >>= λ (got, left). done (got, conn s left)) e, f, g)
