-- ===== src/Pool/Idle.antt =====
-- What the pool hands out, and that its searches end.
use bursthttp.Base.{
  Bool-cases, Option-cases, length, get_elem?, All, ℕ, zero, suc, inl, inr, true, false, Option,
  none, some, List, [], arith, ◌+◌, ◌%◌, ◌≡◌, ◌⊎◌, ◌∷◌, ◌++◌,
}
use bursthttp.Connection.{HealthConfig, Connection, is_healthy, can_accept_request}
use bursthttp.Pool.{Scan, scan_one, order, scan, scan_rest}

abbrev pub In : Connection → List Connection → Type 0
In c [] = ⊥
In c (d ∷ ds) = (c ≡ d) ⊎ In c ds

abbrev pub Comes : List Connection → Connection × ℕ → Type 0
Comes cs (c, at) = In c cs

abbrev pub Unhealthy : List Connection → Connection → Type 0
Unhealthy cs c = In c cs × (is_healthy c ≡ false)

-- A connection of the list that takes a request.
abbrev pub Takes : HealthConfig → List Connection → Connection → Type 0
Takes cfg cs c = In c cs × (is_healthy c ≡ true) × (can_accept_request cfg c ≡ true)

abbrev pub BestTakes : HealthConfig → List Connection → Option (Connection × ℕ) → Type 0
BestTakes cfg cs none = Unit
BestTakes cfg cs (some (c, at)) = Takes cfg cs c

pub record Sound (cfg : HealthConfig) (cs : List Connection) (s : Scan) : Type 0 where
  pub best_ok : BestTakes cfg cs s.best
  pub unhealthy_ok : All (Unhealthy cs) s.unhealthy

In-get : (cs : List Connection) (i : ℕ) (c : Connection) → get_elem? cs i ≡ some c → In c cs
In-get [] i c h = ground arith
In-get (d ∷ ds) zero c h = ground arith
In-get (d ∷ ds) (suc i) c h = inr (In-get ds i c h)

pub order-Comes : (cs : List Connection) (start i k : ℕ) → All (Comes cs) (order cs start i k)
unfolding order
order-Comes cs start i zero = tt
order-Comes cs start i (suc k) = elim (Option-cases (get_elem? cs ((start + i) % length cs))) [
  | inl e ↦ rw (e, order) (order-Comes cs start (i + 1) k)
  | inr (c, e) ↦
      rw (e, order) (In-get cs ((start + i) % length cs) c e, order-Comes cs start (i + 1) k)
]

pub All-snoc :
    (P : Connection → Type 0) (us : List Connection) (c : Connection)
    → All P us
    → P c
    → All P (us ++ c ∷ [])
All-snoc P [] c h k = (k, tt)
All-snoc P (u ∷ us) c (h, hs) k = (h, All-snoc P us c hs k)

scan_one-Sound :
    (cfg : HealthConfig) (cs : List Connection) (at : ℕ) (c : Connection) (s : Scan)
    → In c cs
    → Sound cfg cs s
    → Sound cfg cs (scan_one cfg at c s).0
unfolding scan_one
scan_one-Sound cfg cs at c s i k = ground (arith, All-snoc (Unhealthy cs) s.unhealthy c)

pub scan-Sound :
    (cfg : HealthConfig) (cs : List Connection) (xs : List (Connection × ℕ)) (s : Scan)
    → All (Comes cs) xs
    → Sound cfg cs s
    → Sound cfg cs (scan cfg xs s)
unfolding scan
scan-Sound cfg cs [] s h k = k
scan-Sound cfg cs ((c, at) ∷ xs) s (h, hs) k =
    let one = scan_one-Sound cfg cs at c s h k in
    ground (arith, one, scan-Sound cfg cs xs (scan_one cfg at c s).0 hs one)

pub scan_rest-Sound :
    (cfg : HealthConfig) (cs : List Connection) (xs : List (Connection × ℕ)) (us : List Connection)
    → All (Comes cs) xs
    → All (Unhealthy cs) us
    → Sound cfg cs (scan_rest cfg xs us)
unfolding scan_rest
scan_rest-Sound cfg cs [] us h k = record { best_ok = tt; unhealthy_ok = k }
scan_rest-Sound cfg cs ((c, at) ∷ xs) us (h, hs) k = elim (Bool-cases (is_healthy c)) [
  | inr u ↦
      rw (u, scan_rest)
        (scan_rest-Sound cfg cs xs (us ++ c ∷ []) hs (All-snoc (Unhealthy cs) us c k (h, u)))
  | inl u ↦ elim (Bool-cases (can_accept_request cfg c)) [
    | inl a ↦ rw (u, a, scan_rest) (record { best_ok = (h, u, a); unhealthy_ok = k })
    | inr a ↦ rw (u, a, scan_rest) (scan_rest-Sound cfg cs xs us hs k)
  ]
]
