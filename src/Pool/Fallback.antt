-- ===== src/Pool/Fallback.antt =====
-- `getAnyConnection` ends too, with a healthy connection if there is an answer.
use bursthttp.Base.{
  Bool-cases, Option-cases, length, get_elem?, length-append, All, ℕ, zero, suc, min, refl, inl,
  inr, true, Option, none, some, List, [], arith, ◌==◌, ◌+◌, ◌%◌, ◌≤◌, ◌<◌, ◌≡◌, ◌∷◌, ◌++◌,
}
use native.Mathlib.Nat.{mod-lt}
use bursthttp.Connection.{Connection, is_healthy}
use bursthttp.Pool.Counts.{Counted, remove_unhealthy_connections-Counted}
use bursthttp.Pool.Idle.{In, Unhealthy, Comes, order-Comes, All-snoc}
use bursthttp.Pool.Picks.{In-remove, remove_shrinks}
use bursthttp.Pool.{
  HostPool, remove_unhealthy_connections, Scan, order, find_healthy, any_round, get_any_connection,
}

-- The answer, if there is one, is healthy and of the list; without an answer the pool is empty.
abbrev pub Fallback : List Connection → HostPool → Option Connection → Type 0
Fallback cs hp' none = hp'.connections ≡ []
Fallback cs hp' (some c) = In c cs × (is_healthy c ≡ true)

pub record FallsBack (hp : HostPool) (o : Option (HostPool × Option Connection)) : Type 0 where
  pub pool : HostPool
  pub answer : Option Connection
  pub returned : o ≡ some (pool, answer)
  pub counted : Counted pool
  pub fallback : Fallback hp.connections pool answer

abbrev BestHealthy : List Connection → Option (Connection × ℕ) → Type 0
BestHealthy cs none = Unit
BestHealthy cs (some (c, at)) = In c cs × (is_healthy c ≡ true)

-- The loop finds a healthy connection, or has listed every one that it has looked at.
record Found (cs : List Connection) (n : ℕ) (s : Scan) : Type 0 where
  healthy_ok : BestHealthy cs s.best
  unhealthy_ok : All (Unhealthy cs) s.unhealthy
  listed : s.best ≡ none → n ≤ length s.unhealthy

find_healthy-Found :
    (cs : List Connection) (xs : List (Connection × ℕ)) (us : List Connection)
    → All (Comes cs) xs
    → All (Unhealthy cs) us
    → Found cs (length us + length xs) (find_healthy xs us)
unfolding find_healthy
find_healthy-Found cs [] us h k = record {
  healthy_ok = tt;
  unhealthy_ok = k;
  listed = λ e. omega arith;
}
find_healthy-Found cs ((c, at) ∷ xs) us (h, hs) k = elim (Bool-cases (is_healthy c)) [
  | inl u ↦
      rw (u, find_healthy) (record { healthy_ok = (h, u); unhealthy_ok = k; listed = λ e. cc })
  | inr u ↦
      let f = find_healthy-Found cs xs (us ++ c ∷ []) hs (All-snoc (Unhealthy cs) us c k (h, u)) in
      rw (u, find_healthy)
        (record {
          healthy_ok = f.healthy_ok;
          unhealthy_ok = f.unhealthy_ok;
          listed = λ e. omega (arith, f.listed e, length-append us (c ∷ []));
        })
]

get_elem?-none : (cs : List Connection) (i : ℕ) → get_elem? cs i ≡ none → length cs ≤ i
get_elem?-none [] i h = omega arith
get_elem?-none (c ∷ cs) zero h = cc
get_elem?-none (c ∷ cs) (suc i) h = omega (arith, get_elem?-none cs i h)

order_nonempty :
    (cs : List Connection) (start k : ℕ) → 0 < length cs → 0 < length (order cs start 0 (suc k))
unfolding order
order_nonempty cs start k h = elim (Option-cases (get_elem? cs ((start + 0) % length cs))) [
  | inl e ↦
      absurd (omega (arith, get_elem?-none cs ((start + 0) % length cs) e, mod-lt (start + 0) h))
  | inr (c, e) ↦ rw (e, order) (omega arith)
]

order_positive :
    (cs : List Connection) (start k : ℕ) → 0 < length cs → 0 < k → 0 < length (order cs start 0 k)
order_positive cs start zero h p = absurd (omega arith)
order_positive cs start (suc k) h p = order_nonempty cs start k h

Fallback-remove :
    (us : List Connection) (hp hp' : HostPool) (a : Option Connection)
    → Fallback (remove_unhealthy_connections us hp).connections hp' a
    → Fallback hp.connections hp' a
Fallback-remove us hp hp' none h = h
Fallback-remove us hp hp' (some c) (i, t) = (In-remove us hp c i, t)

shrinks :
    (us : List Connection) (hp : HostPool)
    → All (Unhealthy hp.connections) us
    → 0 < length us
    → length (remove_unhealthy_connections us hp).connections < length hp.connections
shrinks [] hp h p = absurd (omega arith)
shrinks (u ∷ us) hp h p = remove_shrinks u us hp h.0.0

nil_of_length : (cs : List Connection) → length cs ≡ 0 → cs ≡ []
nil_of_length [] h = refl
nil_of_length (c ∷ cs) h = cc

any_round-FallsBack :
    (hp : HostPool) (best : Option (Connection × ℕ)) (us : List Connection)
    (again : Option (HostPool × Option Connection))
    → Counted hp
    → BestHealthy hp.connections best
    → (best ≡ none → FallsBack (remove_unhealthy_connections us hp) again)
    → FallsBack hp
        (any_round (length hp.connections) (remove_unhealthy_connections us hp) best again)
unfolding any_round
any_round-FallsBack hp (some (c, at)) us again k b next =
    let dropped = remove_unhealthy_connections-Counted us hp k in
    record {
      pool = record (remove_unhealthy_connections us hp) {
        index = (at + 1) % length hp.connections;
      };
      answer = some c;
      returned = refl;
      fallback = b;
      counted = record { active = dropped.active; idle = dropped.idle; limited = dropped.limited };
    }
any_round-FallsBack hp none us again k b next =
    let f = next refl in
    record {
      pool = f.pool;
      answer = f.answer;
      returned = f.returned;
      counted = f.counted;
      fallback = Fallback-remove us hp f.pool f.answer f.fallback;
    }

-- getAnyConnection, on a pool whose counters are right, ends within one round more than there
-- are connections and leaves the counters right; it hands out a healthy connection of the pool,
-- or none, and then the pool is left empty.
pub get_any_connection-FallsBack :
    (fuel : ℕ) (hp : HostPool)
    → Counted hp
    → length hp.connections < fuel
    → FallsBack hp (get_any_connection fuel hp)
unfolding get_any_connection
get_any_connection-FallsBack zero hp k l = absurd (omega arith)
get_any_connection-FallsBack (suc fuel) hp k l = elim (Bool-cases (length hp.connections == 0)) [
  | inl e ↦
      rw (e, get_any_connection)
        (record {
          pool = hp;
          answer = none;
          returned = refl;
          counted = k;
          fallback = nil_of_length hp.connections (ground (arith, e));
        })
  | inr e ↦
      let cs = hp.connections in
      let xs = order cs hp.index 0 (min (length cs) 8) in
      let f = find_healthy-Found cs xs [] (order-Comes cs hp.index 0 (min (length cs) 8)) tt in
      let us = (find_healthy xs []).unhealthy in
      let some_order : 0 < length xs =
        order_positive cs hp.index (min (length cs) 8) (ground (arith, e)) (ground (arith, e)) in
      rw (e, get_any_connection)
        (any_round-FallsBack hp _ us _ k f.healthy_ok (λ n.
          get_any_connection-FallsBack fuel (remove_unhealthy_connections us hp)
            (remove_unhealthy_connections-Counted us hp k)
            (omega (arith, shrinks us hp f.unhealthy_ok (omega (arith, f.listed n, some_order))))))
]
