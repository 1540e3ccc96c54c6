-- ===== src/Pool/Picks.antt =====
-- `getIdleConnection` ends, and what it hands out is a connection of the pool that takes a request.
use bursthttp.Base.{
  Bool-cases, length, All, ℕ, zero, suc, min, refl, ap, inl, inr, true, Option, none, some, List,
  [], arith, ◌==◌, ◌-◌, ◌<◌, ◌≡◌, ◌∷◌,
}
use bursthttp.Connection.{HealthConfig, Connection}
use bursthttp.Pool.Counts.{
  Counted, length-kept, remove_unhealthy_connections-Counted, take_connection-Counted,
}
use bursthttp.Pool.Idle.{In, Unhealthy, Takes, BestTakes, order-Comes, scan-Sound, scan_rest-Sound}
use bursthttp.Pool.{
  HostPool, is_listed, kept, removed, remove_unhealthy_connections, Scan, order, scan, claimed,
  take_connection, finish_rest, idle_round, get_idle_connection,
}

-- What is handed out: a connection that takes a request, claimed.
abbrev pub Picked : HealthConfig → List Connection → Option Connection → Type 0
Picked cfg cs none = Unit
Picked cfg cs (some d) = (c : Connection) × Takes cfg cs c × (d ≡ claimed cfg c)

-- The search ends, in a pool whose counters are right.
pub record Picks (cfg : HealthConfig) (hp : HostPool) (o : Option (HostPool × Option Connection))
    : Type 0 where
  pub pool : HostPool
  pub answer : Option Connection
  pub returned : o ≡ some (pool, answer)
  pub counted : Counted pool
  pub picked : Picked cfg hp.connections answer

In-kept : (us cs : List Connection) (c : Connection) → In c (kept us cs) → In c cs
unfolding kept
In-kept us (d ∷ ds) c h = ground (arith, In-kept us ds c)
In-kept us [] c h = h

pub In-remove :
    (us : List Connection) (hp : HostPool) (c : Connection)
    → In c (remove_unhealthy_connections us hp).connections
    → In c hp.connections
unfolding remove_unhealthy_connections
In-remove us hp c h = ground (arith, In-kept us hp.connections c)

Picked-remove :
    (cfg : HealthConfig) (us : List Connection) (hp : HostPool) (a : Option Connection)
    → Picked cfg (remove_unhealthy_connections us hp).connections a
    → Picked cfg hp.connections a
Picked-remove cfg us hp none h = tt
Picked-remove cfg us hp (some d) (c, (i, t, v), e) = (c, (In-remove us hp c i, t, v), e)

is_listed_head : (u : Connection) (us : List Connection) → is_listed (u ∷ us) u ≡ true
unfolding is_listed
is_listed_head u us = ground arith

removed_positive :
    (us cs : List Connection) (u : Connection) → In u cs → is_listed us u ≡ true → 0 < removed us cs
unfolding removed
removed_positive us [] u i l = elim i [ ]
removed_positive us (c ∷ cs) u (inl e) l = ground (arith, ap (is_listed us) e)
removed_positive us (c ∷ cs) u (inr i) l = ground (arith, removed_positive us cs u i l)

pub remove_shrinks :
    (u : Connection) (us : List Connection) (hp : HostPool)
    → In u hp.connections
    → length (remove_unhealthy_connections (u ∷ us) hp).connections < length hp.connections
unfolding remove_unhealthy_connections
remove_shrinks u us hp i = ground (
  arith,
  length-kept (u ∷ us) hp.connections,
  removed_positive (u ∷ us) hp.connections u i (is_listed_head u us),
)

finish_rest-Picks :
    (cfg : HealthConfig) (count : ℕ) (best : Option (Connection × ℕ)) (us : List Connection)
    (hp : HostPool)
    → Counted hp
    → BestTakes cfg hp.connections best
    → Picks cfg hp (some (finish_rest cfg count best us hp))
unfolding finish_rest
finish_rest-Picks cfg count none us hp k b = record {
  pool = remove_unhealthy_connections us hp;
  answer = none;
  returned = refl;
  counted = remove_unhealthy_connections-Counted us hp k;
  picked = tt;
}
finish_rest-Picks cfg count (some (c, at)) us hp k b =
    unfold take_connection in
    record {
      pool = remove_unhealthy_connections us (take_connection cfg count c at hp).0;
      answer = some (claimed cfg c);
      returned = refl;
      counted =
          remove_unhealthy_connections-Counted us _ (take_connection-Counted cfg count at c hp k);
      picked = (c, b, refl);
    }

idle_round-Picks :
    (cfg : HealthConfig) (hp : HostPool) (best : Option (Connection × ℕ)) (us : List Connection)
    (again : Option (HostPool × Option Connection))
    → Counted hp
    → BestTakes cfg hp.connections best
    → All (Unhealthy hp.connections) us
    → (length (remove_unhealthy_connections us hp).connections < length hp.connections
        → Picks cfg (remove_unhealthy_connections us hp) again)
    → Picks cfg hp (idle_round cfg hp best us again)
unfolding idle_round
idle_round-Picks cfg hp (some (c, at)) us again k b d next =
    unfold take_connection in
    record {
      pool =
          (take_connection cfg (length hp.connections) c at (remove_unhealthy_connections us hp)).0;
      answer = some (claimed cfg c);
      returned = refl;
      counted =
          take_connection-Counted cfg (length hp.connections) at c _
            (remove_unhealthy_connections-Counted us hp k);
      picked = (c, b, refl);
    }
idle_round-Picks cfg hp none (u ∷ us) again k b d next =
    let p = next (remove_shrinks u us hp d.0.0) in
    record {
      pool = p.pool;
      answer = p.answer;
      returned = p.returned;
      counted = p.counted;
      picked = Picked-remove cfg (u ∷ us) hp p.answer p.picked;
    }
idle_round-Picks cfg hp none [] again k b d next =
    let count = length hp.connections in
    let cs = hp.connections in
    let s =
      scan_rest-Sound cfg cs (order cs hp.index (min count 16) (count - min count 16)) []
        (order-Comes cs hp.index (min count 16) (count - min count 16)) tt in
    finish_rest-Picks cfg count _ _ hp k s.best_ok

-- getIdleConnection, on a pool whose counters are right, ends within one round more than there
-- are connections; it leaves the counters right, and what it hands out is the claimed form of a
-- connection of the pool that was healthy and could take a request.
pub get_idle_connection-Picks :
    (cfg : HealthConfig) (fuel : ℕ) (hp : HostPool)
    → Counted hp
    → length hp.connections < fuel
    → Picks cfg hp (get_idle_connection cfg fuel hp)
unfolding get_idle_connection
get_idle_connection-Picks cfg zero hp k l = absurd (omega arith)
get_idle_connection-Picks cfg (suc fuel) hp k l = elim (Bool-cases (length hp.connections == 0)) [
  | inl e ↦
      rw (e, get_idle_connection)
        (record { pool = hp; answer = none; returned = refl; counted = k; picked = tt })
  | inr e ↦
      let cs = hp.connections in
      let start : Scan = record { best = none; unhealthy = [] } in
      let sound =
        scan-Sound cfg cs (order cs hp.index 0 (min (length cs) 16)) start
          (order-Comes cs hp.index 0 (min (length cs) 16))
          (record { best_ok = tt; unhealthy_ok = tt }) in
      let us = (scan cfg (order cs hp.index 0 (min (length cs) 16)) start).unhealthy in
      rw (e, get_idle_connection)
        (idle_round-Picks cfg hp _ us _ k sound.best_ok sound.unhealthy_ok (λ shorter.
          get_idle_connection-Picks cfg fuel (remove_unhealthy_connections us hp)
            (remove_unhealthy_connections-Counted us hp k) (omega (arith, shorter))))
]
