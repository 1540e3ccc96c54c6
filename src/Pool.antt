-- ===== src/Pool.antt =====
-- pool.go: the pool of one host. A connection is known by its id, as the source knows it by its
-- pointer; `Stop`, which closes the socket of one that is dropped, is the connection's. Each
-- function here runs with no other goroutine in between, so that every compare-and-swap succeeds;
-- Pool.Shared has the interleavings. The 32-bit counters do not reach their limits. The counts never
-- go below 0, as the invariant shows, so they are natural numbers.
pub mod Counts
pub mod Shared
pub mod Idle
pub mod Picks
pub mod Fallback
pub mod Key
use bursthttp.Base.{
  ltb, leb, length, get_elem?, ℕ, zero, suc, min, Bool, true, false, not, Option, none, some, List,
  [], nonempty, ◌==◌, if◌then◌else◌, ◌+◌, ◌-◌, ◌%◌, ◌||◌, ◌∷◌, ◌++◌,
}
use bursthttp.Connection.{HealthConfig, Connection, is_healthy, can_accept_request, health}

pub record HostPool : Type 0 where
  pub connections : List Connection
  pub index : ℕ
  pub max_idle : ℕ
  pub active_count : ℕ
  pub idle_count : ℕ

-- `unhealthyMap[c]`, or the loop over `unhealthy`.
unfoldable pub is_listed : List Connection → Connection → Bool
is_listed [] c = false
is_listed (u ∷ us) c = u.id == c.id || is_listed us c

-- `newConns`: what is not listed.
unfoldable pub kept : List Connection → List Connection → List Connection
kept us [] = []
kept us (c ∷ cs) = let rest = kept us cs in if is_listed us c then rest else c ∷ rest

-- `removed`
unfoldable pub removed : List Connection → List Connection → ℕ
removed us [] = 0
removed us (c ∷ cs) = let rest = removed us cs in if is_listed us c then rest + 1 else rest

-- `removeUnhealthyConnections`. With an empty list, or with nothing to drop, it changes nothing.
unfoldable pub remove_unhealthy_connections : List Connection → HostPool → HostPool
remove_unhealthy_connections us hp =
    let n = removed us hp.connections in
    if not (nonempty us) || n == 0 then hp else record hp {
      connections = kept us hp.connections;
      active_count = hp.active_count - n;
      idle_count = hp.idle_count - n;
    }

-- `createConnection`: `fresh` is what `NewConnection` gives, and `connect` what `ensureConnection`
-- makes of it, `none` where it fails.
unfoldable pub create_connection :
    (Connection → Option Connection) → Connection → HostPool → HostPool × Option Connection
create_connection connect fresh hp =
    if leb hp.max_idle hp.active_count then (hp, none) else elim (connect fresh) [
      | none ↦ (hp, none)
      | some c ↦ (
        record hp {
          connections = hp.connections ++ c ∷ [];
          active_count = hp.active_count + 1;
          idle_count = hp.idle_count + 1;
        },
        some c,
      )
    ]

-- What the first loop of `getIdleConnection` carries: `best` with `bestScore` and `bestIdx`, and
-- `unhealthy`.
pub record Scan : Type 0 where
  pub best : Option (Connection × ℕ)
  pub unhealthy : List Connection

abbrev pub better : Option (Connection × ℕ) → Connection → Bool
better none c = true
better (some (b, at)) c = ltb (health b) (health c)

-- One round at a connection: what is carried on, and whether the loop breaks.
unfoldable pub scan_one : HealthConfig → ℕ → Connection → Scan → Scan × Bool
scan_one cfg at c s =
    if not (is_healthy c)
    then (record s { unhealthy = s.unhealthy ++ c ∷ [] }, false)
    else if not (can_accept_request cfg c)
    then (s, false)
    else ((if better s.best c then record s { best = some (c, at) } else s), health c == 100)

-- The connections from `startIndex` on, in the order in which they are looked at, with their indices:
-- `(startIndex + i) % connCount` for `i` below `k`.
unfoldable pub order : List Connection → ℕ → ℕ → ℕ → List (Connection × ℕ)
order conns start i zero = []
order conns start i (suc k) =
    let at = (start + i) % length conns in
    let rest = order conns start (i + 1) k in
    elim (get_elem? conns at) [ none ↦ rest | some c ↦ (c, at) ∷ rest ]

unfoldable pub scan : HealthConfig → List (Connection × ℕ) → Scan → Scan
scan cfg [] s = s
scan cfg ((c, at) ∷ rest) s =
    let (s', stop) = scan_one cfg at c s in
    let later = scan cfg rest s' in if stop then s' else later

-- The second loop: the first connection that takes a request, and the unhealthy ones before it.
unfoldable pub scan_rest : HealthConfig → List (Connection × ℕ) → List Connection → Scan
scan_rest cfg [] us = record { best = none; unhealthy = us }
scan_rest cfg ((c, at) ∷ rest) us =
    let more = scan_rest cfg rest (us ++ c ∷ []) in
    let next = scan_rest cfg rest us in
    if not (is_healthy c)
    then more
    else if can_accept_request cfg c
    then record { best = some (c, at); unhealthy = us }
    else next

-- The compare-and-swap of `activeReqs` from 0 to 1, and `poolClaimed`.
abbrev pub claimed : HealthConfig → Connection → Connection
claimed cfg c =
    if cfg.enable_pipelining then c else record c { active_reqs = 1; pool_claimed = true }

-- The shared connection changes wherever the list refers to it.
unfoldable pub update : Connection → List Connection → List Connection
update c [] = []
update c (d ∷ ds) = (if d.id == c.id then c else d) ∷ update c ds

-- The return of a connection: it is claimed, and the next search starts behind it.
unfoldable pub take_connection :
    HealthConfig → ℕ → Connection → ℕ → HostPool → HostPool × Option Connection
take_connection cfg count c at hp = (
  record hp { connections = update (claimed cfg c) hp.connections; index = (at + 1) % count },
  some (claimed cfg c),
)

-- The end of `getIdleConnection` after its second loop, over a list of `count` connections.
unfoldable pub finish_rest :
    HealthConfig
    → ℕ
    → Option (Connection × ℕ)
    → List Connection
    → HostPool
    → HostPool × Option Connection
finish_rest cfg count none us hp = (remove_unhealthy_connections us hp, none)
finish_rest cfg count (some (c, at)) us hp =
    let (hp', answer) = take_connection cfg count c at hp in
    (remove_unhealthy_connections us hp', answer)

-- What `getIdleConnection` does after its first loop; `again` is what it gives once it has started again.
unfoldable pub idle_round :
    HealthConfig
    → HostPool
    → Option (Connection × ℕ)
    → List Connection
    → Option (HostPool × Option Connection)
    → Option (HostPool × Option Connection)
idle_round cfg hp (some (c, at)) us again =
    some (take_connection cfg (length hp.connections) c at (remove_unhealthy_connections us hp))
idle_round cfg hp none (u ∷ us) again = again
idle_round cfg hp none [] again =
    let count = length hp.connections in
    let s =
      scan_rest cfg (order hp.connections hp.index (min count 16) (count - min count 16)) [] in
    some (finish_rest cfg count s.best s.unhealthy hp)

-- `getIdleConnection`, with fuel for the rounds that drop unhealthy connections and start again.
unfoldable pub get_idle_connection :
    HealthConfig → ℕ → HostPool → Option (HostPool × Option Connection)
get_idle_connection cfg zero hp = none
get_idle_connection cfg (suc fuel) hp =
    let count = length hp.connections in
    let s =
      scan cfg (order hp.connections hp.index 0 (min count 16))
        (record { best = none; unhealthy = [] }) in
    let again = get_idle_connection cfg fuel (remove_unhealthy_connections s.unhealthy hp) in
    if count == 0 then some (hp, none) else idle_round cfg hp s.best s.unhealthy again

-- The loop of `getAnyConnection`: the first healthy connection, and the unhealthy ones before it.
unfoldable pub find_healthy : List (Connection × ℕ) → List Connection → Scan
find_healthy [] us = record { best = none; unhealthy = us }
find_healthy ((c, at) ∷ rest) us =
    let more = find_healthy rest (us ++ c ∷ []) in
    if is_healthy c then record { best = some (c, at); unhealthy = us } else more

-- What `getAnyConnection` does after its loop; `again` as above. The connection is not claimed.
unfoldable pub any_round :
    ℕ
    → HostPool
    → Option (Connection × ℕ)
    → Option (HostPool × Option Connection)
    → Option (HostPool × Option Connection)
any_round count dropped (some (c, at)) again =
    some (record dropped { index = (at + 1) % count }, some c)
any_round count dropped none again = again

-- `getAnyConnection`, with fuel as above.
unfoldable pub get_any_connection : ℕ → HostPool → Option (HostPool × Option Connection)
get_any_connection zero hp = none
get_any_connection (suc fuel) hp =
    let count = length hp.connections in
    let s = find_healthy (order hp.connections hp.index 0 (min count 8)) [] in
    let dropped = remove_unhealthy_connections s.unhealthy hp in
    let again = get_any_connection fuel dropped in
    if count == 0 then some (hp, none) else any_round count dropped s.best again
