-- ===== src/Tests/Pooling.antt =====
-- The pool of one host on small cases.
use bursthttp.Base.{
  Bytes, codes, eq_bytes, ℕ, refl, true, false, Option, none, some, [], arith, ℤ, pos,
  if◌then◌else◌, ◌≡◌, ◌∷◌,
}
use bursthttp.Connection.{HealthConfig, Connection, new_connection}
use bursthttp.Pool.{HostPool, get_idle_connection}
use bursthttp.Pool.Counts.{Counted}
use bursthttp.Pool.Picks.{Picks, get_idle_connection-Picks}
use bursthttp.Pool.Fallback.{FallsBack, get_any_connection-FallsBack}
use bursthttp.Pool.{get_any_connection}
use bursthttp.Pool.Key.{dial_target, pool_key, parse_host_port, last_split, bracketed, port_of}
use bursthttp.Pool.Key.Target.{dial_target-pool_key}
use bursthttp.Pool.Shared.{
  Shared, Reachable, empty, step, reserves, publishes, counts, reserve, publish, count_idle,
}
use bursthttp.Pool.Shared.Counters.{Bounded, Reachable-Bounded, Reachable-Counted}

abbrev plain : HealthConfig
plain = record {
  enable_pipelining = false;
  enable_health_scoring = true;
  enable_pipeline_auto_tune = false;
  max_pipelined_requests = 0;
}

-- A connection that is up, and one that is not.
abbrev up : ℕ → Connection
up id = record (new_connection plain id) { healthy = true }

abbrev two_connections : HostPool
two_connections = record {
  connections = new_connection plain 1 ∷ up 2 ∷ [];
  index = 0;
  max_idle = 2;
  active_count = 2;
  idle_count = 2;
}

two_connections-Counted : Counted two_connections
two_connections-Counted = record { active = refl; idle = refl; limited = omega arith }

get_idle_connection-Picks_example :
    Picks plain two_connections (get_idle_connection plain 3 two_connections)
get_idle_connection-Picks_example =
    get_idle_connection-Picks plain 3 two_connections two_connections-Counted (omega arith)

abbrev empty_pool : HostPool
empty_pool = record { connections = []; index = 0; max_idle = 1; active_count = 0; idle_count = 0 }

abbrev full_pool : HostPool
full_pool = record {
  connections = up 1 ∷ [];
  index = 0;
  max_idle = 1;
  active_count = 1;
  idle_count = 1;
}

empty_pool-reserve : reserve empty_pool ≡ some (record empty_pool { active_count = 1 })
unfolding reserve
empty_pool-reserve = refl

abbrev no_calls : HostPool → Shared
no_calls hp = record { pool = hp; dialling = 0; published = 0; unlisted = []; uncounted = [] }

abbrev reserved : Shared
reserved = record (no_calls (record empty_pool { active_count = 1 })) { dialling = 1 }

abbrev listed : Shared
listed = record (no_calls (record full_pool { idle_count = 0 })) { published = 1 }

listed-Reachable : Reachable 1 listed
unfolding publish
listed-Reachable =
    step (step empty (reserves (no_calls empty_pool) _ empty_pool-reserve))
      (publishes reserved 0 (up 1) refl)

full_pool-Reachable : Reachable 1 (no_calls full_pool)
unfolding count_idle
full_pool-Reachable = step listed-Reachable (counts listed 0 refl)

Reachable-Bounded_example : Bounded 1 listed
Reachable-Bounded_example = Reachable-Bounded 1 listed listed-Reachable

Reachable-Counted_example : Counted full_pool
Reachable-Counted_example =
    Reachable-Counted 1 (no_calls full_pool) (omega arith) full_pool-Reachable refl refl refl refl

get_any_connection-FallsBack_example :
    FallsBack two_connections (get_any_connection 3 two_connections)
get_any_connection-FallsBack_example =
    get_any_connection-FallsBack 3 two_connections two_connections-Counted (omega arith)

-- Reads "8080" and nothing else.
abbrev small_atoi : Bytes → Option ℤ
small_atoi s = if eq_bytes s (codes "8080") then some (pos 8080) else none

small_atoi_reads : small_atoi (codes "8080") ≡ some (pos 8080)
unfolding eq_bytes
small_atoi_reads = refl

dial_target-pool_key_example :
    dial_target small_atoi (codes "d") 80 (pool_key true (codes "::1") (codes "8080"))
    ≡ (codes "::1", 8080)
dial_target-pool_key_example =
    dial_target-pool_key small_atoi (codes "d") 80 8080 b':' true (codes ":1") (codes "8080")
      (ground arith) (ground arith) small_atoi_reads (omega arith)

bracketed_run : parse_host_port small_atoi (codes "d") 80 (codes "[::1]:8080") ≡ (codes "::1", 8080)
unfolding parse_host_port last_split bracketed port_of eq_bytes
bracketed_run = refl
