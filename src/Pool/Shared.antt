-- ===== src/Pool/Shared.antt =====
-- The pool of one host under many goroutines: each atomic operation of pool.go on the list and on the
-- two counters is a step. `createConnection` is four of them with a dial in between, and
-- `removeUnhealthyConnections` three. The idle counter, which may be below 0 for a while, is a bit
-- pattern of 32 bits here. The list is never nil: the pool is made with an empty one.
pub mod Counters
use bursthttp.Base.{
  leb, ℕ, suc, Option, none, some, List, [], if◌then◌else◌, ◌+◌, ◌-◌, ◌%◌, ◌^◌, ◌<◌, ◌≡◌, ◌∷◌, ◌++◌,
}
use bursthttp.Connection.{Connection}
use bursthttp.Pool.{HostPool, kept, removed, update}

-- The first loop of `createConnection`: a place is taken while there is one.
unfoldable pub reserve : HostPool → Option HostPool
reserve hp =
    if leb hp.max_idle hp.active_count
    then none
    else some (record hp { active_count = hp.active_count + 1 })

-- The dial has failed: the place is given back.
unfoldable pub give_back : HostPool → HostPool
give_back hp = record hp { active_count = hp.active_count - 1 }

-- The second loop: the compare-and-swap that adds the connection to the list.
unfoldable pub publish : Connection → HostPool → HostPool
publish c hp = record hp { connections = hp.connections ++ c ∷ [] }

-- `hp.idleCount.Add(1)` behind it.
unfoldable pub count_idle : HostPool → HostPool
count_idle hp = record hp { idle_count = (hp.idle_count + 1) % 2 ^ 32 }

-- The compare-and-swap of `removeUnhealthyConnections`.
unfoldable pub unlist : List Connection → HostPool → HostPool
unlist us hp = record hp { connections = kept us hp.connections }

-- `hp.activeCount.Add(-int32(removed))`, and `hp.idleCount.Add(-int32(removed))` behind it.
unfoldable pub uncount_active : ℕ → HostPool → HostPool
uncount_active n hp = record hp { active_count = hp.active_count - n }

unfoldable pub uncount_idle : ℕ → HostPool → HostPool
uncount_idle n hp = record hp { idle_count = (hp.idle_count + (2 ^ 32 - n % 2 ^ 32)) % 2 ^ 32 }

-- The pool; the calls that have a place and no connection yet; those that have listed theirs and not
-- counted it; and how many connections each call has taken off the list that still has to count them
-- in both counters, or in the second.
pub record Shared : Type 0 where
  pub pool : HostPool
  pub dialling : ℕ
  pub published : ℕ
  pub unlisted : List ℕ
  pub uncounted : List ℕ

pub data Steps : Shared → Shared → Type 0 where
  reserves :
      (s : Shared) (hp : HostPool)
      → reserve s.pool ≡ some hp
      → Steps s (record s { pool = hp; dialling = suc s.dialling })
  fails_to_dial :
      (s : Shared) (n : ℕ)
      → s.dialling ≡ suc n
      → Steps s (record s { pool = give_back s.pool; dialling = n })
  publishes :
      (s : Shared) (n : ℕ) (c : Connection)
      → s.dialling ≡ suc n
      → Steps s (record s { pool = publish c s.pool; dialling = n; published = suc s.published })
  counts :
      (s : Shared) (n : ℕ)
      → s.published ≡ suc n
      → Steps s (record s { pool = count_idle s.pool; published = n })
  unlists :
      (s : Shared) (us : List Connection)
      → 0 < removed us s.pool.connections
      → Steps s (record s {
        pool = unlist us s.pool;
        unlisted = removed us s.pool.connections ∷ s.unlisted;
      })
  uncounts_active :
      (s : Shared) (before after : List ℕ) (n : ℕ)
      → s.unlisted ≡ before ++ n ∷ after
      → Steps s (record s {
        pool = uncount_active n s.pool;
        unlisted = before ++ after;
        uncounted = n ∷ s.uncounted;
      })
  uncounts_idle :
      (s : Shared) (before after : List ℕ) (n : ℕ)
      → s.uncounted ≡ before ++ n ∷ after
      → Steps s (record s { pool = uncount_idle n s.pool; uncounted = before ++ after })
  changes :
      (s : Shared) (index : ℕ) (c : Connection)
      → Steps s (record s {
        pool = record s.pool { connections = update c s.pool.connections; index = index };
      })

-- The states from an empty pool on.
pub data Reachable (max_idle : ℕ) : Shared → Type 0 where
  empty : Reachable max_idle (record {
    pool = record {
      connections = [];
      index = 0;
      max_idle = max_idle;
      active_count = 0;
      idle_count = 0;
    };
    dialling = 0;
    published = 0;
    unlisted = [];
    uncounted = [];
  })
  step : {s s' : Shared} → Reachable max_idle s → Steps s s' → Reachable max_idle s'
