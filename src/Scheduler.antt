-- ===== src/Scheduler.antt =====
-- scheduler.go: the bounded queue of one host, its workers, and the channel of each piece of work. A work
-- is known by its number in the order in which works are queued; what it carries, and what `conn.Do` gives,
-- play no part. A send on `resp`, which holds one result, is an answer of the work.
pub mod Answers
pub mod Liveness
use bursthttp.Base.{
  ltb, length, ℕ, zero, suc, Bool, true, false, Option, none, some, List, [], ℤ, pos, leb_ℤ,
  pos_part, ◌==◌, if◌then◌else◌, ◌+◌, ◌*◌, ◌∷◌, ◌++◌,
}

-- `NewScheduler`: the workers of a host and the capacity of its queue.
unfoldable pub worker_count : ℤ → ℤ → ℕ
worker_count workers pool_size =
    if leb_ℤ workers (pos 0)
    then (if leb_ℤ pool_size (pos 0) then 64 else pos_part pool_size)
    else pos_part workers

unfoldable pub queue_capacity : ℤ → ℕ → ℕ
queue_capacity queue_cap workers =
    if leb_ℤ queue_cap (pos 0) then workers * 4 else pos_part queue_cap

-- What a worker sends: the two errors of its own, or the response or error of `conn.Do`.
pub data ScheduledResult : Type 0 where
  cancelled_before_execute : ScheduledResult
  no_connection_available : ScheduledResult
  did : ℕ → ScheduledResult

-- `idle` counts the workers at their select, `running` is the work that the others have taken, and
-- `next` the works that were queued so far.
pub record HostScheduler : Type 0 where
  pub queue_cap : ℕ
  pub queue : List ℕ
  pub idle : ℕ
  pub running : List ℕ
  pub answers : List (ℕ × ScheduledResult)
  pub next : ℕ
  pub stopped : Bool

-- `getOrCreateHostScheduler` for a new key.
abbrev pub new_host_scheduler : ℕ → ℕ → HostScheduler
new_host_scheduler workers queue_cap = record {
  queue_cap = queue_cap;
  queue = [];
  idle = workers;
  running = [];
  answers = [];
  next = 0;
  stopped = false;
}

-- `hs.queue <- work`, which blocks when the queue is full.
unfoldable pub enqueue_work : HostScheduler → Option HostScheduler
enqueue_work s =
    if ltb (length s.queue) s.queue_cap
    then some (record s { queue = s.queue ++ s.next ∷ []; next = s.next + 1 })
    else none

-- `work := <-hs.queue` by a worker at its select.
abbrev pub taken : HostScheduler → ℕ → List ℕ → Option HostScheduler
taken s zero queue = none
taken s (suc idle) [] = none
taken s (suc idle) (w ∷ queue) =
    some (record s { queue = queue; idle = idle; running = w ∷ s.running })

unfoldable pub take_work : HostScheduler → Option HostScheduler
take_work s = taken s s.idle s.queue

-- What the worker sends for its work: `ctx.Done()` first, then the connection of the pool.
abbrev pub execute : Bool → Bool → ℕ → ScheduledResult
execute ctx_done connected outcome =
    if ctx_done
    then cancelled_before_execute
    else if connected
    then did outcome
    else no_connection_available

unfoldable pub member : ℕ → List ℕ → Bool
member w [] = false
member w (x ∷ xs) = if x == w then true else member w xs

unfoldable pub remove : ℕ → List ℕ → List ℕ
remove w [] = []
remove w (x ∷ xs) = if x == w then xs else x ∷ remove w xs

-- `work.resp <- …`, behind which the worker is back at its select.
unfoldable pub finish : ℕ → ScheduledResult → HostScheduler → Option HostScheduler
finish w r s =
    if member w s.running
    then some
        (record s { running = remove w s.running; idle = s.idle + 1; answers = (w, r) ∷ s.answers })
    else none

-- `Stop`, which closes both channels, and the return of a worker that sees it.
abbrev pub stop_scheduler : HostScheduler → HostScheduler
stop_scheduler s = record s { stopped = true }

abbrev pub left_by : HostScheduler → Bool → ℕ → Option HostScheduler
left_by s true (suc idle) = some (record s { idle = idle })
left_by s _ _ = none

unfoldable pub leave : HostScheduler → Option HostScheduler
leave s = left_by s s.stopped s.idle
