-- ===== src/Connection.antt =====
-- connection.go: the part of a connection that the pool reads, which is whether it takes a request,
-- its health score and its pipeline depth. Durations are nanoseconds and not negative, since the
-- clock behind `elapsed` is monotonic. A `MaxPipelinedRequests` that is not positive is 0.
pub mod Health
pub mod Pipeline
pub mod Link
pub mod Sequential
use bursthttp.Base.{
  ltb, leb, ℕ, min, Bool, false, not, ◌==◌, if◌then◌else◌, ◌+◌, ◌-◌, ◌*◌, ◌/◌, ◌&&◌,
}

-- The fields of `Config` that are read.
pub record HealthConfig : Type 0 where
  pub enable_pipelining : Bool
  pub enable_health_scoring : Bool
  pub enable_pipeline_auto_tune : Bool
  pub max_pipelined_requests : ℕ

pub record Connection : Type 0 where
  pub id : ℕ
  pub healthy : Bool
  pub stopped : Bool
  pub active_reqs : ℕ
  pub pool_claimed : Bool
  pub latency_ewma : ℕ
  pub error_count : ℕ
  pub total_window : ℕ
  pub health_score : ℕ
  pub pipeline_depth : ℕ

abbrev pub health_window_size : ℕ
health_window_size = 50

-- `if depth <= 0 { depth = 10 }`
abbrev pub or_ten : ℕ → ℕ
or_ten n = if ltb 0 n then n else 10

-- `NewConnection`
unfoldable pub new_connection : HealthConfig → ℕ → Connection
new_connection cfg id = record {
  id = id;
  healthy = false;
  stopped = false;
  active_reqs = 0;
  pool_claimed = false;
  latency_ewma = 0;
  error_count = 0;
  total_window = 0;
  health_score = 0;
  pipeline_depth = or_ten cfg.max_pipelined_requests;
}

-- `IsHealthy`
unfoldable pub is_healthy : Connection → Bool
is_healthy c = c.healthy && not c.stopped

-- `CanAcceptRequest`
unfoldable pub can_accept_request : HealthConfig → Connection → Bool
can_accept_request cfg c =
    if not (is_healthy c)
    then false
    else if cfg.enable_pipelining
    then ltb c.active_reqs (or_ten c.pipeline_depth)
    else c.active_reqs == 0

-- `old + (ns-old)>>3`, where the shift rounds towards minus infinity.
unfoldable pub smooth : ℕ → ℕ → ℕ
smooth old ns = if leb old ns then old + (ns - old) / 8 else old - (old - ns + 7) / 8

-- The penalty for latency, `latMs` given.
unfoldable pub latency_penalty : ℕ → ℕ
latency_penalty lat_ms = if ltb 50 lat_ms then min ((lat_ms - 50) / 10) 60 else 0

-- The score of a window. The subtractions stop at 0, which is where the source cuts a negative score.
unfoldable pub window_score : ℕ → ℕ → ℕ
window_score ewma errors =
    100
    - latency_penalty (ewma / 1000000)
    - (if ltb 0 errors then (40 * errors) / health_window_size else 0)

-- `advanceHealthWindow`
unfoldable pub advance_health_window : Connection → Connection
advance_health_window c =
    let total = c.total_window + 1 in
    if ltb total health_window_size then record c { total_window = total } else record c {
      error_count = 0;
      total_window = 0;
      health_score = window_score c.latency_ewma c.error_count;
    }

-- The cap of `tunePipelineDepth`.
unfoldable pub max_depth : HealthConfig → ℕ
max_depth cfg = min (or_ten cfg.max_pipelined_requests) 32

-- `tunePipelineDepth`
unfoldable pub tune_pipeline_depth : HealthConfig → ℕ → Connection → Connection
tune_pipeline_depth cfg ewma c =
    let ms = ewma / 1000000 in
    if ltb ms 10
    then record c { pipeline_depth = min (c.pipeline_depth + 1) (max_depth cfg) }
    else if ltb 100 ms
    then record c {
      pipeline_depth = if ltb (c.pipeline_depth - 1) 1 then 1 else c.pipeline_depth - 1;
    }
    else c

-- `recordSuccess`
unfoldable pub record_success : HealthConfig → ℕ → Connection → Connection
record_success cfg ns c =
    let ewma = if c.latency_ewma == 0 then ns else smooth c.latency_ewma ns in
    let advanced = advance_health_window (record c { latency_ewma = ewma }) in
    if not cfg.enable_health_scoring
    then c
    else if cfg.enable_pipeline_auto_tune && cfg.enable_pipelining
    then tune_pipeline_depth cfg ewma advanced
    else advanced

-- `recordError`
unfoldable pub record_error : HealthConfig → Connection → Connection
record_error cfg c =
    if cfg.enable_health_scoring
    then advance_health_window (record c { error_count = c.error_count + 1 })
    else c

-- `HealthScore`
unfoldable pub health : Connection → ℕ
health c = if c.health_score == 0 && c.latency_ewma == 0 then 100 else c.health_score
